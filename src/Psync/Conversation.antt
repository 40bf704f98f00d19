-- ===== src/Psync/Conversation.antt =====
-- psync/conversation.go: the state that the genserver of a conversation carries, with the handles of
-- `serverImpl` that change (membership view, log, mask) beside it. The delivery channel is the list
-- of what was pushed, in order; the network is the list of (peer, message) that was sent, a message
-- standing for its protobuf encoding. Sends only log their errors, so their outcome is not modelled.
pub mod View
pub mod Receive
pub mod Causal
pub mod Send
pub mod Server
use comlink.Common.{ℕ, Option, none, some, List, [], ◌∷◌, ◌==◌, if◌then◌else◌, replicate}
use comlink.Common.Assoc.{Bytes, nat_key, bytes_key, Assoc}
use comlink.Common.Result.{Result, ok, err}
use comlink.Messages.{ReplicaId, MessageId, Envelope, vector_of}
use comlink.Common.Assoc.{IndexKey, index_key}
use comlink.Psync.Membership.{Membership, new_membership, len, slot_of}
use comlink.Psync.Vector.{Vector, max_vector}
use comlink.Psync.Graph.{Node, Graph, new_graph, lookup, latest_seq}
use comlink.Log.{Log}

-- The bodies of a PsyncMessage (psync/wire.go). An unset body does not decode.
pub data PsyncMessage : Type 0 where
  envelope : Envelope → PsyncMessage
  lost_message_request : Option ReplicaId → ℕ → PsyncMessage
  restart_message : Option ReplicaId → PsyncMessage
  restart_ack : Option ReplicaId → List MessageId → PsyncMessage

-- A Go set: a map to nothing.
abbrev pub Set : Type 0 → Type 0
Set K = Assoc K (Unit {0})

pub record Pending : Type 0 where
  pub env : Envelope
  pub from : ReplicaId
  pub waiting : Set IndexKey

pub record State : Type 0 where
  pub conv_id : Bytes
  pub self : ReplicaId
  pub self_slot : ℕ
  pub membership : Membership
  pub log : Log
  pub masked : Set Bytes
  pub graph : Graph
  pub deferred : Assoc IndexKey Pending
  pub deferred_by_need : Assoc IndexKey (Set IndexKey)
  pub outstanding : Set IndexKey
  pub delivered : List Envelope
  pub sent : List (ReplicaId × PsyncMessage)

pub data NewError : Type 0 where
  members_empty self_not_member : NewError

-- `New` and `Init`, from the log and mask that are already open; the nil checks of the other fields
-- have no counterpart.
unfoldable pub new_state :
    Bytes → ReplicaId → List ReplicaId → Log → Set Bytes → Result NewError State
unfolding new_membership slot_of new_graph
new_state conv self members log masked =
    let m = new_membership members in
    elim members [
      | [] ↦ err members_empty
      | r ∷ rs ↦ elim (slot_of m self) [
        | none ↦ err self_not_member
        | some slot ↦ ok (record {
          conv_id = conv;
          self = self;
          self_slot = slot;
          membership = m;
          log = log;
          masked = masked;
          graph = new_graph;
          deferred = [];
          deferred_by_need = [];
          outstanding = [];
          delivered = [];
          sent = [];
        })
      ]
    ]

-- The vector of a node that `LatestSeq` promises; a nil node would panic.
abbrev pub vector_at : Option Node → Vector
vector_at none = []
vector_at (some n) = vector_of n.envelope

-- One round of `currentView`: the latest vector of `r`, if it has sent anything.
join_latest : Graph → ReplicaId → Vector → Vector
unfolding latest_seq lookup max_vector
join_latest g r out =
    if latest_seq g r == 0 then out else max_vector out (vector_at (lookup g r (latest_seq g r)))

-- The loop of `currentView` over the slots, with its variable `out`.
view_from : Graph → List ReplicaId → Vector → Vector
unfolding join_latest
view_from g [] out = out
view_from g (r ∷ rs) out = view_from g rs (join_latest g r out)

unfoldable pub current_view : Graph → Membership → Vector
unfolding view_from
current_view g m = view_from g m.replicas (replicate (len m) 0)
