-- ===== src/Psync/Conversation/Server.antt =====
-- The requests of psync/conversation.go: `HandleCall`, `HandleCast` and `handleReplay`, and what
-- psync/restart.go adds. Where Go panics, a call answers `panicked`. An incoming frame is the body
-- that `UnmarshalWire` decodes, if it decodes; the callbacks for liveness and for acknowledgements
-- leave the state alone. The mask's answer comes from its storage, so a mask request carries whether
-- the write to the storage succeeds.
pub mod Replayed
pub mod Extended
pub mod Steps
pub mod Runs
use comlink.Common.{
  ℕ, ◌+◌, Bool, true, false, Option, none, some, List, [], ◌∷◌, ◌++◌, if◌then◌else◌,
}
use comlink.Common.Assoc.{Bytes, bytes_key, get, put, delete}
use comlink.Common.Result.{Result, ok, err}
use comlink.Messages.{ReplicaId, MessageId, Envelope, id_of}
use comlink.Psync.Membership.{
  Membership, add, AddError, freeze, FreezeError, sender_seq, new_membership,
}
use comlink.Psync.Graph.{NodeRef, Graph, InsertError, has, insert, lookup, leaves, messages_in_wave}
use comlink.Psync.Stability.{wave_complete, stable_nodes}
use comlink.Log.{Entry, LogError, range, next_offset}
use comlink.Psync.Conversation.{
  State, Set, PsyncMessage, envelope, lost_message_request, restart_message, restart_ack,
}
use comlink.Psync.Conversation.Receive.{handle_envelope}
use comlink.Psync.Conversation.Send.{
  SendError, handle_send, handle_lost_request, handle_request_missing,
}

-- What the replay has so far: the graph, the number of inserted envelopes, and those to deliver.
pub record Replay : Type 0 where
  pub graph : Graph
  pub inserted : ℕ
  pub envelopes : List Envelope

inserted_into : Bool → Envelope → Replay → Result InsertError (Graph × NodeRef) → Replay
inserted_into deliver env acc (err e) = acc
inserted_into deliver env acc (ok (g, ref)) = record {
  graph = g;
  inserted = acc.inserted + 1;
  envelopes = if deliver then acc.envelopes ++ env ∷ [] else acc.envelopes;
}

-- One round of the loop of `handleReplay`.
replay_entry : Membership → Bool → Envelope → Replay → Replay
unfolding inserted_into
replay_entry m deliver env acc = elim (id_of env).sender [
  | none ↦ acc
  | some s ↦ elim (sender_seq m (id_of env)) [
    | err e ↦ acc
    | ok q ↦
        if has acc.graph s q then acc else inserted_into deliver env acc (insert m acc.graph env)
  ]
]

replay_all : Membership → Bool → List Entry → Replay → Replay
unfolding replay_entry
replay_all m deliver [] acc = acc
replay_all m deliver (e ∷ es) acc = replay_all m deliver es (replay_entry m deliver e.envelope acc)

-- `handleReplay`: the state, and the number and the envelopes of the replay. The log is read to its
-- end, which is where `EndOfLog` is cut to.
unfoldable pub handle_replay : State → Bool → State × Result LogError (ℕ × List Envelope)
unfolding replay_all
handle_replay st deliver = elim (range st.log st.log.first_offset (next_offset st.log)) [
  | err e ↦ (st, err e)
  | ok es ↦
      let out =
        replay_all st.membership deliver es
          (record { graph = st.graph; inserted = 0; envelopes = [] }) in
      (record st { graph = out.graph }, ok (out.inserted, out.envelopes))
]

-- The identities of the nodes that are named.
ids_of : Graph → List NodeRef → List MessageId
ids_of g [] = []
ids_of g ((s, q) ∷ refs) =
    let rest = ids_of g refs in
    elim (lookup g s q) [ none ↦ rest | some n ↦ id_of n.envelope ∷ rest ]

envelopes_of : Graph → List NodeRef → List Envelope
envelopes_of g [] = []
envelopes_of g ((s, q) ∷ refs) =
    let rest = envelopes_of g refs in
    elim (lookup g s q) [ none ↦ rest | some n ↦ n.envelope ∷ rest ]

-- `handleRestartMessage`: the leaves, to the replica that restarts.
unfoldable pub handle_restart_message : State → Option ReplicaId → State
unfolding ids_of
handle_restart_message st none = st
handle_restart_message st (some restarter) = record st {
  sent =
      st.sent ++ (restarter, restart_ack (some st.self) (ids_of st.graph (leaves st.graph))) ∷ [];
}

-- `requestLeavesAfterRestart` and `membershipSenderSeqFromConfig`: the requests that a restarting
-- replica sends for the leaves of an acknowledgement, by the members of its configuration.
request_leaves_from : List ReplicaId → ReplicaId → List MessageId → List (ReplicaId × PsyncMessage)
request_leaves_from members responder [] = []
request_leaves_from members responder (leaf ∷ leaves) =
    let rest = request_leaves_from members responder leaves in
    elim (sender_seq (new_membership members) leaf) [
      | err e ↦ rest
      | ok q ↦ (responder, lost_message_request leaf.sender q) ∷ rest
    ]

unfoldable pub request_leaves_after_restart :
    List ReplicaId → Option ReplicaId → List MessageId → List (ReplicaId × PsyncMessage)
unfolding request_leaves_from
request_leaves_after_restart members none leaves = []
request_leaves_after_restart members (some responder) leaves =
    request_leaves_from members responder leaves

pub data Request : Type 0 where
  send_request : Bytes → Request
  mask_request : Bool → ReplicaId → Bool → Request
  replay_log_request : Bool → Request
  wave_complete_request : ℕ → Request
  messages_in_wave_request : ℕ → Request
  stable_message_ids_request membership_request : Request
  freeze_member_request : ReplicaId → Request
  add_member_request : ReplicaId → Request
  has_seen_request : ReplicaId → ℕ → Request
  request_missing_request : ReplicaId → ℕ → Request

pub data Response : Type 0 where
  send_response : Result SendError MessageId → Response
  mask_response : Bool → Response
  replay_log_response : Result LogError (ℕ × List Envelope) → Response
  wave_complete_response : Bool → Response
  messages_in_wave_response : List Envelope → Response
  stable_message_ids_response : List MessageId → Response
  membership_response : Membership → Response
  freeze_member_response : Option FreezeError → Response
  add_member_response : Result AddError ℕ → Response
  has_seen_response : Bool → Response
  request_missing_response panicked : Response

-- What is left of the mask once the storage has answered: a write that fails is undone.
masked_after : State → Bool → Set Bytes → State × Response
masked_after st true new = (record st { masked = new }, mask_response true)
masked_after st false new = (st, mask_response false)

-- `Maskin` (true) or `Maskout` (false), with what the storage says.
mask_with : State → Bool → ReplicaId → Bool → State × Response
unfolding masked_after
mask_with st true r stored = elim (get r st.masked) [
  | none ↦ (st, mask_response true)
  | some u ↦ masked_after st stored (delete r st.masked)
]
mask_with st false r stored = elim (get r st.masked) [
  | some u ↦ (st, mask_response true)
  | none ↦ masked_after st stored (put r tt st.masked)
]

freeze_with : State → Result FreezeError Membership → State × Response
freeze_with st (err e) = (st, freeze_member_response (some e))
freeze_with st (ok m) = (record st { membership = m }, freeze_member_response none)

add_with : State → Result AddError (ℕ × Membership) → State × Response
add_with st (err e) = (st, add_member_response (err e))
add_with st (ok (slot, m)) = (record st { membership = m }, add_member_response (ok slot))

-- `HandleCall`.
unfoldable pub handle_call : State → Request → State × Response
unfolding mask_with freeze_with add_with ids_of envelopes_of
handle_call st (send_request payload) =
    let out = handle_send st payload in (out.0, send_response out.1)
handle_call st (mask_request into r stored) = mask_with st into r stored
handle_call st (replay_log_request deliver) =
    let out = handle_replay st deliver in (out.0, replay_log_response out.1)
handle_call st (wave_complete_request w) = elim (wave_complete st.membership st.graph w) [
  | none ↦ (st, panicked)
  | some b ↦ (st, wave_complete_response b)
]
handle_call st (messages_in_wave_request w) =
    (st, messages_in_wave_response (envelopes_of st.graph (messages_in_wave st.graph w)))
handle_call st stable_message_ids_request = elim (stable_nodes st.membership st.graph) [
  | none ↦ (st, panicked)
  | some refs ↦ (st, stable_message_ids_response (ids_of st.graph refs))
]
handle_call st membership_request = (st, membership_response st.membership)
handle_call st (freeze_member_request r) = freeze_with st (freeze st.membership r)
handle_call st (add_member_request r) = add_with st (add st.membership r)
handle_call st (has_seen_request s q) = (st, has_seen_response (has st.graph s q))
handle_call st (request_missing_request s q) =
    (handle_request_missing st s q, request_missing_response)

-- `HandleCast`, which is `handleIncoming`.
unfoldable pub handle_cast : ℕ → State → ReplicaId → Option PsyncMessage → Option State
handle_cast fuel st from none = some st
handle_cast fuel st from (some (envelope env)) = handle_envelope fuel st env from
handle_cast fuel st from (some (lost_message_request missing q)) =
    some (handle_lost_request st missing q from)
handle_cast fuel st from (some (restart_message restarter)) =
    some (handle_restart_message st restarter)
handle_cast fuel st from (some (restart_ack responder ids)) = some st
