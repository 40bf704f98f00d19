-- ===== src/Psync/Conversation/Send.antt =====
-- The sending side of psync/conversation.go: `handleSend`, `broadcastEnvelope` and
-- `handleLostRequest`, with `handleRequestMissing`.
pub mod Accepted
pub mod Retransmit
use comlink.Common.{ℕ, ◌+◌, ◌-◌, ite, Option, none, some, List, [], ◌∷◌, ◌++◌}
use comlink.Common.Assoc.{Bytes, Bytes-discrete, nat_key, bytes_key}
use comlink.Common.Result.{Result, ok, err}
use comlink.Messages.{ReplicaId, MessageId, Envelope, value_of, id_of}
use comlink.Common.Assoc.{index_key}
use comlink.Psync.Membership.{active_replicas}
use comlink.Psync.Vector.{Vector, at, increment}
use comlink.Psync.Graph.{NodeRef, Graph, InsertError, insert}
use comlink.Log.{Log, LogError, append, lookup_by_sender}
use comlink.Psync.Conversation.{State, PsyncMessage, current_view}
use comlink.Psync.Conversation.Receive.{request_message}

pub data SendError : Type 0 where
  increment_panic : SendError
  log_failed : LogError → SendError
  insert_failed : InsertError → SendError

-- The envelope that `handleSend` builds around its payload and the vector `vc`.
abbrev pub new_envelope : State → Bytes → Vector → Envelope
new_envelope st payload vc = record {
  id =
      some (record { conversation_id = some st.conv_id; sender = some st.self; vector_clock = vc });
  payload = payload;
}

-- `broadcastEnvelope`: one send to each peer but oneself. Go starts a goroutine for each, so the
-- frames may leave in any order.
unfoldable pub broadcast_envelope :
    ReplicaId → Envelope → List ReplicaId → List (ReplicaId × PsyncMessage)
broadcast_envelope self env [] = []
broadcast_envelope self env (p ∷ ps) =
    let rest = broadcast_envelope self env ps in
    ite (Bytes-discrete p self) rest ((p, PsyncMessage.envelope env) ∷ rest)

-- From `graph.Insert` on; the log has the envelope already.
unfoldable pub finish_send :
    State
    → Envelope
    → Log
    → Result InsertError (Graph × NodeRef)
    → State × Result SendError MessageId
finish_send st env l (err e) = (record st { log = l }, err (insert_failed e))
finish_send st env l (ok (g, ref)) = (
  record st {
    log = l;
    graph = g;
    delivered = st.delivered ++ env ∷ [];
    sent = st.sent ++ broadcast_envelope st.self env (active_replicas st.membership);
  },
  ok (id_of env),
)

unfoldable pub send_with : State → Bytes → Vector → State × Result SendError MessageId
unfolding finish_send
send_with st payload vc =
    let env = new_envelope st payload vc in
    elim (append st.log env (at vc st.self_slot)) [
      | err e ↦ (st, err (log_failed e))
      | ok (l, off) ↦ finish_send st env l (insert st.membership st.graph env)
    ]

-- `handleSend`; the state may change also where it fails.
unfoldable pub handle_send : State → Bytes → State × Result SendError MessageId
unfolding send_with
handle_send st payload = elim (increment (current_view st.graph st.membership) st.self_slot) [
  | none ↦ (st, err increment_panic)
  | some vc ↦ send_with st payload vc
]

-- `handleLostRequest`: the entry of the log, if there is one, to whoever asked.
unfoldable pub handle_lost_request : State → Option ReplicaId → ℕ → ReplicaId → State
handle_lost_request st missing q from = elim (lookup_by_sender st.log (value_of missing) q) [
  | err e ↦ st
  | ok entry ↦ record st { sent = st.sent ++ (from, PsyncMessage.envelope entry.envelope) ∷ [] }
]

-- The loop of `handleRequestMissing` over the peers.
unfoldable pub request_from_all : ReplicaId → ℕ → List ReplicaId → State → State
request_from_all s q [] st = st
request_from_all s q (p ∷ ps) st =
    request_from_all s q ps (ite (Bytes-discrete p st.self) st (request_message s q p st))

-- `handleRequestMissing`.
unfoldable pub handle_request_missing : State → ReplicaId → ℕ → State
unfolding request_from_all
handle_request_missing st s q =
    ite (Bytes-discrete s st.self) (request_from_all s q (active_replicas st.membership) st)
      (request_message s q s st)
