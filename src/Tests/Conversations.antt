-- ===== src/Tests/Conversations.antt =====
-- The theorems on psync/conversation.go for alice, who hears bob.
use comlink.Common.{
  ℕ, ◌≡◌, refl, ◌⊎◌, true, false, none, some, List, [], ◌∷◌, ◌++◌, arith, ℕ_discrete, length,
}
use comlink.Common.Assoc.{Bytes, Bytes-discrete}
use comlink.Common.Result.{ok, err}
use comlink.Messages.{ReplicaId, MessageId, Envelope, id_of, vector_of}
use comlink.Log.{Log, LogError, new_log, next_offset, lookup_by_sender}
use comlink.Log.Append.{IsSound, new_log-IsSound}
use comlink.Psync.Vector.{at, dominates}
use comlink.Psync.Membership.{len, replica, slot_of}
use comlink.Psync.Graph.{Graph, Node, NodeRef, latest_seq, lookup, new_graph}
use comlink.Psync.Graph.Lookup.{fixed}
use comlink.Psync.Conversation.{State, envelope, new_state, current_view}
use comlink.Psync.Conversation.View.{current_view-counts}
use comlink.Psync.Conversation.Receive.{handle_envelope}
use comlink.Psync.Conversation.Receive.Fuel.{Answers, handle_envelope-Answers}
use comlink.Psync.Conversation.Causal.{IsCausal, DeliversCausally, handle_envelope-causal}
use comlink.Psync.Conversation.Send.{handle_send}
use comlink.Psync.Conversation.Send.Accepted.{
  CanSend, handle_send_lem, send-follows, after_send, seq, env,
}
use comlink.Common.{◌≢◌, ◌↔◌, ◌++◌, false, ℕ_discrete, All}
use comlink.Common.Assoc.{IndexKey-discrete, get}
use comlink.Psync.Membership.{is_frozen, active_replicas}
use comlink.Psync.Conversation.Receive.{defer_envelope}
use comlink.Psync.Conversation.Receive.Requests.{IsOutstanding, defer_envelope-sent}
use comlink.Psync.Conversation.Send.{broadcast_envelope, handle_lost_request}
use comlink.Psync.Conversation.Send.Retransmit.{
  IsSentTo, broadcast_envelope_iff, handle_send-handle_lost_request,
}
use comlink.Tests.Samples.{message}
use comlink.Psync.Conversation.Server.{send_request, handle_replay}
use comlink.Psync.Conversation.Server.Replayed.{insert-IsCausal, handle_replay-IsCausal}
use comlink.Psync.Conversation.Server.Runs.{Event, call, cast, new_state-causal}
use comlink.Tests.Samples.{
  alice, bob, conv, members, members-Distinct, view, view-IsWellFormed, bob_first, bob_second,
}
use comlink.Tests.Graphs.{bob_node, one, inserted, one-IsClosed}

abbrev empty_log : Log
empty_log = record { conv_id = conv; entries = []; first_offset = 0; index = []; closed = false }

empty_log-IsSound : IsSound empty_log
unfolding new_log
empty_log-IsSound = new_log-IsSound conv

abbrev started : State
started = record {
  conv_id = conv;
  self = alice;
  self_slot = 0;
  membership = view;
  log = empty_log;
  masked = [];
  graph = new_graph;
  deferred = [];
  deferred_by_need = [];
  outstanding = [];
  delivered = [];
  sent = [];
}

started_new : new_state conv alice members empty_log [] ≡ ok started
unfolding new_state Bytes-discrete ℕ_discrete
started_new = refl

started-causal : DeliversCausally started
started-causal =
    new_state-causal conv alice members empty_log [] started members-Distinct started_new

-- Alice has received bob's first message.
abbrev heard : State
heard = record started { graph = one; delivered = bob_first ∷ [] }

heard-causal : DeliversCausally heard
heard-causal = insert-IsCausal view new_graph one [] bob_first (bob, 1) started-causal inserted

heard-CanSend : CanSend heard
unfolding slot_of latest_seq Bytes-discrete ℕ_discrete
heard-CanSend = record {
  causal = heard-causal;
  own_slot = refl;
  sound = empty_log-IsSound;
  open_log = refl;
  log_room = omega arith;
  seq_room = omega arith;
}

-- Bob's second message comes first, and alice sends in between.
abbrev events : List Event
events =
    cast bob (some (envelope bob_second))
    ∷ call (send_request (5 ∷ []))
    ∷ cast bob (some (envelope bob_first))
    ∷ cast bob none
    ∷ []

handle_envelope-causal_example :
    (st' : State) × (handle_envelope 1 heard bob_second bob ≡ some st') × DeliversCausally st'
handle_envelope-causal_example =
    handle_envelope-causal 1 heard bob_second bob (omega arith) heard-causal

handle_envelope-Answers_example : Answers (handle_envelope 1 heard bob_second bob) heard
handle_envelope-Answers_example = handle_envelope-Answers 1 heard bob_second bob (omega arith)

current_view-counts_example :
    (length (current_view one view) ≡ len view)
    × ((j : ℕ) (r : ReplicaId)
        → replica view j ≡ some r
        → at (current_view one view) j ≡ latest_seq one r)
current_view-counts_example = current_view-counts view one view-IsWellFormed one-IsClosed

handle_send_lem_example :
    (ps : List NodeRef) × (l : Log) × (handle_send heard (5 ∷ []) ≡ (
      after_send heard (5 ∷ []) heard-CanSend ps l,
      ok (id_of (env heard (5 ∷ []) heard-CanSend)),
    ))
    × DeliversCausally (after_send heard (5 ∷ []) heard-CanSend ps l)
    × IsSound l
    × (lookup_by_sender l alice (seq heard (5 ∷ []) heard-CanSend)
        ≡ ok (record {
          offset = next_offset empty_log;
          envelope = env heard (5 ∷ []) heard-CanSend;
        }))
handle_send_lem_example = handle_send_lem heard (5 ∷ []) heard-CanSend

bob-fixed : fixed one bob 1 ≡ some bob_node
unfolding fixed lookup Bytes-discrete ℕ_discrete
bob-fixed = refl

send-follows_example :
    (st' : State) × (id : MessageId) × (handle_send heard (5 ∷ []) ≡ (st', ok id))
    × ((s : Bytes) (q : ℕ) (n : Node)
        → fixed heard.graph s q ≡ some n
        → dominates id.vector_clock (vector_of n.envelope) ≡ true)
send-follows_example = send-follows heard (5 ∷ []) heard-CanSend

handle_replay-IsCausal_example :
    ((e : LogError) × (handle_replay heard true ≡ (heard, err e)))
    ⊎ ((g : Graph) × (envs : List Envelope) × (handle_replay heard true
          ≡ (record heard { graph = g }, ok (length envs, envs)))
        × IsCausal view g (heard.delivered ++ envs))
handle_replay-IsCausal_example = handle_replay-IsCausal heard heard-causal

-- Alice has asked for bob's second message.
abbrev asked : State
asked = record heard { outstanding = ((bob, 2), tt) ∷ [] }

asked_before : All (IsOutstanding asked.outstanding) (record { sender = bob; seq = 2 } ∷ [])
unfolding Bytes-discrete IndexKey-discrete ℕ_discrete get
asked_before = (refl, tt)

defer_envelope-sent_example :
    (defer_envelope asked
      (message bob (0 ∷ 3 ∷ []))
      (record { sender = bob; seq = 2 } ∷ [])
      bob).sent
    ≡ asked.sent
defer_envelope-sent_example =
    defer_envelope-sent asked (message bob (0 ∷ 3 ∷ [])) (record { sender = bob; seq = 2 } ∷ []) bob
      asked_before

broadcast_envelope_iff_example :
    IsSentTo bob (envelope bob_first) (broadcast_envelope alice bob_first (active_replicas view))
    ↔ (((i : ℕ) × (replica view i ≡ some bob) × (is_frozen view i ≡ some false))
        × (bob ≢ alice)
        × (envelope bob_first ≡ envelope bob_first))
broadcast_envelope_iff_example = broadcast_envelope_iff heard bob_first bob (envelope bob_first)

handle_send-handle_lost_request_example :
    (st' : State) × (handle_send heard (5 ∷ [])
      ≡ (st', ok (id_of (env heard (5 ∷ []) heard-CanSend))))
    × (handle_lost_request st' (some alice) (seq heard (5 ∷ []) heard-CanSend) bob
        ≡ record st' { sent = st'.sent ++ (bob, envelope (env heard (5 ∷ []) heard-CanSend)) ∷ [] })
handle_send-handle_lost_request_example =
    handle_send-handle_lost_request heard (5 ∷ []) heard-CanSend bob
