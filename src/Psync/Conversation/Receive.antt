-- ===== src/Psync/Conversation/Receive.antt =====
-- The receiving side of psync/conversation.go: `handleEnvelope`, `deferEnvelope` and
-- `processNewlyAvailable`.
pub mod Fuel
pub mod Requests
pub mod Keeps
pub mod Judge
use comlink.Common.{
  ℕ, zero, suc, ◌+◌, ◌-◌, ◌≡◌, refl, ◌⊎◌, inl, inr, ite, Option, none, some, List, [], ◌∷◌, ◌++◌,
  if◌then◌else◌, set,
}
use comlink.Common.Assoc.{Bytes-discrete, nat_key, bytes_key, get, put, delete}
use comlink.Common.Result.{Result, ok, err}
use comlink.Messages.{ReplicaId, Envelope, id_of, sender_of}
use comlink.Common.Assoc.{IndexKey, index_key}
use comlink.Psync.Membership.{slot_of, sender_seq}
use comlink.Psync.Graph.{NodeRef, MissingParent, Graph, InsertError, missing_parents, has, insert}
use comlink.Log.{Log, LogError, append}
use comlink.Psync.Conversation.{State, PsyncMessage, Set}

-- `sendLostMessageRequest`.
abbrev pub request_message : ReplicaId → ℕ → ReplicaId → State → State
request_message s q peer st = record st {
  sent = st.sent ++ (peer, PsyncMessage.lost_message_request (some s) q) ∷ [];
}

-- What `handleEnvelope` finds out before it changes anything.
pub data Verdict : Type 0 where
  drop_it : Verdict
  lacks : List MissingParent → Verdict
  stores : Graph → NodeRef → Verdict

pub Verdict-cases :
    (v : Verdict)
    → (v ≡ drop_it)
      ⊎ ((ms : List MissingParent) × (v ≡ lacks ms))
      ⊎ ((g : Graph) × (ref : NodeRef) × (v ≡ stores g ref))
Verdict-cases drop_it = inl refl
Verdict-cases (lacks ms) = inr (inl (ms, refl))
Verdict-cases (stores g ref) = inr (inr (g, ref, refl))

insert_verdict : Result InsertError (Graph × NodeRef) → Verdict
insert_verdict (ok (g, ref)) = stores g ref
insert_verdict (err (missing_parents ms)) = lacks ms
insert_verdict (err e) = drop_it

-- The checks on the sender, from the first to `graph.Insert`.
judge_sender : State → Envelope → Option ReplicaId → Verdict
unfolding insert_verdict
judge_sender st env none = drop_it
judge_sender st env (some s) = elim (slot_of st.membership s) [
  | none ↦ drop_it
  | some slot ↦ elim (get s st.masked) [
    | some _ ↦ drop_it
    | none ↦ elim (sender_seq st.membership (id_of env)) [
      | err e ↦ drop_it
      | ok q ↦
          if has st.graph s q then drop_it else insert_verdict (insert st.membership st.graph env)
    ]
  ]
]

unfoldable pub judge : State → Envelope → Verdict
unfolding judge_sender
judge st env = elim (id_of env).conversation_id [
  | none ↦ drop_it
  | some c ↦ ite (Bytes-discrete c st.conv_id) (judge_sender st env (id_of env).sender) drop_it
]

-- A failed append is logged and goes on.
abbrev pub log_after : Log → Result LogError (Log × ℕ) → Log
log_after l (ok (l', off)) = l'
log_after l (err e) = l

-- The state once the graph has taken the envelope: it is appended to the log and delivered.
unfoldable pub accept : State → Envelope → Graph → NodeRef → State
accept st env g (s, q) = record st {
  graph = g;
  log = log_after st.log (append st.log env q);
  delivered = st.delivered ++ env ∷ [];
}

-- The set that waits for `key`.
abbrev pub waiting_for : Option (Set IndexKey) → Set IndexKey
waiting_for none = []
waiting_for (some ks) = ks

-- One round of the loop of `deferEnvelope`: the envelope `k` waits for the message `p`.
await : IndexKey → ReplicaId → MissingParent → State → State
await k from p st =
    let key : IndexKey = (p.sender, p.seq) in
    let need = put key (put k tt (waiting_for (get key st.deferred_by_need))) st.deferred_by_need in
    elim (get key st.outstanding) [
      | some _ ↦ record st { deferred_by_need = need }
      | none ↦
          request_message p.sender p.seq from
            (record st { deferred_by_need = need; outstanding = put key tt st.outstanding })
    ]

await_all : IndexKey → ReplicaId → List MissingParent → State → State
unfolding await
await_all k from [] st = st
await_all k from (p ∷ ps) st = await_all k from ps (await k from p st)

waiting_set : List MissingParent → Set IndexKey → Set IndexKey
waiting_set [] set = set
waiting_set (p ∷ ps) set = waiting_set ps (put (p.sender, p.seq) tt set)

unfoldable pub defer_envelope : State → Envelope → List MissingParent → ReplicaId → State
unfolding await_all waiting_set
defer_envelope st env missing from = elim (sender_seq st.membership (id_of env)) [
  | err e ↦ st
  | ok q ↦
      let key : IndexKey = (sender_of env, q) in
      elim (get key st.deferred) [
        | some _ ↦ st
        | none ↦
            let st' = await_all key from missing st in
            record st' {
              deferred =
                  put key (record { env = env; from = from; waiting = waiting_set missing [] })
                    st'.deferred;
            }
      ]
]

-- What the loop of `processNewlyAvailable` does with the deferred envelope `k`, `parent` having come.
-- `handle` is `handleEnvelope`.
retry : (State → Envelope → ReplicaId → Option State) → IndexKey → IndexKey → State → Option State
retry handle parent k st = elim (get k st.deferred) [
  | none ↦ some st
  | some pe ↦ elim (delete parent pe.waiting) [
    | [] ↦ handle (record st { deferred = delete k st.deferred }) pe.env pe.from
    | w ∷ ws ↦ some (record st { deferred = put k (record pe { waiting = w ∷ ws }) st.deferred })
  ]
]

retry_all :
    (State → Envelope → ReplicaId → Option State) → IndexKey → Set IndexKey → State → Option State
unfolding retry
retry_all handle parent [] st = some st
retry_all handle parent ((k, _) ∷ ks) st = elim (retry handle parent k st) [
  | none ↦ none
  | some st' ↦ retry_all handle parent ks st'
]

process_newly_available :
    (State → Envelope → ReplicaId → Option State) → IndexKey → State → Option State
unfolding retry_all
process_newly_available handle key st = elim (get key st.deferred_by_need) [
  | none ↦ some (record st { outstanding = delete key st.outstanding })
  | some ks ↦ retry_all handle key ks (record st {
    outstanding = delete key st.outstanding;
    deferred_by_need = delete key st.deferred_by_need;
  })
]

-- Fuel bounds the depth of the calls that `handleEnvelope` and `processNewlyAvailable` make of one
-- another; `none` is out of fuel.
unfoldable pub handle_envelope : ℕ → State → Envelope → ReplicaId → Option State
unfolding judge accept defer_envelope process_newly_available
handle_envelope zero st env from = none
handle_envelope (suc fuel) st env from = elim (judge st env) [
  | drop_it ↦ some st
  | lacks ms ↦ some (defer_envelope st env ms from)
  | stores g ref ↦ process_newly_available (handle_envelope fuel) ref (accept st env g ref)
]
