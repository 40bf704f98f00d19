-- ===== src/Psync/Conversation/Receive/Fuel.antt =====
-- The recursion of psync/conversation.go between `handleEnvelope` and `processNewlyAvailable` ends:
-- each nested call has one deferred envelope less.
use comlink.Common.{
  ℕ, zero, suc, ◌+◌, ◌≤◌, ◌<◌, ◌≡◌, refl, ◌∙◌, inl, inr, Option, some, List, [], ◌∷◌, arith,
  Option-cases, length,
}
use comlink.Common.Assoc.{
  nat_key, bytes_key, get, put, delete, length-put-le, length-put_again, length-delete-lt,
}
use comlink.Common.Result.{Result-cases}
use comlink.Messages.{ReplicaId, Envelope, id_of, sender_of}
use comlink.Common.Assoc.{IndexKey, index_key}
use comlink.Psync.Conversation.{State, Pending, Set}
use comlink.Psync.Conversation.Receive.{
  Verdict-cases, judge, accept, await, await_all, waiting_set, defer_envelope, retry, retry_all,
  process_newly_available, handle_envelope,
}
use comlink.Psync.Membership.{sender_seq}
use comlink.Psync.Graph.{NodeRef, MissingParent, Graph}

abbrev pub deferrals : State → ℕ
deferrals st = length st.deferred

-- The call answers, and defers at most one envelope more.
abbrev pub Answers : Option State → State → Type 0
Answers r st = (st' : State) × (r ≡ some st') × (deferrals st' ≤ deferrals st + 1)

await_all-deferred :
    (k : IndexKey) (from : ReplicaId) (ms : List MissingParent) (st : State)
    → (await_all k from ms st).deferred ≡ st.deferred
unfolding await_all await
await_all-deferred k from [] st = refl
await_all-deferred k from (p ∷ ms) st =
    await_all-deferred k from ms (await k from p st) ∙ ground arith

defer_envelope-le :
    (st : State) (env : Envelope) (ms : List MissingParent) (from : ReplicaId)
    → deferrals (defer_envelope st env ms from) ≤ deferrals st + 1
unfolding defer_envelope
defer_envelope-le st env ms from = elim (Result-cases (sender_seq st.membership (id_of env))) [
  | inr (e, h) ↦ ground arith
  | inl (q, h) ↦
      let key : IndexKey = (sender_of env, q) in
      let pe : Pending = record { env = env; from = from; waiting = waiting_set ms [] } in
      ground (
        arith,
        await_all-deferred key from ms st,
        length-put-le key pe (await_all key from ms st).deferred,
      )
]

module _ (handle : State → Envelope → ReplicaId → Option State) (fuel : ℕ)
    (answers : (st : State) (env : Envelope) (from : ReplicaId)
      → deferrals st < fuel
      → Answers (handle st env from) st) where
  retry-le :
      (parent k : IndexKey) (st : State) (n : ℕ)
      → deferrals st ≤ n
      → n ≤ fuel
      → (st' : State) × (retry handle parent k st ≡ some st') × (deferrals st' ≤ n)
  unfolding retry
  retry-le parent k st n h f = elim (Option-cases (get k st.deferred)) [
    | inl e ↦ (st, ground arith, h)
    | inr (pe, e) ↦ remaining pe e (delete parent pe.waiting) refl
  ]
    where
      remaining :
          (pe : Pending)
          → get k st.deferred ≡ some pe
          → (ws : Set IndexKey) → delete parent pe.waiting ≡ ws
          → (st' : State) × (retry handle parent k st ≡ some st') × (deferrals st' ≤ n)
      remaining pe e [] d =
          let fewer = length-delete-lt k pe st.deferred e in
          let (st', a, le) =
            answers (record st { deferred = delete k st.deferred }) pe.env pe.from
              (omega (arith, fewer)) in
          (st', ground arith, omega (arith, fewer, le))
      remaining pe e (w ∷ ws) d = (
        record st { deferred = put k (record pe { waiting = w ∷ ws }) st.deferred },
        ground arith,
        omega (arith, length-put_again k (record pe { waiting = w ∷ ws }) pe st.deferred e),
      )

  retry_all-le :
      (parent : IndexKey) (ks : Set IndexKey) (st : State) (n : ℕ)
      → deferrals st ≤ n
      → n ≤ fuel
      → (st' : State) × (retry_all handle parent ks st ≡ some st') × (deferrals st' ≤ n)
  unfolding retry_all
  retry_all-le parent [] st n h f = (st, refl, h)
  retry_all-le parent ((k, _) ∷ ks) st n h f =
      let (st', e, h') = retry-le parent k st n h f in
      let (st'', e', h'') = retry_all-le parent ks st' n h' f in (st'', ground arith, h'')

  process-le :
      (key : IndexKey) (st : State) (n : ℕ)
      → deferrals st ≤ n
      → n ≤ fuel
      → (st' : State) × (process_newly_available handle key st ≡ some st') × (deferrals st' ≤ n)
  unfolding process_newly_available
  process-le key st n h f = elim (Option-cases (get key st.deferred_by_need)) [
    | inl e ↦ (record st { outstanding = delete key st.outstanding }, ground arith, h)
    | inr (ks, e) ↦
        let (st', e', h') =
          retry_all-le key ks
            (record st {
              outstanding = delete key st.outstanding;
              deferred_by_need = delete key st.deferred_by_need;
            })
            n h f in
        (st', ground arith, h')
  ]

-- With more fuel than there are deferred envelopes `handleEnvelope` returns, and it leaves at most one
-- envelope more deferred than before.
pub handle_envelope-Answers :
    (fuel : ℕ) (st : State) (env : Envelope) (from : ReplicaId)
    → deferrals st < fuel
    → Answers (handle_envelope fuel st env from) st
unfolding handle_envelope
handle_envelope-Answers zero st env from h = elim h [ ]
handle_envelope-Answers (suc fuel) st env from h = elim (Verdict-cases (judge st env)) [
  | inl e ↦ (st, ground arith, omega arith)
  | inr (inl (ms, e)) ↦
      (defer_envelope st env ms from, ground arith, defer_envelope-le st env ms from)
  | inr (inr (g, ref, e)) ↦
      let (st', a, le) =
        process-le (handle_envelope fuel) fuel (handle_envelope-Answers fuel) ref
          (accept st env g ref) (deferrals st) (same g ref) (omega arith) in
      (st', ground arith, omega (arith, le))
]
  where
    same : (g : Graph) (ref : NodeRef) → deferrals (accept st env g ref) ≤ deferrals st
    same g ref = omega arith
