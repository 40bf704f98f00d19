-- ===== src/Psync/Conversation/Receive/Keeps.antt =====
-- What `handleEnvelope` of psync/conversation.go keeps: it changes a conversation by accepting an
-- envelope, by deferring one, and by its own bookkeeping.
use comlink.Common.{
  ℕ, zero, suc, ◌≡◌, refl, inl, inr, Option, some, List, [], ◌∷◌, arith, Option-cases,
}
use comlink.Common.Assoc.{nat_key, bytes_key, Assoc, get, put, delete}
use comlink.Common.Result.{Result-cases}
use comlink.Messages.{ReplicaId, Envelope, id_of, sender_of}
use comlink.Common.Assoc.{IndexKey, index_key}
use comlink.Psync.Conversation.{State, Pending, PsyncMessage, Set}
use comlink.Psync.Conversation.Receive.{
  Verdict-cases, stores, judge, accept, await, await_all, defer_envelope, retry, retry_all,
  process_newly_available, handle_envelope,
}
use comlink.Psync.Membership.{sender_seq}
use comlink.Psync.Graph.{NodeRef, MissingParent, Graph}

-- `P` speaks of what deferring and its bookkeeping leave alone, and accepting keeps it.
pub record Keeps {ℓ} (P : State → Type ℓ) : Type ℓ where
  pub on_accept :
      (st : State) (env : Envelope) (g : Graph) (ref : NodeRef)
      → P st
      → judge st env ≡ stores g ref
      → P (accept st env g ref)
  pub on_bookkeeping :
      (st : State) (deferred : Assoc IndexKey Pending) (need : Assoc IndexKey (Set IndexKey))
      (outstanding : Set IndexKey) (sent : List (ReplicaId × PsyncMessage))
      → P st
      → P (record st {
        deferred = deferred;
        deferred_by_need = need;
        outstanding = outstanding;
        sent = sent;
      })

module _ {ℓ} (P : State → Type ℓ) (keeps : Keeps P) where
  await_all-keeps :
      (k : IndexKey) (from : ReplicaId) (ms : List MissingParent) (st : State)
      → P st
      → P (await_all k from ms st)
  unfolding await_all await
  await_all-keeps k from [] st h = h
  await_all-keeps k from (p ∷ ms) st h =
      await_all-keeps k from ms (await k from p st)
        (elim (Option-cases (get (p.sender, p.seq) st.outstanding)) [
          | inl e ↦ rw (e, await) (keeps.on_bookkeeping st _ _ _ _ h)
          | inr (_, e) ↦ rw (e, await) (keeps.on_bookkeeping st _ _ _ _ h)
        ])

  defer_envelope-keeps :
      (st : State) (env : Envelope) (ms : List MissingParent) (from : ReplicaId)
      → P st
      → P (defer_envelope st env ms from)
  unfolding defer_envelope
  defer_envelope-keeps st env ms from h =
      elim (Result-cases (sender_seq st.membership (id_of env))) [
        | inr (e, f) ↦ rw (f, defer_envelope) h
        | inl (q, f) ↦ elim (Option-cases (get (sender_of env, q) st.deferred)) [
          | inr (_, e) ↦ rw (f, e, defer_envelope) h
          | inl e ↦
              rw (f, e, defer_envelope)
                (keeps.on_bookkeeping (await_all (sender_of env, q) from ms st) _ _ _ _
                  (await_all-keeps (sender_of env, q) from ms st h))
        ]
      ]

  module _ (handle : State → Envelope → ReplicaId → Option State)
      (handle-keeps : (st st' : State) (env : Envelope) (from : ReplicaId)
        → P st
        → handle st env from ≡ some st'
        → P st') where
    retry-keeps :
        (parent k : IndexKey) (st st' : State) → P st → retry handle parent k st ≡ some st' → P st'
    unfolding retry
    retry-keeps parent k st st' h r = elim (Option-cases (get k st.deferred)) [
      | inl e ↦ let same : st ≡ st' = ground arith in rw (← same) h
      | inr (pe, e) ↦ remaining pe e (delete parent pe.waiting) refl
    ]
      where
        remaining :
            (pe : Pending)
            → get k st.deferred ≡ some pe
            → (ws : Set IndexKey) → delete parent pe.waiting ≡ ws
            → P st'
        remaining pe e [] d =
            handle-keeps (record st { deferred = delete k st.deferred }) st' pe.env pe.from
              (keeps.on_bookkeeping st _ _ _ _ h) (ground arith)
        remaining pe e (w ∷ ws) d =
            let kept : State = record st {
              deferred = put k (record pe { waiting = w ∷ ws }) st.deferred;
            } in
            let same : kept ≡ st' = ground arith in rw (← same) (keeps.on_bookkeeping st _ _ _ _ h)

    retry_all-keeps :
        (parent : IndexKey) (ks : Set IndexKey) (st st' : State)
        → P st
        → retry_all handle parent ks st ≡ some st'
        → P st'
    unfolding retry_all
    retry_all-keeps parent [] st st' h r = let same : st ≡ st' = cc in rw (← same) h
    retry_all-keeps parent ((k, _) ∷ ks) st st' h r =
        elim (Option-cases (retry handle parent k st)) [
          | inl e ↦ ground arith
          | inr (mid, e) ↦
              retry_all-keeps parent ks mid st' (retry-keeps parent k st mid h e) (ground arith)
        ]

    process-keeps :
        (key : IndexKey) (st st' : State)
        → P st
        → process_newly_available handle key st ≡ some st'
        → P st'
    unfolding process_newly_available
    process-keeps key st st' h r = elim (Option-cases (get key st.deferred_by_need)) [
      | inl e ↦
          let cleared : State = record st { outstanding = delete key st.outstanding } in
          let same : cleared ≡ st' = ground arith in rw (← same) (keeps.on_bookkeeping st _ _ _ _ h)
      | inr (ks, e) ↦
          retry_all-keeps key ks
            (record st {
              outstanding = delete key st.outstanding;
              deferred_by_need = delete key st.deferred_by_need;
            })
            st' (keeps.on_bookkeeping st _ _ _ _ h) (ground arith)
    ]

  -- Whatever `handleEnvelope` does, along all its nested calls, keeps such a `P`.
  pub handle_envelope-keeps :
      (fuel : ℕ) (st st' : State) (env : Envelope) (from : ReplicaId)
      → P st
      → handle_envelope fuel st env from ≡ some st'
      → P st'
  unfolding handle_envelope
  handle_envelope-keeps zero st st' env from h r = cc
  handle_envelope-keeps (suc fuel) st st' env from h r = elim (Verdict-cases (judge st env)) [
    | inl e ↦ let same : st ≡ st' = ground arith in rw (← same) h
    | inr (inl (ms, e)) ↦
        let same : defer_envelope st env ms from ≡ st' = ground arith in
        rw (← same) (defer_envelope-keeps st env ms from h)
    | inr (inr (g, ref, e)) ↦
        process-keeps (handle_envelope fuel) (handle_envelope-keeps fuel) ref (accept st env g ref)
          st' (keeps.on_accept st env g ref h e) (ground arith)
  ]
