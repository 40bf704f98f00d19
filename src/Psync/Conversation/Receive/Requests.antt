-- ===== src/Psync/Conversation/Receive/Requests.antt =====
-- Which lost-message requests `deferEnvelope` of psync/conversation.go sends.
use comlink.Common.{◌≡◌, refl, sym, ◌∙◌, subst, inl, inr, some, List, [], ◌∷◌, All, Option-cases}
use comlink.Common.Assoc.{IndexKey, index_key, get}
use comlink.Common.Result.{Result-cases}
use comlink.Messages.{ReplicaId, Envelope, id_of, sender_of}
use comlink.Psync.Membership.{sender_seq}
use comlink.Psync.Graph.{MissingParent}
use comlink.Psync.Conversation.{State, Set}
use comlink.Psync.Conversation.Receive.{await, await_all, defer_envelope}

-- A request for `p` is under way.
abbrev pub IsOutstanding : Set IndexKey → MissingParent → Type 0
IsOutstanding requests p = get (p.sender, p.seq) requests ≡ some tt

await-same :
    (k : IndexKey) (from : ReplicaId) (p : MissingParent) (st : State)
    → IsOutstanding st.outstanding p
    → ((await k from p st).sent ≡ st.sent) × ((await k from p st).outstanding ≡ st.outstanding)
unfolding await
await-same k from p st h = rw (h, await) (refl, refl)

await_all-same :
    (k : IndexKey) (from : ReplicaId) (ps : List MissingParent) (st : State)
    → All (IsOutstanding st.outstanding) ps
    → (await_all k from ps st).sent ≡ st.sent
unfolding await_all
await_all-same k from [] st h = refl
await_all-same k from (p ∷ ps) st h =
    let (s, o) = await-same k from p st h.0 in
    await_all-same k from ps (await k from p st)
      (subst (λ requests. All (IsOutstanding requests) ps) (sym o) h.1)
    ∙ s

-- Requests are not repeated. Where every message that an envelope lacks has been asked for before, and
-- has not come since, deferring the envelope sends nothing, whoever it came from.
pub defer_envelope-sent :
    (st : State) (env : Envelope) (missing : List MissingParent) (from : ReplicaId)
    → All (IsOutstanding st.outstanding) missing
    → (defer_envelope st env missing from).sent ≡ st.sent
unfolding defer_envelope
defer_envelope-sent st env missing from h =
    elim (Result-cases (sender_seq st.membership (id_of env))) [
      | inr (e, f) ↦ rw (f, defer_envelope) refl
      | inl (q, f) ↦ elim (Option-cases (get (sender_of env, q) st.deferred)) [
        | inr (pe, g) ↦ rw (f, g, defer_envelope) refl
        | inl g ↦ rw (f, g, defer_envelope) (await_all-same (sender_of env, q) from missing st h)
      ]
    ]
