-- ===== src/Psync/Conversation/Server/Replayed.antt =====
-- `handleReplay` of psync/conversation.go rebuilds a causal prefix.
use comlink.Common.{
  ◌≡◌, refl, sym, ap, ◌∙◌, subst, ◌⊎◌, inl, inr, true, List, [], ◌∷◌, ◌++◌, arith, length,
  length-append, append_assoc, append-nil, Option-cases, Bool-cases,
}
use comlink.Common.Result.{Result, ok, err, Result-cases}
use comlink.Messages.{Envelope, id_of}
use comlink.Log.{Entry, LogError, range, next_offset}
use comlink.Psync.Membership.{Membership, sender_seq}
use comlink.Psync.Graph.{NodeRef, Graph, InsertError, has, insert}
use comlink.Psync.Graph.Insert.{insert-Accepts}
use comlink.Psync.Conversation.{State}
use comlink.Psync.Conversation.Causal.{IsCausal, link-IsCausal, DeliversCausally}
use comlink.Psync.Conversation.Server.{
  Replay, inserted_into, replay_entry, replay_all, handle_replay,
}

-- Delivering what `Insert` stores keeps deliveries causal.
pub insert-IsCausal :
    (m : Membership) (g g' : Graph) (ds : List Envelope) (env : Envelope) (ref : NodeRef)
    → IsCausal m g ds
    → insert m g env ≡ ok (g', ref)
    → IsCausal m g' (ds ++ env ∷ [])
insert-IsCausal m g g' ds env ref c e =
    let (s, slot, seq, ps, a, _, q) = insert-Accepts m g g' env ref e in
    rw q (link-IsCausal m g ds env s slot seq ps c a)

-- The replay so far continues the deliveries `ds`, and has counted what it is to deliver.
record Continues (m : Membership) (ds : List Envelope) (acc : Replay) : Type 0 where
  causal : IsCausal m acc.graph (ds ++ acc.envelopes)
  counted : acc.inserted ≡ length acc.envelopes

inserted_into-Continues :
    (m : Membership) (ds : List Envelope) (env : Envelope) (acc : Replay)
    → Continues m ds acc
    → (r : Result InsertError (Graph × NodeRef)) → insert m acc.graph env ≡ r
    → Continues m ds (inserted_into true env acc r)
unfolding inserted_into
inserted_into-Continues m ds env acc c (err e) h = c
inserted_into-Continues m ds env acc c (ok (g, ref)) h = record {
  causal =
      subst (λ es. IsCausal m g es) (append_assoc ds acc.envelopes (env ∷ []))
        (insert-IsCausal m acc.graph g (ds ++ acc.envelopes) env ref c.causal h);
  counted = omega (arith, c.counted, length-append acc.envelopes (env ∷ []));
}

replay_entry-Continues :
    (m : Membership) (ds : List Envelope) (env : Envelope) (acc : Replay)
    → Continues m ds acc
    → Continues m ds (replay_entry m true env acc)
unfolding replay_entry
replay_entry-Continues m ds env acc c = elim (Option-cases (id_of env).sender) [
  | inl e ↦ rw (e, replay_entry) c
  | inr (s, e) ↦ elim (Result-cases (sender_seq m (id_of env))) [
    | inr (x, f) ↦ rw (e, f, replay_entry) c
    | inl (q, f) ↦ elim (Bool-cases (has acc.graph s q)) [
      | inl h ↦ rw (e, f, h, replay_entry) c
      | inr h ↦ rw (e, f, h, replay_entry) (inserted_into-Continues m ds env acc c _ refl)
    ]
  ]
]

replay_all-Continues :
    (m : Membership) (ds : List Envelope) (es : List Entry) (acc : Replay)
    → Continues m ds acc
    → Continues m ds (replay_all m true es acc)
unfolding replay_all
replay_all-Continues m ds [] acc c = c
replay_all-Continues m ds (e ∷ es) acc c =
    replay_all-Continues m ds es (replay_entry m true e.envelope acc)
      (replay_entry-Continues m ds e.envelope acc c)

abbrev from : State → Replay
from st = record { graph = st.graph; inserted = 0; envelopes = [] }

failed :
    (st : State) (e : LogError)
    → range st.log st.log.first_offset (next_offset st.log) ≡ err e
    → handle_replay st true ≡ (st, err e)
unfolding handle_replay
failed st e f = rw (f, handle_replay) refl

replayed :
    (st : State) (es : List Entry)
    → range st.log st.log.first_offset (next_offset st.log) ≡ ok es
    → handle_replay st true ≡ (
      record st { graph = (replay_all st.membership true es (from st)).graph },
      ok (
        (replay_all st.membership true es (from st)).inserted,
        (replay_all st.membership true es (from st)).envelopes,
      ),
    )
unfolding handle_replay
replayed st es f = rw (f, handle_replay) refl

-- A replay for the application continues causal deliveries. Whatever the log holds, the envelopes that
-- it answers can be delivered, in their order, behind those that were delivered before: the result is
-- causal over the graph that it leaves. The count is their number, nothing but the graph changes, and
-- the only error is that of reading the log.
pub handle_replay-IsCausal :
    (st : State)
    → DeliversCausally st
    → ((e : LogError) × (handle_replay st true ≡ (st, err e)))
      ⊎ ((g : Graph) × (envs : List Envelope) × (handle_replay st true
            ≡ (record st { graph = g }, ok (length envs, envs)))
          × IsCausal st.membership g (st.delivered ++ envs))
handle_replay-IsCausal st c =
    elim (Result-cases (range st.log st.log.first_offset (next_offset st.log))) [
      | inr (e, f) ↦ inl (e, failed st e f)
      | inl (es, f) ↦
          let start : Continues st.membership st.delivered (from st) = record {
            causal =
                subst (λ ds. IsCausal st.membership st.graph ds) (sym (append-nil st.delivered)) c;
            counted = refl;
          } in
          let out = replay_all st.membership true es (from st) in
          let done = replay_all-Continues st.membership st.delivered es (from st) start in
          inr (
            out.graph,
            out.envelopes,
            replayed st es f
                ∙ ap (λ n. (record st { graph = out.graph }, ok (n, out.envelopes))) done.counted,
            done.causal,
          )
    ]
