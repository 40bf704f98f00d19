-- ===== src/Psync/Conversation/Server/Extended.antt =====
-- Causal deliveries of psync/conversation.go survive a change of the membership view, and hold of a
-- conversation that starts.
use comlink.Common.{
  ℕ, ◌≤◌, ◌<◌, ◌≡◌, sym, ap, ◌∙◌, inl, inr, some, List, arith, get_elem?, get_elem?-lt, dec_lt,
}
use mathlib.Core.Path.{subst₂}
use comlink.Common.Assoc.{Bytes}
use comlink.Messages.{Envelope, vector_of}
use comlink.Psync.Membership.{Membership, len, slot_of, replica}
use comlink.Psync.Membership.Slots.{IsWellFormed}
use comlink.Psync.Vector.Compare.{at_beyond}
use comlink.Psync.Graph.{Graph}
use comlink.Psync.Graph.Insert.{Required, Required-cases}
use comlink.Psync.Graph.Invariant.{IsClosed-extend}
use comlink.Psync.Conversation.Causal.{IsMessage, IsMessage-same, DeliveredAt, IsCausal}

-- The view `m'` has the slots of `m`, and perhaps more.
pub record IsExtension (m m' : Membership) : Type 0 where
  pub well_formed : IsWellFormed m'
  pub kept : (i : ℕ) → i < len m → replica m' i ≡ replica m i
  pub more : len m ≤ len m'

module _ (m m' : Membership) (g : Graph) (ds : List Envelope) (c : IsCausal m g ds)
    (x : IsExtension m m') where
  slots : (s : Bytes) (i : ℕ) → slot_of m s ≡ some i → slot_of m' s ≡ some i
  slots s i e =
      let f = c.view.found s i e in
      x.well_formed.indexed s i (x.kept i (get_elem?-lt m.replicas i f) ∙ f)

  still : (s : Bytes) (q : ℕ) (env : Envelope) → IsMessage m s q env → IsMessage m' s q env
  still s q env i = record {
    sent = i.sent;
    slot = i.slot;
    slotted = slots s i.slot i.slotted;
    numbered = i.numbered;
  }

  -- A delivery that the new view reads as a message was the same message before.
  was :
      (j : ℕ) (s : Bytes) (q : ℕ) (env : Envelope)
      → get_elem? ds j ≡ some env
      → IsMessage m' s q env
      → IsMessage m s q env
  was j s q env e i =
      let (s', q', old, _) = c.known j env e in
      let (p, r) = IsMessage-same m' s' s q' q env (still s' q' env old) i in
      subst₂ (λ y z. IsMessage m y z env) p r old

  was_delivered : (j : ℕ) (s : Bytes) (q : ℕ) → DeliveredAt m' ds j s q → DeliveredAt m ds j s q
  was_delivered j s q (env, e, i) = (env, e, was j s q env e i)

  still_delivered : (j : ℕ) (s : Bytes) (q : ℕ) → DeliveredAt m ds j s q → DeliveredAt m' ds j s q
  still_delivered j s q (env, e, i) = (env, e, still s q env i)

  -- What a delivery asks for lies in a slot of the old view.
  asked_slot :
      (j : ℕ) (s : Bytes) (q slot i k : ℕ) (env : Envelope)
      → get_elem? ds j ≡ some env
      → slot_of m s ≡ some slot
      → Required slot q (vector_of env) i k
      → i < len m
  asked_slot j s q slot i k env e at_slot req =
      elim (Required-cases slot q (vector_of env) i k req) [
        | inl (p, _, _) ↦ rw p (get_elem?-lt m.replicas slot (c.view.found s slot at_slot))
        | inr (_, pos, _) ↦
            let (_, _, _, short) = c.known j env e in
            elim (dec_lt i (len m)) [
              | yes h ↦ h
              | no h ↦
                  absurd (omega (arith, pos, at_beyond (vector_of env) i (omega (arith, short, h))))
            ]
      ]

  pub IsCausal-extend : IsCausal m' g ds
  IsCausal-extend = record {
    view = x.well_formed;
    closed = IsClosed-extend m m' g slots x.kept x.more c.view c.closed;
    known = λ j env e.
        let (s, q, i, short) = c.known j env e in
        (s, q, still s q env i, omega (arith, short, x.more));
    stored = λ j s q d. c.stored j s q (was_delivered j s q d);
    complete = λ s q h. let (j, d) = c.complete s q h in (j, still_delivered j s q d);
    once = λ j j' s q d d'. c.once j j' s q (was_delivered j s q d) (was_delivered j' s q d');
    before = λ j s q slot env e i at_slot n k r f req.
        let old = was j s q env e i in
        let here : slot_of m s ≡ some slot =
          old.slotted
          ∙ ap some (
              let z : some old.slot ≡ some slot = sym (slots s old.slot old.slotted) ∙ at_slot in
              cc) in
        let f' = sym (x.kept n (asked_slot j s q slot n k env e here req)) ∙ f in
        let (j', lt, d) = c.before j s q slot env e old here n k r f' req in
        (j', lt, still_delivered j' r k d);
  }
