-- ===== src/Psync/Graph/Invariant.antt =====
-- The invariant of psync/graph.go: every stored message is named by its key, and whatever it asks
-- for is stored too.
use comlink.Common.{
  ℕ, zero, suc, ◌+◌, ◌-◌, ◌≤◌, ◌<◌, ◌≡◌, refl, sym, ap, ◌∙◌, subst, inl, inr, true, some, List,
  arith, dec_lt, length, get_elem?-lt,
}
use comlink.Common.Assoc.{Bytes, nat_key, bytes_key}
use comlink.Common.Result.{ok}
use comlink.Messages.{ReplicaId, Envelope, value_of, sender_of, vector_of}
use comlink.Psync.Membership.{Membership, len, replica, slot_of}
use native.Mathlib.Nat.{add-zero}
use comlink.Psync.Vector.{at}
use comlink.Psync.Vector.Compare.{at_beyond}
use comlink.Psync.Graph.{NodeRef, Node, Graph, new_graph, lookup, has, link, insert}
use comlink.Psync.Graph.Lookup.{fixed, new_node, fixed-link_cases, has-link, has-fixed}
use comlink.Psync.Graph.Insert.{Required, Required-own, Required-cases, Accepts, insert-Accepts}
use comlink.Psync.Membership.Slots.{IsWellFormed}

-- A node under the key (s, q), seen from the view `m`.
pub record IsKeyed (m : Membership) (s : Bytes) (q : ℕ) (n : Node) : Type 0 where
  pub sent : sender_of n.envelope ≡ s
  pub slotted : slot_of m s ≡ some n.sender_slot
  pub numbered : at (vector_of n.envelope) n.sender_slot ≡ q
  pub same : n.sender_seq ≡ q
  pub positive : 0 < q
  pub era : length (vector_of n.envelope) ≤ len m

pub record IsClosed (m : Membership) (g : Graph) : Type 0 where
  pub keyed : (s : Bytes) (q : ℕ) (n : Node) → fixed g s q ≡ some n → IsKeyed m s q n
  pub causal :
      (s : Bytes) (q : ℕ) (n : Node) (i k : ℕ) (r : ReplicaId)
      → fixed g s q ≡ some n
      → replica m i ≡ some r
      → Required n.sender_slot q (vector_of n.envelope) i k
      → has g r k ≡ true

pub new_graph-IsClosed : (m : Membership) → IsClosed m new_graph
unfolding new_graph lookup
new_graph-IsClosed m = record { keyed = λ s q n e. cc; causal = λ s q n i k r e. cc }

pub link-IsClosed :
    (m : Membership) (g : Graph) (env : Envelope) (s : Bytes) (slot seq : ℕ) (ps : List NodeRef)
    → IsClosed m g
    → Accepts m g env s slot seq
    → IsClosed m (link g s seq slot env ps)
link-IsClosed m g env s slot seq ps v a = record { keyed = keyed; causal = causal }
  where
    g' : Graph
    g' = link g s seq slot env ps

    stored : IsKeyed m s seq (new_node seq slot env ps)
    stored = record {
      sent = ap value_of a.sent;
      slotted = a.slotted;
      numbered = sym a.numbered;
      same = refl;
      positive = a.positive;
      era = a.era;
    }

    keyed : (s' : Bytes) (q : ℕ) (n : Node) → fixed g' s' q ≡ some n → IsKeyed m s' q n
    keyed s' q n e = elim (fixed-link_cases g s seq slot env ps s' q n e) [
      | inr old ↦ v.keyed s' q n old
      | inl (p, r, t) ↦ rw (t, ← p, ← r) stored
    ]

    causal :
        (s' : Bytes) (q : ℕ) (n : Node) (i k : ℕ) (r : ReplicaId)
        → fixed g' s' q ≡ some n
        → replica m i ≡ some r
        → Required n.sender_slot q (vector_of n.envelope) i k
        → has g' r k ≡ true
    causal s' q n i k r e f h = elim (fixed-link_cases g s seq slot env ps s' q n e) [
      | inr old ↦ has-link g s seq slot env ps r k (v.causal s' q n i k r old f h)
      | inl (p, t, u) ↦ has-link g s seq slot env ps r k (
          a.causal i k r f (
            subst (λ (x : Node). Required x.sender_slot seq (vector_of x.envelope) i k) u
              (subst (λ y. Required n.sender_slot y (vector_of n.envelope) i k) (sym t) h)))
    ]

-- `Insert` keeps the graph causally closed: a message is stored only behind all that it asks for.
pub insert-IsClosed :
    (m : Membership) (g g' : Graph) (env : Envelope) (ref : NodeRef)
    → IsClosed m g
    → insert m g env ≡ ok (g', ref)
    → IsClosed m g'
insert-IsClosed m g g' env ref v e =
    let (s, slot, seq, ps, a, p, q) = insert-Accepts m g g' env ref e in
    rw q (link-IsClosed m g env s slot seq ps v a)

pub has_down :
    (m : Membership) (g : Graph) (s : Bytes) (k d : ℕ)
    → IsWellFormed m
    → IsClosed m g
    → 0 < k
    → has g s (k + d) ≡ true
    → has g s k ≡ true
has_down m g s k zero w v h e = subst (λ n. has g s n ≡ true) (add-zero k) e
has_down m g s k (suc d) w v h e =
    let (n, f) = has-fixed g s (k + suc d) e in
    let key = v.keyed s (k + suc d) n f in
    let before : k + suc d - 1 ≡ k + d = omega arith in
    has_down m g s k d w v h (
      subst (λ t. has g s t ≡ true) before
        (v.causal s (k + suc d) n n.sender_slot (k + suc d - 1) s f
          (w.found s n.sender_slot key.slotted)
          (Required-own n.sender_slot (k + suc d) (vector_of n.envelope) (omega arith))))

-- A view that keeps the slots, and that may have more of them at the end, keeps the graph closed.
pub IsClosed-extend :
    (m m' : Membership) (g : Graph)
    → ((s : Bytes) (i : ℕ) → slot_of m s ≡ some i → slot_of m' s ≡ some i)
    → ((i : ℕ) → i < len m → replica m' i ≡ replica m i)
    → len m ≤ len m'
    → IsWellFormed m
    → IsClosed m g
    → IsClosed m' g
IsClosed-extend m m' g slots reps more w v = record {
  keyed = λ s q n e.
      let key = v.keyed s q n e in
      record {
        sent = key.sent;
        slotted = slots s n.sender_slot key.slotted;
        numbered = key.numbered;
        same = key.same;
        positive = key.positive;
        era = omega (arith, key.era);
      };
  causal = λ s q n i k r e f h. v.causal s q n i k r e (sym (reps i (in_view s q n i k e h)) ∙ f) h;
}
  where
    in_view :
        (s : Bytes) (q : ℕ) (n : Node) (i k : ℕ)
        → fixed g s q ≡ some n
        → Required n.sender_slot q (vector_of n.envelope) i k
        → i < len m
    in_view s q n i k e h =
        let key = v.keyed s q n e in
        elim (Required-cases n.sender_slot q (vector_of n.envelope) i k h) [
          | inl p ↦ omega (
            arith,
            p.0,
            get_elem?-lt m.replicas n.sender_slot (w.found s n.sender_slot key.slotted),
          )
          | inr p ↦ elim (dec_lt i (len m)) [
            | yes t ↦ t
            | no t ↦ absurd (
                omega (
                  arith,
                  p.1,
                  key.era,
                  at_beyond (vector_of n.envelope) i (omega (arith, key.era)),
                ))
          ]
        ]
