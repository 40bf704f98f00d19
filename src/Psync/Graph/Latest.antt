-- ===== src/Psync/Graph/Latest.antt =====
-- `LatestSeq` of psync/graph.go: what a sender has in a closed graph is an interval from 1 up.
use comlink.Common.{
  ℕ, ◌-◌, ◌≤◌, ◌<◌, ◌≡◌, refl, subst, ◌↔◌, ◌⊎◌, inl, inr, if_pos, if_neg, true, some, [], ◌∷◌,
  arith, ℕ_discrete, ltb, if◌then◌else◌, Option-cases,
}
use comlink.Common.Assoc.{Bytes, nat_key, bytes_key, Assoc, get}
use comlink.Psync.Membership.{Membership}
use comlink.Psync.Graph.{Node, Graph, has, greatest_from, latest_seq}
use comlink.Psync.Graph.Lookup.{has-fixed}
use comlink.Psync.Graph.Invariant.{IsClosed, has_down}
use comlink.Psync.Membership.Slots.{IsWellFormed}

greatest_from-ge : (top : ℕ) (m : Assoc ℕ Node) → top ≤ greatest_from top m
unfolding greatest_from
greatest_from-ge top [] = omega arith
greatest_from-ge top ((q, n) ∷ m) =
    ground (arith, greatest_from-ge (if ltb top q then q else top) m)

greatest_from-bound :
    (top : ℕ) (m : Assoc ℕ Node) (q : ℕ) (n : Node) → get q m ≡ some n → q ≤ greatest_from top m
unfolding greatest_from get
greatest_from-bound top [] q n e = cc
greatest_from-bound top ((p, n') ∷ m) q n e = elim (ℕ_discrete p q) [
  | yes h ↦ ground (arith, greatest_from-ge (if ltb top p then p else top) m)
  | no h ↦ greatest_from-bound (if ltb top p then p else top) m q n (ground arith)
]

greatest_from-found :
    (top : ℕ) (m : Assoc ℕ Node)
    → (greatest_from top m ≡ top) ⊎ ((n : Node) × (get (greatest_from top m) m ≡ some n))
unfolding greatest_from get
greatest_from-found top [] = inl refl
greatest_from-found top ((p, n) ∷ m) =
    elim (ℕ_discrete p (greatest_from (if ltb top p then p else top) m)) [
      | yes h ↦ inr (n, rw (if_pos _ h) refl)
      | no h ↦ elim (greatest_from-found (if ltb top p then p else top) m) [
        | inl e ↦ inl (ground arith)
        | inr (n', e) ↦ inr (n', rw (if_neg _ h) e)
      ]
    ]

pub has-le-latest_seq : (g : Graph) (s : Bytes) (q : ℕ) → has g s q ≡ true → q ≤ latest_seq g s
unfolding has latest_seq
has-le-latest_seq g s q h = elim (Option-cases (get s g.by_sender)) [
  | inl e ↦ ground arith
  | inr (m, e) ↦ elim (Option-cases (get q m)) [
    | inl f ↦ ground arith
    | inr (n, f) ↦ ground (arith, greatest_from-bound 0 m q n f)
  ]
]

pub has-latest_seq : (g : Graph) (s : Bytes) → 0 < latest_seq g s → has g s (latest_seq g s) ≡ true
unfolding has latest_seq
has-latest_seq g s h = elim (Option-cases (get s g.by_sender)) [
  | inl e ↦ ground arith
  | inr (m, e) ↦ elim (greatest_from-found 0 m) [
    | inl f ↦ ground arith
    | inr (n, f) ↦ ground (arith, f)
  ]
]

-- In a closed graph a sender's messages are numbered 1, 2, … up to `LatestSeq`, with no gap: `Has`
-- answers true for exactly the numbers from 1 to it.
pub has_iff_latest :
    (m : Membership) (g : Graph) (s : Bytes) (q : ℕ)
    → IsWellFormed m
    → IsClosed m g
    → (has g s q ≡ true) ↔ ((0 < q) × (q ≤ latest_seq g s))
has_iff_latest m g s q w v = (
  λ h. let (n, e) = has-fixed g s q h in ((v.keyed s q n e).positive, has-le-latest_seq g s q h),
  λ (pos, le).
      has_down m g s q (latest_seq g s - q) w v pos
        (subst (λ k. has g s k ≡ true) (omega arith) (has-latest_seq g s (omega arith))),
)
