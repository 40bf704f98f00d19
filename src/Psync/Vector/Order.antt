-- ===== src/Psync/Vector/Order.antt =====
-- psync/vector.go as an order: causality is a strict partial order, `Max` its join, and an
-- incremented vector lies strictly above the old one.
use comlink.Common.{
  ℕ, ◌+◌, ◌^◌, ◌<◌, ◌≡◌, ◌⊎◌, inl, inr, ◌≢◌, Bool, true, false, some, arith, length, dec_lt,
  Bool-cases, set, ℕ_discrete,
}
use comlink.Psync.Vector.{
  Vector, at, equal, dominates, happens_before, concurrent, max_vector, increment, u64,
}
use comlink.Psync.Vector.Compare.{
  Covers, equal_iff, dominates_iff, at-max_vector, at-set_self, at-set_ne,
}

dominates_irreflexive : (a : Vector) → dominates a a ≡ false
dominates_irreflexive a = elim (Bool-cases (dominates a a)) [
  | inl e ↦ absurd (omega (arith, ((dominates_iff a a).0 e).1.1))
  | inr e ↦ e
]

dominates_transitive :
    (a b c : Vector) → dominates a b ≡ true → dominates b c ≡ true → dominates a c ≡ true
dominates_transitive a b c p q =
    let f = (dominates_iff a b).0 p in
    let g = (dominates_iff b c).0 q in
    let j = g.1.0 in
    (dominates_iff a c).1 (λ i. omega (arith, f.0 i, g.0 i), (j, omega (arith, f.0 j, g.1.1)))

not-dominates-flip : (a b : Vector) → dominates a b ≡ true → dominates b a ≡ false
not-dominates-flip a b p = elim (Bool-cases (dominates b a)) [
  | inl q ↦ cc (dominates_transitive a b a p q, dominates_irreflexive a)
  | inr q ↦ q
]

-- Domination is a strict order on vectors of any lengths: it is passed on along a chain, and a chain
-- never leads back.
dominates_strict :
    (a b c : Vector)
    → dominates a b ≡ true
    → dominates b c ≡ true
    → (dominates a c ≡ true) × (dominates c a ≡ false) × (dominates a a ≡ false)
dominates_strict a b c p q =
    let t = dominates_transitive a b c p q in (t, not-dominates-flip a c t, dominates_irreflexive a)

not-dominates-equal : (a b : Vector) → equal a b ≡ true → dominates a b ≡ false
not-dominates-equal a b p = elim (Bool-cases (dominates a b)) [
  | inl q ↦
      let x = ((dominates_iff a b).0 q).1 in absurd (omega (arith, (equal_iff a b).0 p x.0, x.1))
  | inr q ↦ q
]

equal_flip : (a b : Vector) → equal a b ≡ true → equal b a ≡ true
equal_flip a b p = (equal_iff b a).1 (λ i. omega (arith, (equal_iff a b).0 p i))

-- The four answers about two vectors: equal, after, before, concurrent.
abbrev pub Answers : Bool → Bool → Bool → Bool → Vector → Vector → Type 0
Answers e d h c a b =
    (equal a b ≡ e) × (dominates a b ≡ d) × (happens_before a b ≡ h) × (concurrent a b ≡ c)

-- Of any two vectors exactly one of `Equal`, `Dominates`, `HappensBefore` and `Concurrent` holds.
pub compare_exactly_one :
    (a b : Vector)
    → Answers true false false false a b
      ⊎ Answers false true false false a b
      ⊎ Answers false false true false a b
      ⊎ Answers false false false true a b
unfolding happens_before concurrent
compare_exactly_one a b = ground (
  arith,
  not-dominates-flip a b,
  not-dominates-equal a b,
  not-dominates-equal b a,
  equal_flip a b,
)

-- `Max` is the least vector above both: it covers each, and a vector that covers both covers it.
pub max_vector-join :
    (a b c : Vector)
    → Covers c a
    → Covers c b
    → Covers (max_vector a b) a × Covers (max_vector a b) b × Covers c (max_vector a b)
max_vector-join a b c h k = (
  λ i. omega (arith, at-max_vector a b i),
  λ i. omega (arith, at-max_vector a b i),
  λ i. omega (arith, at-max_vector a b i, h i, k i),
)

-- Short of the wrap-around, the incremented vector happens after the old one, agrees with it in
-- every other slot and is one more in its own.
increment-dominates :
    (v w : Vector) (slot : ℕ)
    → increment v slot ≡ some w
    → at v slot + 1 < 2 ^ 64
    → (happens_before v w ≡ true)
      × (at w slot ≡ at v slot + 1)
      × ((j : ℕ) → j ≢ slot → at w j ≡ at v j)
unfolding increment happens_before
increment-dominates v w slot e h = elim (dec_lt slot (length v)) [
  | no p ↦ ground arith
  | yes p ↦
      let w' : Vector = set v slot (u64 (at v slot + 1)) in
      let same : w ≡ w' = ground arith in
      let own : at w slot ≡ at v slot + 1 =
        rw same (omega (arith, at-set_self v slot (u64 (at v slot + 1)) p)) in
      let rest : (j : ℕ) → j ≢ slot → at w j ≡ at v j =
        λ j n. rw same (at-set_ne v slot j _ (λ q. n (omega (arith, q)))) in
      (
        (dominates_iff w v).1 (
          λ j. elim (ℕ_discrete j slot) [
            | yes q ↦ rw q (omega (arith, own))
            | no q ↦ omega (arith, rest j q)
          ],
          (slot, omega (arith, own)),
        ),
        own,
        rest,
      )
]
