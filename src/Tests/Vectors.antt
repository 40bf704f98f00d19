-- ===== src/Tests/Vectors.antt =====
-- The theorems on psync/vector.go at concrete vectors.
use comlink.Common.{zero, suc, ◌≡◌, refl, ◌↔◌, ◌⊎◌, true, false, some, [], ◌∷◌, arith}
use comlink.Psync.Vector.{Vector, dominates, max_vector, increment}
use comlink.Psync.Vector.Compare.{Covers, Exceeds, dominates_iff}
use comlink.Psync.Vector.Order.{Answers, compare_exactly_one, max_vector-join}

abbrev low : Vector
low = 1 ∷ 0 ∷ []

abbrev side : Vector
side = 0 ∷ 2 ∷ []

abbrev high : Vector
high = 1 ∷ 2 ∷ []

abbrev top : Vector
top = 2 ∷ 2 ∷ []

high-low : dominates high low ≡ true
unfolding dominates
high-low = refl

top-high : dominates top high ≡ true
unfolding dominates
top-high = refl

joined : max_vector low side ≡ high
unfolding max_vector
joined = refl

next_high : increment high 0 ≡ some top
unfolding increment
next_high = refl

Covers-low : Covers top low
Covers-low zero = omega arith
Covers-low (suc zero) = omega arith
Covers-low (suc (suc i)) = omega arith

Covers-side : Covers top side
Covers-side zero = omega arith
Covers-side (suc zero) = omega arith
Covers-side (suc (suc i)) = omega arith

dominates_iff_example : (dominates high low ≡ true) ↔ (Covers high low × Exceeds high low)
dominates_iff_example = dominates_iff high low

compare_exactly_one_example :
    Answers true false false false low side
    ⊎ Answers false true false false low side
    ⊎ Answers false false true false low side
    ⊎ Answers false false false true low side
compare_exactly_one_example = compare_exactly_one low side

max_vector-join_example :
    Covers (max_vector low side) low
    × Covers (max_vector low side) side
    × Covers top (max_vector low side)
max_vector-join_example = max_vector-join low side top Covers-low Covers-side
