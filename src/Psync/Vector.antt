-- ===== src/Psync/Vector.antt =====
-- psync/vector.go: vector clocks indexed by membership slot, compared under zero padding.
-- A slot is a uint64; `increment` is the only operation that can wrap.
pub mod Compare
pub mod Order
use comlink.Common.{
  ℕ, zero, suc, ◌+◌, ◌%◌, ◌^◌, max, Bool, true, false, ◌&&◌, not, Option, none, some, List, [], ◌∷◌,
  ltb, ◌==◌, if◌then◌else◌, length, get_or, set,
}

abbrev pub Vector : Type 0
Vector = List ℕ

abbrev pub u64 : ℕ → ℕ
u64 n = n % 2 ^ 64

-- Out of range reads 0.
abbrev pub at : Vector → ℕ → ℕ
at v i = get_or v i 0

-- Each loop `for i := 0; i < n; i++` is a recursion on the rounds left, with `i` beside it.
equal_loop : Vector → Vector → ℕ → ℕ → Bool
equal_loop a b zero i = true
equal_loop a b (suc n) i = if at a i == at b i then equal_loop a b n (i + 1) else false

unfoldable pub equal : Vector → Vector → Bool
unfolding equal_loop
equal a b = equal_loop a b (max (length a) (length b)) 0

dominates_loop : Vector → Vector → Bool → ℕ → ℕ → Bool
dominates_loop a b any zero i = any
dominates_loop a b any (suc n) i =
    let rest = dominates_loop a b (if ltb (at b i) (at a i) then true else any) n (i + 1) in
    if ltb (at a i) (at b i) then false else rest

unfoldable pub dominates : Vector → Vector → Bool
unfolding dominates_loop
dominates a b = dominates_loop a b false (max (length a) (length b)) 0

unfoldable pub happens_before : Vector → Vector → Bool
unfolding dominates
happens_before a b = dominates b a

unfoldable pub concurrent : Vector → Vector → Bool
unfolding dominates equal
concurrent a b = not (dominates a b) && not (dominates b a) && not (equal a b)

max_loop : Vector → Vector → ℕ → ℕ → Vector
max_loop a b zero i = []
max_loop a b (suc n) i = max (at a i) (at b i) ∷ max_loop a b n (i + 1)

-- `Max`; the name `max` is the numbers'.
unfoldable pub max_vector : Vector → Vector → Vector
unfolding max_loop
max_vector a b = max_loop a b (max (length a) (length b)) 0

-- The panic on a slot that is out of range is `none`. A slot is never negative here.
unfoldable pub increment : Vector → ℕ → Option Vector
increment v slot = if ltb slot (length v) then some (set v slot (u64 (at v slot + 1))) else none
