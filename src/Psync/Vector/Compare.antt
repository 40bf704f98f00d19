-- ===== src/Psync/Vector/Compare.antt =====
-- What the loops of psync/vector.go compute, slot by slot.
use native.Mathlib.Nat.{add-zero, zero-add}
use comlink.Common.{
  ℕ, zero, suc, ◌+◌, ◌≤◌, ◌<◌, max, ◌≡◌, refl, ap, subst, ◌≢◌, ◌↔◌, ◌⊎◌, inl, inr, Bool, true,
  false, [], ◌∷◌, arith, ltb, if◌then◌else◌, length, set, dec_lt, ℕ_discrete,
}
use comlink.Psync.Vector.{
  Vector, at, equal_loop, equal, dominates_loop, dominates, max_loop, max_vector,
}

-- `a` is at least `b` in every slot.
abbrev pub Covers : Vector → Vector → Type 0
Covers a b = (i : ℕ) → at b i ≤ at a i

-- Some slot of `a` is greater than that of `b`.
abbrev pub Exceeds : Vector → Vector → Type 0
Exceeds a b = (i : ℕ) × (at b i < at a i)

pub at_beyond : (v : Vector) (i : ℕ) → length v ≤ i → at v i ≡ 0
at_beyond [] i h = refl
at_beyond (x ∷ v) zero h = elim h [ ]
at_beyond (x ∷ v) (suc i) h = at_beyond v i (omega arith)

equal_loop_sound :
    (a b : Vector) (n i : ℕ)
    → equal_loop a b n i ≡ true
    → (j : ℕ) → i ≤ j
    → j < i + n
    → at a j ≡ at b j
unfolding equal_loop
equal_loop_sound a b zero i e j h k = absurd (omega arith)
equal_loop_sound a b (suc n) i e j h k = elim (ℕ_discrete j i) [
  | yes s ↦ rw s (ground arith)
  | no s ↦ equal_loop_sound a b n (i + 1) (ground arith) j (omega arith) (omega arith)
]

equal_loop_complete :
    (a b : Vector) (n i : ℕ) → ((j : ℕ) → at a j ≡ at b j) → equal_loop a b n i ≡ true
unfolding equal_loop
equal_loop_complete a b zero i h = refl
equal_loop_complete a b (suc n) i h = ground (arith, h i, equal_loop_complete a b n (i + 1) h)

-- `Equal` holds exactly when all slots agree, absent ones reading 0.
pub equal_iff : (a b : Vector) → (equal a b ≡ true) ↔ ((i : ℕ) → at a i ≡ at b i)
unfolding equal
equal_iff a b = (sound, equal_loop_complete a b (max (length a) (length b)) 0)
  where
    sound : equal a b ≡ true → (i : ℕ) → at a i ≡ at b i
    sound e i = elim (dec_lt i (max (length a) (length b))) [
      | yes h ↦ equal_loop_sound a b _ 0 e i (omega arith) (omega arith)
      | no h ↦ omega (arith, at_beyond a i (omega arith), at_beyond b i (omega arith))
    ]

dominates_loop_sound :
    (a b : Vector) (any : Bool) (n i : ℕ)
    → dominates_loop a b any n i ≡ true
    → (j : ℕ) → i ≤ j
    → j < i + n
    → at b j ≤ at a j
unfolding dominates_loop
dominates_loop_sound a b any zero i e j h k = absurd (omega arith)
dominates_loop_sound a b any (suc n) i e j h k = elim (ℕ_discrete j i) [
  | yes s ↦ rw s (ground arith)
  | no s ↦
      dominates_loop_sound a b (if ltb (at b i) (at a i) then true else any) n (i + 1)
        (ground arith) j (omega arith) (omega arith)
]

dominates_loop-Exceeds :
    (a b : Vector) (any : Bool) (n i : ℕ)
    → dominates_loop a b any n i ≡ true
    → (any ≡ true) ⊎ Exceeds a b
unfolding dominates_loop
dominates_loop-Exceeds a b any zero i e = inl e
dominates_loop-Exceeds a b any (suc n) i e = elim (dec_lt (at b i) (at a i)) [
  | yes h ↦ inr (i, h)
  | no h ↦ ground (arith, dominates_loop-Exceeds a b any n (i + 1))
]

dominates_loop_any : (a b : Vector) (n i : ℕ) → Covers a b → dominates_loop a b true n i ≡ true
unfolding dominates_loop
dominates_loop_any a b zero i h = refl
dominates_loop_any a b (suc n) i h = ground (arith, h i, dominates_loop_any a b n (i + 1) h)

dominates_loop_complete :
    (a b : Vector) (any : Bool) (n i : ℕ) (j : ℕ)
    → Covers a b
    → at b j < at a j
    → i ≤ j
    → j < i + n
    → dominates_loop a b any n i ≡ true
unfolding dominates_loop
dominates_loop_complete a b any zero i j h s p q = absurd (omega arith)
dominates_loop_complete a b any (suc n) i j h s p q = elim (ℕ_discrete j i) [
  | yes e ↦
      ground (arith, h i, dominates_loop_any a b n (i + 1) h, subst (λ k. at b k < at a k) e s)
  | no e ↦ ground (
    arith,
    h i,
    dominates_loop_complete a b (if ltb (at b i) (at a i) then true else any) n (i + 1) j h s
        (omega arith) (omega arith),
  )
]

-- `Dominates` holds exactly when `a` is at least `b` in every slot and greater in some slot.
pub dominates_iff : (a b : Vector) → (dominates a b ≡ true) ↔ (Covers a b × Exceeds a b)
unfolding dominates
dominates_iff a b = (λ e. (covers e, exceeds e), λ h. complete h.0 h.1)
  where
    covers : dominates a b ≡ true → Covers a b
    covers e i = elim (dec_lt i (max (length a) (length b))) [
      | yes h ↦ dominates_loop_sound a b false _ 0 e i (omega arith) (omega arith)
      | no h ↦ omega (arith, at_beyond a i (omega arith), at_beyond b i (omega arith))
    ]

    exceeds : dominates a b ≡ true → Exceeds a b
    exceeds e = elim (dominates_loop-Exceeds a b false _ 0 e) [ inl f ↦ cc | inr x ↦ x ]

    complete : Covers a b → Exceeds a b → dominates a b ≡ true
    complete c (j, s) =
        dominates_loop_complete a b false _ 0 j c s (omega arith) (elim (dec_lt j (length a)) [
          | yes h ↦ omega arith
          | no h ↦ absurd (omega (arith, at_beyond a j (omega arith)))
        ])

length-max_loop : (a b : Vector) (n i : ℕ) → length (max_loop a b n i) ≡ n
unfolding max_loop
length-max_loop a b zero i = refl
length-max_loop a b (suc n) i = ap suc (length-max_loop a b n (i + 1))

at-max_loop :
    (a b : Vector) (n i j : ℕ) → j < n → at (max_loop a b n i) j ≡ max (at a (i + j)) (at b (i + j))
unfolding max_loop
at-max_loop a b zero i j h = elim h [ ]
at-max_loop a b (suc n) i zero h = rw add-zero
at-max_loop a b (suc n) i (suc j) h = rw (at-max_loop a b n (i + 1) j (omega arith), shift) refl
  where
    shift : i + 1 + j ≡ i + suc j
    shift = omega arith

pub length-max_vector : (a b : Vector) → length (max_vector a b) ≡ max (length a) (length b)
unfolding max_vector
length-max_vector a b = length-max_loop a b _ 0

-- Every slot of `Max` is the greater of the two, also where one vector is shorter.
pub at-max_vector : (a b : Vector) (i : ℕ) → at (max_vector a b) i ≡ max (at a i) (at b i)
unfolding max_vector
at-max_vector a b i = elim (dec_lt i (max (length a) (length b))) [
  | yes h ↦ rw (at-max_loop a b _ 0 i h, zero-add)
  | no h ↦ omega (
    arith,
    at_beyond a i (omega arith),
    at_beyond b i (omega arith),
    at_beyond (max_vector a b) i (omega (arith, length-max_vector a b)),
  )
]

pub at-set_self : (v : Vector) (i x : ℕ) → i < length v → at (set v i x) i ≡ x
at-set_self [] i x h = elim h [ ]
at-set_self (y ∷ v) zero x h = refl
at-set_self (y ∷ v) (suc i) x h = at-set_self v i x (omega arith)

pub at-set_ne : (v : Vector) (i j x : ℕ) → i ≢ j → at (set v i x) j ≡ at v j
at-set_ne [] i j x h = refl
at-set_ne (y ∷ v) zero zero x h = absurd (h refl)
at-set_ne (y ∷ v) zero (suc j) x h = refl
at-set_ne (y ∷ v) (suc i) zero x h = refl
at-set_ne (y ∷ v) (suc i) (suc j) x h = at-set_ne v i j x (λ e. h (ap suc e))

pub length-set : (v : Vector) (i x : ℕ) → length (set v i x) ≡ length v
length-set [] i x = refl
length-set (y ∷ v) zero x = refl
length-set (y ∷ v) (suc i) x = ap suc (length-set v i x)
