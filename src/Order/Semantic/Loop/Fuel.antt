-- ===== src/Order/Semantic/Loop/Fuel.antt =====
-- How far the loop of `advanceWave` in order/semorder.go goes: up to the greatest wave at most.
use comlink.Common.{
  ℕ, zero, suc, ◌+◌, ◌-◌, ◌≤◌, ◌≡◌, refl, inl, inr, true, false, none, some, List, [], ◌∷◌, arith,
  All, ◌^◌, ◌<◌, Option, none, ℕ_discrete, by_ite, dec_lt, lt→ltb, Bool-cases, Option-cases, length,
  ltb,
}
use comlink.Common.Assoc.{Assoc, Bytes, nat_key, get, put}
use comlink.Messages.{Envelope}
use comlink.Order.Semantic.{SemState, or_empty, max_wave, max_observed_wave}
use comlink.Order.Semantic.Loop.{has_strict, find_from, find_next_strict_wave}
use comlink.Psync.Vector.{u64}

abbrev pub Waves : Type 0
Waves = Assoc ℕ (List Envelope)

-- How many envelopes the waves hold.
abbrev pub total : Waves → ℕ
total [] = 0
total ((w, envs) ∷ m) = length envs + total m

pub total-put :
    (k : ℕ) (xs : List Envelope) (m : Waves)
    → total (put k xs m) + length (or_empty (get k m)) ≡ total m + length xs
unfolding put get
total-put k xs [] = omega arith
total-put k xs ((w, envs) ∷ m) = ground (arith, total-put k xs m)

pub max_wave-put :
    (k : ℕ) (xs : List Envelope) (m : Waves) (b : ℕ)
    → max_wave m ≤ b
    → k ≤ b
    → max_wave (put k xs m) ≤ b
unfolding put max_wave
max_wave-put k xs [] b h h' = ground arith
max_wave-put k xs ((w, envs) ∷ m) b h h' = ground (arith, max_wave-put k xs m b)

pub get-max_wave : (k : ℕ) (xs : List Envelope) (m : Waves) → get k m ≡ some xs → k ≤ max_wave m
unfolding get max_wave
get-max_wave k xs [] e = cc e
get-max_wave k xs ((w, envs) ∷ m) e = ground (arith, get-max_wave k xs m)

-- Every envelope of the waves has the property.
abbrev pub AllIn : (Envelope → Type 0) → Waves → Type 0
AllIn P [] = Unit
AllIn P ((w, envs) ∷ m) = All P envs × AllIn P m

pub put-AllIn :
    (P : Envelope → Type 0) (k : ℕ) (xs : List Envelope) (m : Waves)
    → AllIn P m
    → All P xs
    → AllIn P (put k xs m)
unfolding put
put-AllIn P k xs [] h hx = (hx, tt)
put-AllIn P k xs ((w, envs) ∷ m) h hx =
    by_ite (AllIn P) (ℕ_discrete w k) ((k, xs) ∷ m) ((w, envs) ∷ put k xs m) (λ _. (hx, h.1))
      (λ _. (h.0, put-AllIn P k xs m h.1 hx))

pub get-AllIn : (P : Envelope → Type 0) (k : ℕ) (m : Waves) → AllIn P m → All P (or_empty (get k m))
unfolding get
get-AllIn P k [] h = tt
get-AllIn P k ((w, envs) ∷ m) h =
    by_ite (λ (o : Option (List Envelope)). All P (or_empty o)) (ℕ_discrete w k) (some envs)
      (get k m) (λ _. h.0) (λ _. get-AllIn P k m h.1)

module _ (class_of : Bytes → ℕ) where
  has_strict-max_wave :
      (k : ℕ) (m : Waves) → has_strict class_of (or_empty (get k m)) ≡ true → k ≤ max_wave m
  unfolding has_strict
  has_strict-max_wave k m e = elim (Option-cases (get k m)) [
    | inl q ↦ let z : has_strict class_of (or_empty (get k m)) ≡ false = rw q refl in cc (z, e)
    | inr (xs, q) ↦ get-max_wave k xs m q
  ]

  -- The search from `start` has ended: with nothing, or with a wave past the start that holds messages.
  abbrev pub Finds : ℕ → SemState → Option (Option ℕ) → Type 0
  Finds start st none = ⊥
  Finds start st (some none) = Unit
  Finds start st (some (some x)) = (start ≤ x) × (x ≤ max_wave st.messages_by_wave)

  Finds-later : (c : ℕ) (st : SemState) (o : Option (Option ℕ)) → Finds (c + 1) st o → Finds c st o
  Finds-later c st none h = h
  Finds-later c st (some none) h = h
  Finds-later c st (some (some x)) h = (omega (arith, h.0), h.1)

  find_from-step :
      (n c : ℕ) (st : SemState)
      → max_wave st.messages_by_wave + 1 < 2 ^ 64
      → (c ≤ max_wave st.messages_by_wave → Finds (c + 1) st (find_from class_of n (c + 1) st))
      → Finds c st (find_from class_of (suc n) c st)
  unfolding find_from max_observed_wave
  find_from-step n c st room rest =
      elim (Bool-cases (has_strict class_of (or_empty (get c st.messages_by_wave)))) [
        | inl q ↦ rw (find_from, q) ((omega arith, has_strict-max_wave c st.messages_by_wave q))
        | inr q ↦ elim (dec_lt (max_wave st.messages_by_wave) c) [
          | yes lt ↦ rw (find_from, q, lt→ltb _ _ lt) tt
          | no ge ↦
              let past : ltb (max_wave st.messages_by_wave) c ≡ false = ground (arith, ge) in
              let next : u64 (c + 1) ≡ c + 1 = omega (arith, room, ge) in
              rw (find_from, q, past, next) (Finds-later c st _ (rest (omega (arith, ge))))
        ]
      ]

  find_from-Finds :
      (n c : ℕ) (st : SemState)
      → max_wave st.messages_by_wave + 1 < 2 ^ 64
      → max_wave st.messages_by_wave < c + n
      → Finds c st (find_from class_of (suc n) c st)
  find_from-Finds zero c st room h =
      find_from-step zero c st room (λ le. absurd (omega (arith, le, h)))
  find_from-Finds (suc n) c st room h =
      find_from-step (suc n) c st room (λ le. find_from-Finds n (c + 1) st room (omega (arith, h)))

  pub find_next_strict_wave-Finds :
      (start : ℕ) (st : SemState)
      → max_wave st.messages_by_wave + 1 < 2 ^ 64
      → Finds start st (find_next_strict_wave class_of start st)
  unfolding find_next_strict_wave max_observed_wave
  find_next_strict_wave-Finds start st room =
      find_from-Finds (max_wave st.messages_by_wave + 1 - start) start st room (omega arith)
