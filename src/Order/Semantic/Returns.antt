-- ===== src/Order/Semantic/Returns.antt =====
-- The pump of order/semorder.go answers every delivery: with enough fuel no loop is cut short.
use comlink.Common.{
  ℕ, zero, suc, ◌+◌, ◌-◌, ◌≤◌, ◌<◌, ◌≡◌, refl, ap, subst, sym, ◌∙◌, inl, inr, List, [], ◌∷◌, ◌++◌,
  arith, by_if, Bool-cases, Option-cases, length, All, length-append, All-append, ◌^◌, Option, none,
  some, true, false,
}
use comlink.Common.Assoc.{Bytes, nat_key, index_key, get, put}
use comlink.Common.Result.{Result-cases}
use comlink.Messages.{Envelope, id_of, sender_of, vector_of}
use comlink.Order.Semantic.{
  SemState, new_sem_order, or_empty, is_some, observe, observe_new, apply_env, is_executed,
  max_wave, wave_complete_local, any_stable, continuation_property,
}
use comlink.Order.Semantic.Ends.{waves, Settled, try_eager-Settled, enough}
use comlink.Order.Semantic.Loop.{
  Progress, done, panicked, out_of_fuel, and_then, at_wave, is_class1, apply_strict,
  try_eager_executions, sorted_bucket, process_wave, advance_wave, pump, pump_all,
}
use comlink.Order.Semantic.Loop.Fuel.{
  Waves, total, total-put, max_wave-put, get-max_wave, find_next_strict_wave-Finds, Finds, AllIn,
  put-AllIn, get-AllIn,
}
use comlink.Order.Semantic.Runs.{Fits, try_eager-runs}
use comlink.Psync.Vector.{u64}
use comlink.Psync.Graph.{wave_of}
use comlink.Psync.Membership.{Membership, sender_seq}

-- At most `k` envelopes, no wave past `b`, and no vector beyond the view `m`, which has stayed.
abbrev BoundOf : ℕ → ℕ → Membership → Waves × ℕ × Membership → Type 0
BoundOf k b m (ws, due, view) = (total ws ≤ k) × (max_wave ws ≤ b) × AllIn (Fits m) ws × (view ≡ m)

abbrev Bound : ℕ → ℕ → Membership → SemState → Type 0
Bound k b m st = BoundOf k b m (waves st)

-- A loop has neither been cut short nor panicked, and has kept within the bounds.
abbrev Returns : ℕ → ℕ → Membership → Progress → Type 0
Returns k b m (done st) = Bound k b m st
Returns k b m panicked = ⊥
Returns k b m out_of_fuel = ⊥

and_then-Returns :
    (j k b : ℕ) (m : Membership) (p : Progress) (f : SemState → Progress)
    → Returns j b m p
    → ((st : SemState) → Bound j b m st → Returns k b m (f st))
    → Returns k b m (and_then p f)
and_then-Returns j k b m (done st) f v h = h st v
and_then-Returns j k b m panicked f v h = v
and_then-Returns j k b m out_of_fuel f v h = v

observe-Bound :
    (k b : ℕ) (m : Membership) (env : Envelope) (st : SemState)
    → wave_of (vector_of env) ≤ b
    → Fits m env
    → Bound k b m st
    → Bound (k + 1) b m (observe env st)
unfolding observe observe_new
observe-Bound k b m env st low fits (held, least, within, same) =
    elim (Result-cases (sender_seq st.membership (id_of env))) [
      | inr (e, p) ↦ rw (observe, p) more
      | inl (q, p) ↦
          rw (observe, p)
            (by_if (Bound (k + 1) b m)
              (is_some
                (get (sender_of env, q) (or_empty (get (wave_of (vector_of env)) st.seen_in_wave))))
              _ _ (λ _. more) (λ _. added))
    ]
  where
    more : Bound (k + 1) b m st
    more = (omega (arith, held), least, within, same)

    at : ℕ
    at = wave_of (vector_of env)

    old : List Envelope
    old = or_empty (get at st.messages_by_wave)

    added :
        BoundOf
          (k + 1)
          b
          m
          (put at (old ++ env ∷ []) st.messages_by_wave, st.current_wave, st.membership)
    added = (
      omega (
        arith,
        held,
        length-append old (env ∷ []),
        total-put at (old ++ env ∷ []) st.messages_by_wave,
      ),
      max_wave-put at (old ++ env ∷ []) st.messages_by_wave b least low,
      put-AllIn (Fits m) at (old ++ env ∷ []) st.messages_by_wave within (
          All-append (Fits m) old (env ∷ []) (get-AllIn (Fits m) at st.messages_by_wave within)
            (fits, tt)),
      same,
    )

apply_env-waves : (env : Envelope) (st : SemState) → waves (apply_env env st) ≡ waves st
unfolding apply_env
apply_env-waves env st = elim (Result-cases (sender_seq st.membership (id_of env))) [
  | inr (e, p) ↦ rw (apply_env, p) refl
  | inl (q, p) ↦ rw (apply_env, p) refl
]

-- A wave that is complete holds messages.
wave_complete_local-within :
    (st : SemState) (w : ℕ) → wave_complete_local st w ≡ true → w ≤ max_wave st.messages_by_wave
unfolding wave_complete_local any_stable
wave_complete_local-within st w e = elim (Option-cases (get w st.messages_by_wave)) [
  | inl q ↦ let z : wave_complete_local st w ≡ false = rw (wave_complete_local, q) refl in cc (z, e)
  | inr (xs, q) ↦ get-max_wave w xs st.messages_by_wave q
]

-- What Go says of a loop over a map: it meets only what the map holds, and no entry twice.
pub record IsVisit (visit : Waves → List Envelope) : Type 1 where
  pub only : (P : Envelope → Type 0) (ws : Waves) → AllIn P ws → All P (visit ws)
  pub once : (ws : Waves) → length (visit ws) ≤ total ws

-- What is documented of `sort.Slice`: it moves the elements.
pub record IsSort (sort : List Envelope → List Envelope) : Type 1 where
  pub only : (P : Envelope → Type 0) (xs : List Envelope) → All P xs → All P (sort xs)
  pub kept : (xs : List Envelope) → length (sort xs) ≡ length xs

module _ (class_of : Bytes → ℕ) (visit : Waves → List Envelope)
    (sort : List Envelope → List Envelope) (visits : IsVisit visit) (sorts : IsSort sort) where
  apply_strict-waves :
      (envs : List Envelope) (st : SemState) → waves (apply_strict class_of envs st) ≡ waves st
  unfolding apply_strict apply_env
  apply_strict-waves [] st = refl
  apply_strict-waves (env ∷ envs) st =
      apply_strict-waves envs _
      ∙ by_if (λ (st' : SemState). waves st' ≡ waves st) (is_class1 class_of env) _ _ (λ _. refl)
          λ _.
            by_if (λ (st' : SemState). waves st' ≡ waves st) (is_executed st env) _ _ (λ _. refl)
              λ _. apply_env-waves env st

  sorted_bucket-Bound :
      (k b : ℕ) (m : Membership) (st : SemState)
      → Bound k b m st
      → Bound k b m (sorted_bucket class_of visit sort st)
        × ((sorted_bucket class_of visit sort st).current_wave ≡ st.current_wave)
  unfolding sorted_bucket
  sorted_bucket-Bound k b m st (held, least, within, same) =
      elim (Option-cases (get st.current_wave st.messages_by_wave)) [
        | inl e ↦ rw (sorted_bucket, e) ((held, least, within, same), refl)
        | inr (envs, e) ↦
            let bucket : or_empty (get st.current_wave st.messages_by_wave) ≡ envs = rw e refl in
            let low = get-max_wave st.current_wave envs st.messages_by_wave e in
            rw (sorted_bucket, e)
              (
                (
                  omega (
                    arith,
                    held,
                    ap length bucket,
                    sorts.kept envs,
                    total-put st.current_wave (sort envs) st.messages_by_wave,
                  ),
                  max_wave-put st.current_wave (sort envs) st.messages_by_wave b least
                      (omega (arith, low, least)),
                  put-AllIn (Fits m) st.current_wave (sort envs) st.messages_by_wave within (
                      sorts.only (Fits m) envs (
                        subst (All (Fits m)) bucket
                          (get-AllIn (Fits m) st.current_wave st.messages_by_wave within))),
                  same,
                ),
                refl,
              )
      ]

  process_wave-Bound :
      (k b : ℕ) (m : Membership) (st : SemState)
      → Bound k b m st
      → Bound k b m (process_wave class_of visit sort st)
        × ((process_wave class_of visit sort st).current_wave ≡ st.current_wave)
  unfolding process_wave
  process_wave-Bound k b m st v =
      let st' = sorted_bucket class_of visit sort st in
      let same = apply_strict-waves (or_empty (get st'.current_wave st'.messages_by_wave)) st' in
      let (v', due) = sorted_bucket-Bound k b m st v in
      (subst (BoundOf k b m) (sym same) v', ap (λ w. w.1) same ∙ due)

  try_eager-Returns :
      (k b n : ℕ) (m : Membership) (st : SemState) (f : SemState → Progress)
      → Bound k b m st
      → k < n
      → ((st' : SemState)
          → Bound k b m st'
          → st'.current_wave ≡ st.current_wave
          → Returns k b m (f st'))
      → Returns k b m (and_then (try_eager_executions class_of visit sort n st) f)
  try_eager-Returns k b n m st f v h g =
      settled (try_eager_executions class_of visit sort n st) refl (
        try_eager-Settled class_of visit sort n st
          (enough class_of visit n st (omega (arith, visits.once st.messages_by_wave, v.0, h))))
    where
      fits : All (Fits st.membership) (visit st.messages_by_wave)
      fits =
          visits.only (Fits st.membership) st.messages_by_wave
            (subst (λ x. AllIn (Fits x) st.messages_by_wave) (sym v.3) v.2)

      settled :
          (p : Progress)
          → try_eager_executions class_of visit sort n st ≡ p
          → Settled class_of st p
          → Returns k b m (and_then p f)
      settled (done st') e same = g st' (subst (BoundOf k b m) (sym same) v) (ap (λ w. w.1) same)
      settled panicked e same = absurd (try_eager-runs class_of visit sort n st fits e)
      settled out_of_fuel e same = same

  at_wave-Returns :
      (k b : ℕ) (m : Membership) (st : SemState) (start : ℕ) (o : Option (Option ℕ))
      (f : SemState → Progress)
      → Bound k b m st
      → Finds class_of start st o
      → ((next : ℕ)
          → start ≤ next
          → next ≤ max_wave st.messages_by_wave
          → Returns k b m (f (record st { current_wave = next })))
      → Returns k b m (at_wave o st f)
  at_wave-Returns k b m st start none f w found h = found
  at_wave-Returns k b m st start (some none) f w found h = w
  at_wave-Returns k b m st start (some (some next)) f w (lo, hi) h = h next lo hi

  advance_wave-Returns :
      (k b eager n : ℕ) (m : Membership) (st : SemState)
      → Bound k b m st
      → b + 1 < 2 ^ 64
      → k < eager
      → b - st.current_wave < n
      → Returns k b m (advance_wave class_of visit sort eager n st)
  unfolding advance_wave
  advance_wave-Returns k b eager zero m st v room h lt = omega (arith, lt)
  advance_wave-Returns k b eager (suc n) m st v room h lt =
      elim (Bool-cases (wave_complete_local st st.current_wave)) [
        | inr e ↦ rw (advance_wave, e) v
        | inl e ↦ elim (Bool-cases (continuation_property st)) [
          | inr e' ↦ rw (advance_wave, e, e') v
          | inl e' ↦
              let (v', due) = process_wave-Bound k b m st v in
              let here = wave_complete_local-within st st.current_wave e in
              rw (advance_wave, e, e')
                (try_eager-Returns k b eager m (process_wave class_of visit sort st) _ v' h
                  (λ st' w same.
                    let start : u64 (st'.current_wave + 1) ≡ st.current_wave + 1 =
                      omega (arith, same ∙ due, here, v.1, room) in
                    at_wave-Returns k b m st' (u64 (st'.current_wave + 1)) _ _ w
                      (find_next_strict_wave-Finds class_of (u64 (st'.current_wave + 1)) st'
                        (omega (arith, w.1, room)))
                      (λ next lo hi.
                        advance_wave-Returns k b eager n m (record st' { current_wave = next }) w
                          room h (omega (arith, lo, hi, w.1, start, lt)))))
        ]
      ]

  pump-Returns :
      (k b eager fuel : ℕ) (m : Membership) (env : Envelope) (st : SemState)
      → Bound k b m st
      → wave_of (vector_of env) ≤ b
      → Fits m env
      → b + 1 < 2 ^ 64
      → k + 1 < eager
      → b < fuel
      → Returns (k + 1) b m (pump class_of visit sort eager fuel env st)
  unfolding pump
  pump-Returns k b eager fuel m env st v low fits room h h' =
      try_eager-Returns (k + 1) b eager m (observe env st) _ (observe-Bound k b m env st low fits v)
        h (λ st' w _. advance_wave-Returns (k + 1) b eager fuel m st' w room h (omega (arith, h')))

  pump_all-Returns :
      (k b eager fuel : ℕ) (m : Membership) (envs : List Envelope) (st : SemState)
      → Bound k b m st
      → All (λ env. wave_of (vector_of env) ≤ b) envs
      → All (Fits m) envs
      → b + 1 < 2 ^ 64
      → k + length envs < eager
      → b < fuel
      → Returns (k + length envs) b m (pump_all class_of visit sort eager fuel envs st)
  unfolding pump_all
  pump_all-Returns k b eager fuel m [] st (held, least, within, same) low fits room h h' =
      (omega (arith, held), least, within, same)
  pump_all-Returns k b eager fuel m (env ∷ envs) st v (low, lows) (fit, fits) room h h' =
      and_then-Returns (k + 1) (k + suc (length envs)) b m
        (pump class_of visit sort eager fuel env st) (pump_all class_of visit sort eager fuel envs)
        (pump-Returns k b eager fuel m env st v low fit room (omega (arith, h)) h')
        (λ st' w.
          subst (λ j. Returns j b m (pump_all class_of visit sort eager fuel envs st')) count
            (pump_all-Returns (k + 1) b eager fuel m envs st' w lows fits room (omega (arith, h))
              h'))
    where
      count : k + 1 + length envs ≡ k + suc (length envs)
      count = omega arith

  -- From a new `SemOrder`, with an eager loop of more fuel than there are deliveries and a loop over
  -- the waves of more fuel than the greatest wave, which is no less than two below the end of uint64,
  -- the pump answers all deliveries whose vectors do not go beyond the view.
  pub pump_all_returns :
      (b eager fuel : ℕ) (m : Membership) (envs : List Envelope)
      → All (λ env. wave_of (vector_of env) ≤ b) envs
      → All (Fits m) envs
      → b + 1 < 2 ^ 64
      → length envs < eager
      → b < fuel
      → (st : SemState) × (pump_all class_of visit sort eager fuel envs (new_sem_order m) ≡ done st)
  unfolding new_sem_order max_wave
  pump_all_returns b eager fuel m envs low fits room h h' =
      answered (pump_all class_of visit sort eager fuel envs (new_sem_order m)) (
        pump_all-Returns 0 b eager fuel m envs (new_sem_order m)
          (omega arith, omega arith, tt, refl) low fits room (omega (arith, h)) h')
    where
      answered : (p : Progress) → Returns (0 + length envs) b m p → (st : SemState) × (p ≡ done st)
      answered (done st) v = (st, refl)
      answered panicked v = absurd v
      answered out_of_fuel v = absurd v
