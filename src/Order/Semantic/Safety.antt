-- ===== src/Order/Semantic/Safety.antt =====
-- The loops of order/semorder.go keep what `IsCausal` says of the operations that were applied.
use comlink.Common.{
  ℕ, zero, suc, ◌≡◌, refl, sym, ◌∙◌, subst, inl, inr, Bool, true, false, not, Option, none, some,
  List, [], ◌∷◌, arith, by_if, Bool-cases, Option-cases, get_elem?, ◌≤◌, ◌<◌, length, All, ◌^◌, ◌+◌,
}
use comlink.Order.Semantic.Returns.{IsVisit, IsSort, pump_all_returns}
use comlink.Order.Semantic.Runs.{Fits}
use comlink.Common.Assoc.{Assoc, Bytes, nat_key, index_key, get}
use comlink.Common.Result.{Result-cases}
use comlink.Messages.{Envelope, id_of, sender_of, vector_of}
use comlink.Order.Semantic.{
  SemState, new_sem_order, observe, observe_new, is_executed_key, is_executed, apply_env,
  predecessors_executed, wave_complete_local, continuation_property, is_some, or_empty,
}
use comlink.Order.Semantic.Causal.{
  IsCausal, IsApplied, AppliedBefore, Predecessors, applied-IsCausal,
  predecessors_executed-Predecessors,
}
use comlink.Order.Semantic.Loop.{
  Progress, done, panicked, out_of_fuel, and_then, is_class1, eager_if, eager_one, eager_round,
  try_eager_executions, apply_strict, sorted_bucket, process_wave, at_wave, advance_wave, pump,
  pump_all,
}
use comlink.Psync.Graph.{wave_of}
use comlink.Psync.Membership.{Membership, sender_seq}

module _ (class_of : Bytes → ℕ) where
  abbrev pub Causal : SemState → Type 0
  Causal st = IsCausal class_of st.membership st.executed st.apply

  apply_env-Causal :
      (env : Envelope) (st : SemState)
      → Causal st
      → is_executed st env ≡ false
      → (is_class1 class_of env ≡ true → predecessors_executed st env ≡ some true)
      → Causal (apply_env env st)
  unfolding apply_env is_executed is_executed_key is_class1
  apply_env-Causal env st v new ready = elim (Result-cases (sender_seq st.membership (id_of env))) [
    | inr (e, p) ↦ rw (apply_env, p) v
    | inl (q, p) ↦
        let z : is_executed st env ≡ is_executed_key st (sender_of env) q =
          rw (is_executed, p) refl in
        rw (apply_env, p)
          (applied-IsCausal class_of st.membership st.executed st.apply env q v p (sym z ∙ new)
            (λ one. predecessors_executed-Predecessors st env (ready (ground (arith, one)))))
  ]

  -- A round that does not panic ends in such a state.
  abbrev CausalRound : Option (SemState × Bool) → Type 0
  CausalRound none = Unit
  CausalRound (some r) = Causal r.0

  eager_if-Causal :
      (env : Envelope) (st : SemState) (progressed : Bool) (o : Option Bool)
      → Causal st
      → is_executed st env ≡ false
      → predecessors_executed st env ≡ o
      → CausalRound (eager_if env st progressed o)
  eager_if-Causal env st progressed none v new e = tt
  eager_if-Causal env st progressed (some false) v new e = v
  eager_if-Causal env st progressed (some true) v new e = apply_env-Causal env st v new (λ _. e)

  eager_one-Causal :
      (env : Envelope) (st : SemState) (progressed : Bool)
      → Causal st
      → CausalRound (eager_one class_of env st progressed)
  unfolding eager_one
  eager_one-Causal env st progressed v =
      by_if CausalRound (not (is_class1 class_of env)) _ _ (λ _. v)
        λ _.
          by_if CausalRound (is_executed st env) _ _ (λ _. v)
            λ new. eager_if-Causal env st progressed (predecessors_executed st env) v new refl

  eager_round-Causal :
      (envs : List Envelope) (st : SemState) (progressed : Bool)
      → Causal st
      → CausalRound (eager_round class_of envs st progressed)
  unfolding eager_round
  eager_round-Causal [] st progressed v = v
  eager_round-Causal (env ∷ envs) st progressed v =
      elim (Option-cases (eager_one class_of env st progressed)) [
        | inl e ↦ rw (eager_round, e) tt
        | inr (r, e) ↦
            rw (eager_round, e)
              (eager_round-Causal envs r.0 r.1
                (subst CausalRound e (eager_one-Causal env st progressed v)))
      ]

  apply_strict-Causal :
      (envs : List Envelope) (st : SemState) → Causal st → Causal (apply_strict class_of envs st)
  unfolding apply_strict
  apply_strict-Causal [] st v = v
  apply_strict-Causal (env ∷ envs) st v = apply_strict-Causal envs _ (
      by_if Causal (is_class1 class_of env) _ _ (λ _. v)
        λ strict.
          by_if Causal (is_executed st env) _ _ (λ _. v)
            λ new. apply_env-Causal env st v new (λ one. cc (one, strict)))

  observe-Causal : (env : Envelope) (st : SemState) → Causal st → Causal (observe env st)
  unfolding observe observe_new
  observe-Causal env st v = elim (Result-cases (sender_seq st.membership (id_of env))) [
    | inr (e, p) ↦ rw (observe, p) v
    | inl (q, p) ↦
        rw (observe, p)
          (by_if Causal
            (is_some
              (get (sender_of env, q) (or_empty (get (wave_of (vector_of env)) st.seen_in_wave))))
            _ _ (λ _. v) (λ _. v))
  ]

  -- A loop that is done ends in such a state.
  abbrev pub CausalEnd : Progress → Type 0
  CausalEnd (done st) = Causal st
  CausalEnd panicked = Unit
  CausalEnd out_of_fuel = Unit

  and_then-Causal :
      (p : Progress) (f : SemState → Progress)
      → CausalEnd p
      → ((st : SemState) → Causal st → CausalEnd (f st))
      → CausalEnd (and_then p f)
  and_then-Causal (done st) f v h = h st v
  and_then-Causal panicked f v h = tt
  and_then-Causal out_of_fuel f v h = tt

  at_wave-Causal :
      (o : Option (Option ℕ)) (st : SemState) (f : SemState → Progress)
      → Causal st
      → ((st' : SemState) → Causal st' → CausalEnd (f st'))
      → CausalEnd (at_wave o st f)
  at_wave-Causal none st f v h = tt
  at_wave-Causal (some none) st f v h = v
  at_wave-Causal (some (some next)) st f v h = h (record st { current_wave = next }) v

  module _ (visit : Assoc ℕ (List Envelope) → List Envelope)
      (sort : List Envelope → List Envelope) where
    try_eager-Causal :
        (n : ℕ) (st : SemState)
        → Causal st
        → CausalEnd (try_eager_executions class_of visit sort n st)
    unfolding try_eager_executions
    try_eager-Causal zero st v = tt
    try_eager-Causal (suc n) st v =
        elim (Option-cases (eager_round class_of (visit st.messages_by_wave) st false)) [
          | inl e ↦ rw (try_eager_executions, e) tt
          | inr ((st', true), e) ↦
              rw (try_eager_executions, e)
                (try_eager-Causal n st'
                  (subst CausalRound e (eager_round-Causal (visit st.messages_by_wave) st false v)))
          | inr ((st', false), e) ↦
              rw (try_eager_executions, e)
                (subst CausalRound e (eager_round-Causal (visit st.messages_by_wave) st false v))
        ]

    sorted_bucket-Causal :
        (st : SemState) → Causal st → Causal (sorted_bucket class_of visit sort st)
    unfolding sorted_bucket
    sorted_bucket-Causal st v = elim (Option-cases (get st.current_wave st.messages_by_wave)) [
      | inl e ↦ rw (sorted_bucket, e) v
      | inr (envs, e) ↦ rw (sorted_bucket, e) v
    ]

    process_wave-Causal : (st : SemState) → Causal st → Causal (process_wave class_of visit sort st)
    unfolding process_wave
    process_wave-Causal st v =
        let st' = sorted_bucket class_of visit sort st in
        apply_strict-Causal (or_empty (get st'.current_wave st'.messages_by_wave)) st'
          (sorted_bucket-Causal st v)

    advance_wave-Causal :
        (eager_fuel n : ℕ) (st : SemState)
        → Causal st
        → CausalEnd (advance_wave class_of visit sort eager_fuel n st)
    unfolding advance_wave
    advance_wave-Causal eager_fuel zero st v = tt
    advance_wave-Causal eager_fuel (suc n) st v =
        elim (Bool-cases (wave_complete_local st st.current_wave)) [
          | inr e ↦ rw (advance_wave, e) v
          | inl e ↦ elim (Bool-cases (continuation_property st)) [
            | inr e' ↦ rw (advance_wave, e, e') v
            | inl e' ↦
                rw (advance_wave, e, e')
                  (and_then-Causal _ _ (try_eager-Causal eager_fuel _ (process_wave-Causal st v))
                    (λ st' v'. at_wave-Causal _ st' _ v' (advance_wave-Causal eager_fuel n)))
          ]
        ]

    pump_all-CausalEnd :
        (eager_fuel fuel : ℕ) (envs : List Envelope) (st : SemState)
        → Causal st
        → CausalEnd (pump_all class_of visit sort eager_fuel fuel envs st)
    unfolding pump_all pump
    pump_all-CausalEnd eager_fuel fuel [] st v = v
    pump_all-CausalEnd eager_fuel fuel (env ∷ envs) st v =
        and_then-Causal _ _
          (and_then-Causal _ _ (try_eager-Causal eager_fuel _ (observe-Causal env st v))
            (advance_wave-Causal eager_fuel fuel))
          (pump_all-CausalEnd eager_fuel fuel envs)

    new_sem_order-Causal : (m : Membership) → Causal (new_sem_order m)
    unfolding new_sem_order get
    new_sem_order-Causal m = record {
      recorded = λ s q h. cc;
      keyed = λ i env h. cc;
      once = λ i j s q p r. cc p.1;
      behind = λ i env h. cc;
    }

    -- A new `SemOrder` answers any deliveries with vectors that do not go beyond its view, and with waves
    -- at least two below the end of uint64: with an eager loop of more fuel than there are deliveries, a
    -- loop over the waves of more fuel than the greatest wave, and a visit of the map and a sort as Go
    -- documents them. Once it has answered, it has applied no operation twice, and each one of class 1
    -- only behind the operations that its vector names, which are the one before it of its own sender
    -- and the latest of every other replica.
    pub pump_all-Causal :
        (b eager_fuel fuel : ℕ) (m : Membership) (envs : List Envelope)
        → IsVisit visit
        → IsSort sort
        → All (λ env. wave_of (vector_of env) ≤ b) envs
        → All (Fits m) envs
        → b + 1 < 2 ^ 64
        → length envs < eager_fuel
        → b < fuel
        → (st : SemState) × (pump_all class_of visit sort eager_fuel fuel envs (new_sem_order m)
            ≡ done st)
          × ((i j : ℕ) (s : Bytes) (q : ℕ)
              → IsApplied st.membership st.apply s q i
              → IsApplied st.membership st.apply s q j
              → i ≡ j)
          × ((i : ℕ) (env : Envelope)
              → get_elem? st.apply i ≡ some env
              → class_of env.payload ≡ 1
              → Predecessors st.membership (AppliedBefore st.membership st.apply i) env)
    pump_all-Causal b eager_fuel fuel m envs visits sorts low fits room h h' =
        let (st, e) =
          pump_all_returns class_of visit sort visits sorts b eager_fuel fuel m envs low fits room h
            h' in
        let v =
          subst CausalEnd e
            (pump_all-CausalEnd eager_fuel fuel envs (new_sem_order m) (new_sem_order-Causal m)) in
        (st, e, v.once, v.behind)
