-- ===== src/Order/Semantic/Loop.antt =====
-- The loops of order/semorder.go that apply operations.
pub mod Fuel
use comlink.Common.{
  ℕ, zero, suc, ◌+◌, ◌-◌, Bool, true, false, not, Option, none, some, List, [], ◌∷◌, ltb, ◌==◌,
  if◌then◌else◌,
}
use comlink.Common.Assoc.{Assoc, Bytes, nat_key, get, put}
use comlink.Messages.{Envelope}
use comlink.Order.Semantic.{
  SemState, observe, is_executed, apply_env, predecessors_executed, wave_complete_local,
  continuation_property, max_observed_wave, or_empty,
}
use comlink.Psync.Vector.{u64}

-- How a loop ends: with a state, with the panic of `predecessorsExecuted`, or cut short.
pub data Progress : Type 0 where
  done : SemState → Progress
  panicked out_of_fuel : Progress

abbrev pub and_then : Progress → (SemState → Progress) → Progress
and_then (done st) f = f st
and_then panicked f = panicked
and_then out_of_fuel f = out_of_fuel

-- What a round of `tryEagerExecutions` does with an operation whose predecessors are asked for.
abbrev pub eager_if : Envelope → SemState → Bool → Option Bool → Option (SemState × Bool)
eager_if env st progressed none = none
eager_if env st progressed (some false) = some (st, progressed)
eager_if env st progressed (some true) = some (apply_env env st, true)

-- The step to the next wave, where the search has ended and there is one.
abbrev pub at_wave : Option (Option ℕ) → SemState → (SemState → Progress) → Progress
at_wave none st f = out_of_fuel
at_wave (some none) st f = done st
at_wave (some (some next)) st f = f (record st { current_wave = next })

module _ (class_of : Bytes → ℕ) where
  unfoldable pub is_class1 : Envelope → Bool
  is_class1 env = class_of env.payload == 1

  unfoldable pub eager_one : Envelope → SemState → Bool → Option (SemState × Bool)
  unfolding is_class1 is_executed predecessors_executed apply_env
  eager_one env st progressed =
      if not (is_class1 env)
      then some (st, progressed)
      else if is_executed st env
      then some (st, progressed)
      else eager_if env st progressed (predecessors_executed st env)

  unfoldable pub eager_round : List Envelope → SemState → Bool → Option (SemState × Bool)
  unfolding eager_one
  eager_round [] st progressed = some (st, progressed)
  eager_round (env ∷ envs) st progressed = elim (eager_one env st progressed) [
    | none ↦ none
    | some (st', progressed') ↦ eager_round envs st' progressed'
  ]

  -- The loop of `advanceWave` over the sorted envelopes of the wave.
  unfoldable pub apply_strict : List Envelope → SemState → SemState
  unfolding is_class1 is_executed apply_env
  apply_strict [] st = st
  apply_strict (env ∷ envs) st =
      apply_strict envs
        (if is_class1 env then st else if is_executed st env then st else apply_env env st)

  has_strict : List Envelope → Bool
  unfolding is_class1
  has_strict [] = false
  has_strict (env ∷ envs) = let rest = has_strict envs in if is_class1 env then rest else true

  -- The loop of `findNextStrictWave`, whose counter wraps around: `none` where it is cut short, which
  -- is where the code goes on for ever.
  find_from : ℕ → ℕ → SemState → Option (Option ℕ)
  unfolding has_strict get
  find_from zero candidate st = none
  find_from (suc n) candidate st =
      let rest = find_from n (u64 (candidate + 1)) st in
      if has_strict (or_empty (get candidate st.messages_by_wave))
      then some (some candidate)
      else if ltb (max_observed_wave st) candidate
      then some none
      else rest

  unfoldable pub find_next_strict_wave : ℕ → SemState → Option (Option ℕ)
  unfolding find_from max_observed_wave
  find_next_strict_wave start st = find_from (suc (max_observed_wave st + 1 - start)) start st

module _ (class_of : Bytes → ℕ) (visit : Assoc ℕ (List Envelope) → List Envelope)
    (sort : List Envelope → List Envelope) where
  -- `tryEagerExecutions`.
  unfoldable pub try_eager_executions : ℕ → SemState → Progress
  unfolding eager_round
  try_eager_executions zero st = out_of_fuel
  try_eager_executions (suc n) st =
      elim (eager_round class_of (visit st.messages_by_wave) st false) [
        | none ↦ panicked
        | some (st', true) ↦ try_eager_executions n st'
        | some (st', false) ↦ done st'
      ]

  -- `sort.Slice` sorts the bucket of the current wave in place.
  unfoldable pub sorted_bucket : SemState → SemState
  unfolding get put
  sorted_bucket st = elim (get st.current_wave st.messages_by_wave) [
    | none ↦ st
    | some envs ↦ record st {
      messages_by_wave = put st.current_wave (sort envs) st.messages_by_wave;
    }
  ]

  -- What `advanceWave` does with a wave that it processes, up to the retry of class 1.
  unfoldable pub process_wave : SemState → SemState
  unfolding sorted_bucket apply_strict
  process_wave st =
      let st' = sorted_bucket st in
      apply_strict class_of (or_empty (get st'.current_wave st'.messages_by_wave)) st'

  unfoldable pub advance_wave : ℕ → ℕ → SemState → Progress
  unfolding wave_complete_local continuation_property process_wave try_eager_executions
      find_next_strict_wave
  advance_wave eager_fuel zero st = out_of_fuel
  advance_wave eager_fuel (suc n) st = elim (wave_complete_local st st.current_wave) [
    | false ↦ done st
    | true ↦ elim (continuation_property st) [
      | false ↦ done st
      | true ↦ and_then (try_eager_executions eager_fuel (process_wave st)) λ st'.
          at_wave (find_next_strict_wave class_of (u64 (st'.current_wave + 1)) st') st'
            (advance_wave eager_fuel n)
    ]
  ]

  -- One round of `pump`.
  unfoldable pub pump : ℕ → ℕ → Envelope → SemState → Progress
  unfolding observe try_eager_executions advance_wave
  pump eager_fuel fuel env st =
      and_then (try_eager_executions eager_fuel (observe env st)) (advance_wave eager_fuel fuel)

  -- The rounds of `pump` for the deliveries in their order.
  unfoldable pub pump_all : ℕ → ℕ → List Envelope → SemState → Progress
  unfolding pump
  pump_all eager_fuel fuel [] st = done st
  pump_all eager_fuel fuel (env ∷ envs) st =
      and_then (pump eager_fuel fuel env st) (pump_all eager_fuel fuel envs)
