-- ===== src/Tests/Orders.antt =====
-- The theorems on order/total.go at a graph of one message.
use comlink.Common.{
  length, get_elem?, ◌++◌, ◌≢◌, ℕ, ◌+◌, ◌-◌, ◌<◌, ◌≡◌, refl, ℕ_discrete, some, List, [], ◌∷◌, arith,
  ◌≤◌, All, length-append,
}
use comlink.Order.Semantic.Loop.Fuel.{Waves, total, AllIn}
use comlink.Order.Semantic.Runs.{Fits}
use comlink.Order.Semantic.Returns.{IsVisit, IsSort}
use comlink.Common.{All-append}
use comlink.Psync.Graph.{wave_of}
use comlink.Messages.{vector_of, Envelope}
use comlink.Psync.Stability.Waves.{greatest_wave}
use comlink.Order.Total.{Total, drain_complete_waves}
use comlink.Order.Total.Drain.{IsEnded, drain_complete_waves_lem}
use comlink.Common.Assoc.{Assoc, Bytes, Bytes-discrete}
use comlink.Order.Semantic.{SemState, new_sem_order, observe}
use comlink.Order.Semantic.Loop.{done, out_of_fuel, try_eager_executions, pump_all}
use comlink.Order.Semantic.Causal.{IsApplied, AppliedBefore, Predecessors}
use comlink.Order.Semantic.Safety.{pump_all-Causal}
use comlink.Order.Semantic.Ends.{try_eager_executions_ends}
use comlink.Tests.Samples.{alice, bob_first, bob, view}
use comlink.Tests.Graphs.{one}

abbrev waiting : Total
waiting = record { apply = []; next_wave = 1; latest_wave = (bob, 1) ∷ (alice, 2) ∷ [] }

abbrev as_is : List Envelope → List Envelope
as_is envs = envs

room : greatest_wave one.by_wave + 1 - 1 < 3
unfolding greatest_wave
room = omega arith

drain_complete_waves_lem_example :
    IsEnded as_is view one waiting (drain_complete_waves as_is view one 3 waiting)
drain_complete_waves_lem_example = drain_complete_waves_lem as_is view one 3 waiting room

-- Bob's first message, of class 1, comes to a new semantic order.
abbrev eager_class : Bytes → ℕ
eager_class payload = 1

abbrev visit_all : Assoc ℕ (List Envelope) → List Envelope
visit_all [] = []
visit_all ((w, envs) ∷ rest) = envs ++ visit_all rest

visit_all-total : (ws : Waves) → length (visit_all ws) ≤ total ws
visit_all-total [] = omega arith
visit_all-total ((w, envs) ∷ rest) =
    omega (arith, length-append envs (visit_all rest), visit_all-total rest)

low_waves : All (λ env. wave_of (vector_of env) ≤ 1) (bob_first ∷ [])
unfolding wave_of
low_waves = (omega arith, tt)

visit_all_only : (P : Envelope → Type 0) (ws : Waves) → AllIn P ws → All P (visit_all ws)
visit_all_only P [] h = tt
visit_all_only P ((w, envs) ∷ rest) h =
    All-append P envs (visit_all rest) h.0 (visit_all_only P rest h.1)

visit_all-IsVisit : IsVisit visit_all
visit_all-IsVisit = record { only = visit_all_only; once = visit_all-total }

as_is-IsSort : IsSort as_is
as_is-IsSort = record { only = λ P xs h. h; kept = λ xs. refl }

fits : All (Fits view) (bob_first ∷ [])
fits = (omega arith, tt)

pump_all-Causal_example :
    (st : SemState) × (pump_all eager_class visit_all as_is 3 3
        (bob_first ∷ [])
        (new_sem_order view)
      ≡ done st)
    × ((i j : ℕ) (s : Bytes) (q : ℕ)
        → IsApplied st.membership st.apply s q i
        → IsApplied st.membership st.apply s q j
        → i ≡ j)
    × ((i : ℕ) (env : Envelope)
        → get_elem? st.apply i ≡ some env
        → eager_class env.payload ≡ 1
        → Predecessors st.membership (AppliedBefore st.membership st.apply i) env)
pump_all-Causal_example =
    pump_all-Causal eager_class visit_all as_is 1 3 3 view (bob_first ∷ []) visit_all-IsVisit
      as_is-IsSort low_waves fits (omega arith) (omega arith) (omega arith)

fuel : length (visit_all (observe bob_first (new_sem_order view)).messages_by_wave) < 3
unfolding observe new_sem_order Bytes-discrete ℕ_discrete
fuel = omega arith

try_eager_executions_ends_example :
    try_eager_executions eager_class visit_all as_is 3 (observe bob_first (new_sem_order view))
    ≢ out_of_fuel
try_eager_executions_ends_example =
    try_eager_executions_ends eager_class visit_all as_is 3 (observe bob_first (new_sem_order view))
      fuel
