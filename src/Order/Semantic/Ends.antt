-- ===== src/Order/Semantic/Ends.antt =====
-- `tryEagerExecutions` of order/semorder.go ends: each of its rounds but the last executes something.
use comlink.Common.{
  ℕ, zero, suc, ◌+◌, ◌≤◌, ◌<◌, ◌≡◌, ◌≢◌, refl, sym, ◌∙◌, ap, subst, ◌⊎◌, inl, inr, Bool, true,
  false, not, Option, none, some, List, [], ◌∷◌, ◌++◌, arith, if◌then◌else◌, by_if, Bool-cases,
  Option-cases, length,
}
use comlink.Common.Assoc.{Assoc, Bytes, index_key, put, get-put_self}
use comlink.Common.Result.{ok, err, Result-cases}
use comlink.Messages.{Envelope, id_of, sender_of}
use comlink.Order.Semantic.{
  SemState, is_executed_key, is_executed, apply_env, predecessors_executed, is_some,
}
use comlink.Order.Semantic.Causal.{recorded-put}
use comlink.Order.Semantic.Loop.{
  Progress, done, panicked, out_of_fuel, is_class1, eager_if, eager_one, eager_round,
  try_eager_executions,
}
use comlink.Psync.Membership.{Membership, SeqError, sender_seq, slot_of}

-- What is executed stays so.
abbrev Grows : SemState → SemState → Type 0
Grows st st' = (env : Envelope) → is_executed st env ≡ true → is_executed st' env ≡ true

-- How many of the envelopes are not executed.
abbrev pending : SemState → List Envelope → ℕ
pending st [] = 0
pending st (env ∷ envs) = (if is_executed st env then 0 else 1) + pending st envs

pending-Grows :
    (st st' : SemState) (envs : List Envelope) → Grows st st' → pending st' envs ≤ pending st envs
pending-Grows st st' [] g = omega arith
pending-Grows st st' (env ∷ envs) g = elim (Bool-cases (is_executed st env)) [
  | inl e ↦ rw (e, g env e) (omega (arith, pending-Grows st st' envs g))
  | inr e ↦ rw e (elim (Bool-cases (is_executed st' env)) [
    | inl e' ↦ rw e' (omega (arith, pending-Grows st st' envs g))
    | inr e' ↦ rw e' (omega (arith, pending-Grows st st' envs g))
  ])
]

pending-le : (st : SemState) (envs : List Envelope) → pending st envs ≤ length envs
pending-le st [] = omega arith
pending-le st (env ∷ envs) = ground (arith, pending-le st envs)

-- The operation `env` with the number `q` is executed.
abbrev executed_now : SemState → Envelope → ℕ → SemState
executed_now st env q = record st {
  executed = put (sender_of env, q) tt st.executed;
  apply = st.apply ++ env ∷ [];
}

executed_now-Grows : (st : SemState) (env : Envelope) (q : ℕ) → Grows st (executed_now st env q)
unfolding is_executed is_executed_key
executed_now-Grows st env q e h = elim (Result-cases (sender_seq st.membership (id_of e))) [
  | inr (x, p) ↦ let z : is_executed st e ≡ false = rw (is_executed, p) refl in cc (z, h)
  | inl (n, p) ↦
      let z : is_executed st e ≡ is_executed_key st (sender_of e) n = rw (is_executed, p) refl in
      rw (is_executed, p) (recorded-put (sender_of e, n) (sender_of env, q) st.executed (sym z ∙ h))
]

executed_now_lem :
    (st : SemState) (env : Envelope) (q : ℕ)
    → sender_seq st.membership (id_of env) ≡ ok q
    → is_executed (executed_now st env q) env ≡ true
unfolding is_executed is_executed_key
executed_now_lem st env q p =
    rw (is_executed, p) (ap is_some (get-put_self (sender_of env, q) tt st.executed))

-- What the eager loop leaves alone: the envelopes of the waves, the wave that is due, and the view.
abbrev pub waves : SemState → Assoc ℕ (List Envelope) × ℕ × Membership
waves st = (st.messages_by_wave, st.current_wave, st.membership)

-- What a step from `st` to `st'` has executed of `envs`, where it has progressed.
abbrev Progressed : SemState → List Envelope → Bool → Option (SemState × Bool) → Type 0
Progressed st envs before none = Unit
Progressed st envs before (some (st', progressed)) =
    Grows st st'
    × (waves st' ≡ waves st)
    × (progressed ≡ true → (before ≡ true) ⊎ (pending st' envs < pending st envs))

-- A step and then others.
then-Progressed :
    (st st1 : SemState) (env : Envelope) (envs : List Envelope) (before p1 : Bool)
    (o : Option (SemState × Bool))
    → Progressed st (env ∷ []) before (some (st1, p1))
    → Progressed st1 envs p1 o
    → Progressed st (env ∷ envs) before o
then-Progressed st st1 env envs before p1 none first rest = tt
then-Progressed st st1 env envs before p1 (some (st2, p2)) (g, same, f) (g', same', f') = (
  (λ e h. g' e (g e h)),
  same' ∙ same,
  λ h. elim (f' h) [
    | inr lt ↦ inr (
        omega (
          arith,
          lt,
          pending-Grows st st2 (env ∷ []) (λ e h. g' e (g e h)),
          pending-Grows st st1 envs g,
        ))
    | inl h1 ↦ elim (f h1) [
      | inl h0 ↦ inl h0
      | inr lt ↦ inr (
          omega (
            arith,
            lt,
            pending-Grows st1 st2 (env ∷ []) g',
            pending-Grows st1 st2 envs g',
            pending-Grows st st1 envs g,
          ))
    ]
  ],
)

-- An operation without a number does not run.
no_number :
    (env : Envelope) (st : SemState) (x : SeqError)
    → sender_seq st.membership (id_of env) ≡ err x
    → predecessors_executed st env ≡ some false
unfolding predecessors_executed
no_number env st x p = elim (Option-cases (slot_of st.membership (sender_of env))) [
  | inl q ↦ rw (predecessors_executed, q) refl
  | inr (own, q) ↦ rw (predecessors_executed, q, p) refl
]

module _ (class_of : Bytes → ℕ) where
  eager_if-Progressed :
      (env : Envelope) (st : SemState) (before : Bool) (o : Option Bool)
      → is_executed st env ≡ false
      → predecessors_executed st env ≡ o
      → Progressed st (env ∷ []) before (eager_if env st before o)
  unfolding apply_env
  eager_if-Progressed env st before none new e = tt
  eager_if-Progressed env st before (some false) new e = ((λ env h. h), refl, λ h. inl h)
  eager_if-Progressed env st before (some true) new e =
      elim (Result-cases (sender_seq st.membership (id_of env))) [
        | inr (x, p) ↦ let z = no_number env st x p in cc (z, e)
        | inl (q, p) ↦
            rw (apply_env, p)
              (
                executed_now-Grows st env q,
                refl,
                λ h. inr (rw (new, executed_now_lem st env q p) (omega arith)),
              )
      ]

  eager_one-Progressed :
      (env : Envelope) (st : SemState) (before : Bool)
      → Progressed st (env ∷ []) before (eager_one class_of env st before)
  unfolding eager_one
  eager_one-Progressed env st before =
      by_if Fine (not (is_class1 class_of env)) _ _ (λ _. same)
        λ _.
          by_if Fine (is_executed st env) _ _ (λ _. same)
            λ new. eager_if-Progressed env st before (predecessors_executed st env) new refl
    where
      Fine : Option (SemState × Bool) → Type 0
      Fine = Progressed st (env ∷ []) before

      same : Fine (some (st, before))
      same = ((λ env h. h), refl, λ h. inl h)

  eager_round-Progressed :
      (envs : List Envelope) (st : SemState) (before : Bool)
      → Progressed st envs before (eager_round class_of envs st before)
  unfolding eager_round
  eager_round-Progressed [] st before = ((λ env h. h), refl, λ h. inl h)
  eager_round-Progressed (env ∷ envs) st before =
      elim (Option-cases (eager_one class_of env st before)) [
        | inl e ↦ rw (eager_round, e) tt
        | inr ((st1, p1), e) ↦
            let first =
              subst (Progressed st (env ∷ []) before) e (eager_one-Progressed env st before) in
            rw (eager_round, e)
              (then-Progressed st st1 env envs before p1 (eager_round class_of envs st1 p1) first
                (eager_round-Progressed envs st1 p1))
      ]

  pub eager_one-waves :
      (env : Envelope) (st st' : SemState) (before after : Bool)
      → eager_one class_of env st before ≡ some (st', after)
      → waves st' ≡ waves st
  eager_one-waves env st st' before after e =
      (subst (Progressed st (env ∷ []) before) e (eager_one-Progressed env st before)).1

  pub eager_round-waves :
      (envs : List Envelope) (st st' : SemState) (before after : Bool)
      → eager_round class_of envs st before ≡ some (st', after)
      → waves st' ≡ waves st
  eager_round-waves envs st st' before after e =
      (subst (Progressed st envs before) e (eager_round-Progressed envs st before)).1

  -- A loop from `st` has not been cut short, and has left the waves alone.
  abbrev pub Settled : SemState → Progress → Type 0
  Settled st (done st') = waves st' ≡ waves st
  Settled st panicked = Unit
  Settled st out_of_fuel = ⊥

  Settled-step :
      (st st' : SemState) (p : Progress) → waves st' ≡ waves st → Settled st' p → Settled st p
  Settled-step st st' (done st2) same h = h ∙ same
  Settled-step st st' panicked same h = tt
  Settled-step st st' out_of_fuel same h = h

  pub try_eager-Settled :
      (visit : Assoc ℕ (List Envelope) → List Envelope) (sort : List Envelope → List Envelope)
      (n : ℕ) (st : SemState)
      → pending st (visit st.messages_by_wave) < n
      → Settled st (try_eager_executions class_of visit sort n st)
  unfolding try_eager_executions
  try_eager-Settled visit sort zero st h = elim h [ ]
  try_eager-Settled visit sort (suc n) st h =
      let envs = visit st.messages_by_wave in
      elim (Option-cases (eager_round class_of envs st false)) [
        | inl q ↦ rw (try_eager_executions, q) tt
        | inr ((st', false), q) ↦
            let (_, same, _) =
              subst (Progressed st envs false) q (eager_round-Progressed envs st false) in
            rw (try_eager_executions, q) same
        | inr ((st', true), q) ↦
            let (_, same, f) =
              subst (Progressed st envs false) q (eager_round-Progressed envs st false) in
            rw (try_eager_executions, q)
              (Settled-step st st' _ same
                (try_eager-Settled visit sort n st' (fewer st' (ap (λ w. w.0) same) (f refl))))
      ]
    where
      fewer :
          (st' : SemState)
          → st'.messages_by_wave ≡ st.messages_by_wave
          → (false ≡ true)
            ⊎ (pending st' (visit st.messages_by_wave) < pending st (visit st.messages_by_wave))
          → pending st' (visit st'.messages_by_wave) < n
      fewer st' same (inl x) = cc x
      fewer st' same (inr lt) = rw same (omega (arith, lt, h))

  pub enough :
      (visit : Assoc ℕ (List Envelope) → List Envelope) (n : ℕ) (st : SemState)
      → length (visit st.messages_by_wave) < n
      → pending st (visit st.messages_by_wave) < n
  enough visit n st h = omega (arith, pending-le st (visit st.messages_by_wave), h)

  -- With more fuel than there are envelopes to visit, the loop of `tryEagerExecutions` ends.
  pub try_eager_executions_ends :
      (visit : Assoc ℕ (List Envelope) → List Envelope) (sort : List Envelope → List Envelope)
      (n : ℕ) (st : SemState)
      → length (visit st.messages_by_wave) < n
      → try_eager_executions class_of visit sort n st ≢ out_of_fuel
  try_eager_executions_ends visit sort n st h e =
      subst (Settled st) e (try_eager-Settled visit sort n st (enough visit n st h))
