-- ===== src/Order/Semantic/Runs.antt =====
-- Where the pump of order/semorder.go does not panic: the vectors do not go beyond its view.
use comlink.Common.{
  ℕ, zero, suc, ◌+◌, ◌≤◌, ◌≡◌, ◌≢◌, refl, sym, ap, subst, ◌∙◌, inl, inr, Bool, true, false, not,
  Option, none, some, List, [], ◌∷◌, arith, by_if, Option-cases, length, All, get_elem?_total, ◌==◌,
  ◌-◌, leb, if◌then◌else◌,
}
use comlink.Common.Assoc.{Assoc, Bytes}
use comlink.Common.Result.{Result-cases}
use comlink.Messages.{Envelope, id_of, sender_of, vector_of}
use comlink.Order.Semantic.{
  SemState, is_executed, is_executed_key, other_executed, entry_executed, predecessors_from,
  predecessors_executed,
}
use comlink.Order.Semantic.Ends.{eager_one-waves, eager_round-waves}
use comlink.Order.Semantic.Loop.{
  done, panicked, is_class1, eager_if, eager_one, eager_round, try_eager_executions,
}
use comlink.Psync.Membership.{Membership, replica, sender_seq, slot_of}
use comlink.Psync.Vector.{Vector}

-- The vector has no slot beyond the view.
abbrev pub Fits : Membership → Envelope → Type 0
Fits m env = length (vector_of env) ≤ length m.replicas

-- The test ends, one way or the other.
abbrev Ends : Option Bool → Type 0
Ends o = (b : Bool) × (o ≡ some b)

other_executed-Ends :
    (st : SemState) (slot dep : ℕ) (rest : Option Bool)
    → suc slot ≤ length st.membership.replicas
    → Ends rest
    → Ends (other_executed st dep (replica st.membership slot) rest)
unfolding other_executed replica
other_executed-Ends st slot dep rest h v =
    let (r, e) = get_elem?_total st.membership.replicas slot h in
    rw (other_executed, e)
      (by_if Ends (is_executed_key st r dep) rest (some false) (λ _. v) (λ _. (false, refl)))

entry_executed-Ends :
    (st : SemState) (s : Bytes) (own seq slot dep : ℕ) (rest : Option Bool)
    → suc slot ≤ length st.membership.replicas
    → Ends rest
    → Ends (entry_executed st s own seq slot dep rest)
unfolding entry_executed
entry_executed-Ends st s own seq slot dep rest h v =
    by_if Ends (slot == own)
      (if leb seq 1 then rest else if is_executed_key st s (seq - 1) then rest else some false)
      (if dep == 0 then rest else other_executed st dep (replica st.membership slot) rest)
      (λ _.
        by_if Ends (leb seq 1) rest (if is_executed_key st s (seq - 1) then rest else some false)
          (λ _. v)
          λ _.
            by_if Ends (is_executed_key st s (seq - 1)) rest (some false) (λ _. v)
              (λ _. (false, refl)))
      λ _.
        by_if Ends (dep == 0) rest (other_executed st dep (replica st.membership slot) rest)
          (λ _. v) λ _. other_executed-Ends st slot dep rest h v

predecessors_from-Ends :
    (st : SemState) (s : Bytes) (own seq slot : ℕ) (v : Vector)
    → slot + length v ≤ length st.membership.replicas
    → Ends (predecessors_from st s own seq slot v)
unfolding predecessors_from
predecessors_from-Ends st s own seq slot [] h = (true, refl)
predecessors_from-Ends st s own seq slot (dep ∷ v) h =
    entry_executed-Ends st s own seq slot dep _ (omega (arith, h))
      (predecessors_from-Ends st s own seq (slot + 1) v (omega (arith, h)))

predecessors_executed-Ends :
    (st : SemState) (env : Envelope) → Fits st.membership env → Ends (predecessors_executed st env)
unfolding predecessors_executed
predecessors_executed-Ends st env fits =
    elim (Option-cases (slot_of st.membership (sender_of env))) [
      | inl q ↦ rw (predecessors_executed, q) (false, refl)
      | inr (own, q) ↦ elim (Result-cases (sender_seq st.membership (id_of env))) [
        | inr (x, p) ↦ rw (predecessors_executed, q, p) (false, refl)
        | inl (seq, p) ↦
            rw (predecessors_executed, q, p)
              (predecessors_from-Ends st (sender_of env) own seq 0 (vector_of env)
                (omega (arith, fits)))
      ]
    ]

module _ (class_of : Bytes → ℕ) where
  abbrev Goes : Option (SemState × Bool) → Type 0
  Goes o = (out : SemState × Bool) × (o ≡ some out)

  eager_if-Goes :
      (env : Envelope) (st : SemState) (before : Bool) (o : Option Bool)
      → Ends o
      → Goes (eager_if env st before o)
  eager_if-Goes env st before none (b, e) = cc e
  eager_if-Goes env st before (some true) v = (_, refl)
  eager_if-Goes env st before (some false) v = (_, refl)

  eager_one-Goes :
      (env : Envelope) (st : SemState) (before : Bool)
      → Fits st.membership env
      → Goes (eager_one class_of env st before)
  unfolding eager_one
  eager_one-Goes env st before fits =
      by_if Goes (not (is_class1 class_of env)) _ _ (λ _. (_, refl))
        λ _.
          by_if Goes (is_executed st env) _ _ (λ _. (_, refl))
            λ _.
              eager_if-Goes env st before (predecessors_executed st env)
                (predecessors_executed-Ends st env fits)

  eager_round-Goes :
      (envs : List Envelope) (st : SemState) (before : Bool)
      → All (Fits st.membership) envs
      → Goes (eager_round class_of envs st before)
  unfolding eager_round
  eager_round-Goes [] st before fits = (_, refl)
  eager_round-Goes (env ∷ envs) st before fits =
      let ((st1, p1), e) = eager_one-Goes env st before fits.0 in
      let same : st1.membership ≡ st.membership =
        ap (λ w. w.2) (eager_one-waves class_of env st st1 before p1 e) in
      rw (eager_round, e) (eager_round-Goes envs st1 p1 (rw same fits.1))

  -- The eager loop does not panic.
  pub try_eager-runs :
      (visit : Assoc ℕ (List Envelope) → List Envelope) (sort : List Envelope → List Envelope)
      (n : ℕ) (st : SemState)
      → All (Fits st.membership) (visit st.messages_by_wave)
      → try_eager_executions class_of visit sort n st ≢ panicked
  unfolding try_eager_executions
  try_eager-runs visit sort zero st fits h = cc h
  try_eager-runs visit sort (suc n) st fits h =
      let (out, goes) = eager_round-Goes (visit st.messages_by_wave) st false fits in
      elim (Option-cases (eager_round class_of (visit st.messages_by_wave) st false)) [
        | inl e ↦ cc (goes, e)
        | inr ((st', false), e) ↦
            let z : try_eager_executions class_of visit sort (suc n) st ≡ done st' =
              rw (try_eager_executions, e) refl in
            cc (z, h)
        | inr ((st', true), e) ↦
            let z : try_eager_executions class_of visit sort (suc n) st
                ≡ try_eager_executions class_of visit sort n st' =
              rw (try_eager_executions, e) refl in
            let same = eager_round-waves class_of (visit st.messages_by_wave) st st' false true e in
            try_eager-runs visit sort n st'
              (subst (λ w. All (Fits w.2) (visit w.0)) (sym same) fits) (sym z ∙ h)
      ]
