-- ===== src/Order/Semantic/Causal.antt =====
-- order/semorder.go: no operation is applied twice, and one of class 1 only after its predecessors.
use comlink.Common.{
  ℕ, zero, suc, ◌+◌, ◌-◌, ◌<◌, ◌≡◌, ◌≢◌, refl, sym, ◌∙◌, ap, subst, ◌⊎◌, inl, inr, Bool, true,
  false, Option, none, some, List, [], ◌∷◌, ◌++◌, arith, leb, ◌==◌, by_if, length, get_elem?,
  get_elem?-lt, get_elem?-append_left, get_elem?-snoc, get_elem?-snoc_cases,
}
use comlink.Common.Assoc.{
  Assoc, Bytes, IndexKey, IndexKey-discrete, index_key, get, put, get-put, get-put_self, get-put_ne,
}
use comlink.Common.Result.{ok}
use comlink.Messages.{ReplicaId, Envelope, id_of, sender_of, vector_of}
use comlink.Order.Semantic.{
  SemState, is_executed_key, predecessors_from, predecessors_executed, other_executed,
  entry_executed, is_some,
}
use comlink.Psync.Membership.{Membership, replica, slot_of, sender_seq}
use comlink.Psync.Vector.{Vector}

-- The operation `q` of the sender `s` is the one that was applied at position `i`.
abbrev pub IsApplied : Membership → List Envelope → Bytes → ℕ → ℕ → Type 0
IsApplied m apply s q i =
    (env : Envelope) × (get_elem? apply i ≡ some env)
    × (sender_of env ≡ s)
    × (sender_seq m (id_of env) ≡ ok q)

-- It was applied before position `i`.
abbrev pub AppliedBefore : Membership → List Envelope → ℕ → Bytes → ℕ → Type 0
AppliedBefore m apply i s q = (j : ℕ) × (j < i) × IsApplied m apply s q j

-- What the entry `dep` at `slot` of the vector of `env` asks for: the sender's operation before `env`,
-- or the operation `dep` of the replica of the slot. It satisfies `P`.
abbrev pub DependsOn : Membership → (Bytes → ℕ → Type 0) → Bytes → ℕ → ℕ → ℕ → ℕ → Type 0
DependsOn m P s own seq slot dep =
    (slot ≡ own → 1 < seq → P s (seq - 1))
    × (slot ≢ own → dep ≢ 0 → (r : ReplicaId) × (replica m slot ≡ some r) × P r dep)

-- All that the vector of `env` asks for satisfies `P`.
abbrev pub Predecessors : Membership → (Bytes → ℕ → Type 0) → Envelope → Type 0
Predecessors m P env =
    (own seq : ℕ)
    → slot_of m (sender_of env) ≡ some own
    → sender_seq m (id_of env) ≡ ok seq
    → (slot dep : ℕ) → get_elem? (vector_of env) slot ≡ some dep
    → DependsOn m P (sender_of env) own seq slot dep

abbrev pub IsDone : SemState → Bytes → ℕ → Type 0
IsDone st s q = is_executed_key st s q ≡ true

other_executed_sound :
    (st : SemState) (dep : ℕ) (o : Option ReplicaId) (rest : Option Bool)
    → other_executed st dep o rest ≡ some true
    → ((r : ReplicaId) × (o ≡ some r) × IsDone st r dep) × (rest ≡ some true)
unfolding other_executed
other_executed_sound st dep none rest = λ h. cc
other_executed_sound st dep (some r) rest =
    by_if Sound (is_executed_key st r dep) _ _ (λ e h. ((r, refl, e), h)) (λ e h. cc)
  where
    Sound : Option Bool → Type 0
    Sound x =
        x ≡ some true
        → ((r' : ReplicaId) × (some r ≡ some r') × IsDone st r' dep) × (rest ≡ some true)

entry_executed_sound :
    (st : SemState) (s : Bytes) (own seq slot dep : ℕ) (rest : Option Bool)
    → entry_executed st s own seq slot dep rest ≡ some true
    → DependsOn st.membership (IsDone st) s own seq slot dep × (rest ≡ some true)
unfolding entry_executed
entry_executed_sound st s own seq slot dep rest =
    by_if Sound (slot == own) _ _
      (λ p.
        by_if Sound (leb seq 1) _ _
          (λ q h.
            (((λ _ gt. absurd (ground (arith, q, gt))), (λ ne. absurd (ground (arith, p, ne)))), h))
          (λ q.
            by_if Sound (is_executed_key st s (seq - 1)) _ _
              (λ e h. (((λ _ _. e), (λ ne. absurd (ground (arith, p, ne)))), h)) (λ e h. cc)))
      (λ p.
        by_if Sound (dep == 0) _ _
          (λ q h. (
            ((λ same. absurd (ground (arith, p, same))), (λ _ ne. absurd (ground (arith, q, ne)))),
            h,
          ))
          (λ q h.
            let (r, t) = other_executed_sound st dep (replica st.membership slot) rest h in
            (((λ same. absurd (ground (arith, p, same))), (λ _ _. r)), t)))
  where
    Sound : Option Bool → Type 0
    Sound x =
        x ≡ some true → DependsOn st.membership (IsDone st) s own seq slot dep × (rest ≡ some true)

predecessors_from-DependsOn :
    (st : SemState) (s : Bytes) (own seq slot : ℕ) (v : Vector)
    → predecessors_from st s own seq slot v ≡ some true
    → (i dep : ℕ) → get_elem? v i ≡ some dep
    → DependsOn st.membership (IsDone st) s own seq (slot + i) dep
unfolding predecessors_from
predecessors_from-DependsOn st s own seq slot [] h i dep e = cc
predecessors_from-DependsOn st s own seq slot (d ∷ v) h zero dep e =
    let (first, _) = entry_executed_sound st s own seq slot d _ h in
    subst (λ n. DependsOn st.membership (IsDone st) s own seq n dep) {x = slot} (omega arith)
      (subst (DependsOn st.membership (IsDone st) s own seq slot) (cc e) first)
predecessors_from-DependsOn st s own seq slot (d ∷ v) h (suc i) dep e =
    let (_, rest) = entry_executed_sound st s own seq slot d _ h in
    subst (λ n. DependsOn st.membership (IsDone st) s own seq n dep) {x = slot + 1 + i}
      (omega arith) (predecessors_from-DependsOn st s own seq (slot + 1) v rest i dep e)

pub predecessors_executed-Predecessors :
    (st : SemState) (env : Envelope)
    → predecessors_executed st env ≡ some true
    → Predecessors st.membership (IsDone st) env
unfolding predecessors_executed
predecessors_executed-Predecessors st env h own seq at_own at_seq slot dep e =
    let z : predecessors_executed st env
        ≡ predecessors_from st (sender_of env) own seq 0 (vector_of env) =
      rw (predecessors_executed, at_own, at_seq) refl in
    subst (λ n. DependsOn st.membership (IsDone st) (sender_of env) own seq n dep) {x = 0 + slot}
      (omega arith)
      (predecessors_from-DependsOn st (sender_of env) own seq 0 (vector_of env) (sym z ∙ h) slot dep
        e)

IsApplied-append :
    (m : Membership) (xs ys : List Envelope) (s : Bytes) (q i : ℕ)
    → IsApplied m xs s q i
    → IsApplied m (xs ++ ys) s q i
IsApplied-append m xs ys s q i (env, at_i, from, number) =
    (env, get_elem?-append_left xs ys i (get_elem?-lt xs i at_i) ∙ at_i, from, number)

IsApplied-snoc_cases :
    (m : Membership) (xs : List Envelope) (env : Envelope) (s : Bytes) (q i : ℕ)
    → IsApplied m (xs ++ env ∷ []) s q i
    → IsApplied m xs s q i
      ⊎ ((i ≡ length xs) × (sender_of env ≡ s) × (sender_seq m (id_of env) ≡ ok q))
IsApplied-snoc_cases m xs env s q i (e, at_i, from, number) =
    elim (get_elem?-snoc_cases xs env i at_i) [
      | inl p ↦ inl (e, p, from, number)
      | inr p ↦
          inr (
            p.0,
            ap sender_of (sym p.1) ∙ from,
            ap (λ x. sender_seq m (id_of x)) (sym p.1) ∙ number,
          )
    ]

Predecessors-map :
    (m : Membership) (P Q : Bytes → ℕ → Type 0) (env : Envelope)
    → ((s : Bytes) (q : ℕ) → P s q → Q s q)
    → Predecessors m P env
    → Predecessors m Q env
Predecessors-map m P Q env f h own seq at_own at_seq slot dep e =
    let (mine, others) = h own seq at_own at_seq slot dep e in
    (
      (λ same gt. f (sender_of env) (seq - 1) (mine same gt)),
      (λ ne some_dep. let (r, p, x) = others ne some_dep in (r, p, f r dep x)),
    )

pub recorded-put :
    (k j : IndexKey) (executed : Assoc IndexKey (Unit {0}))
    → is_some (get k executed) ≡ true
    → is_some (get k (put j tt executed)) ≡ true
recorded-put k j executed h = ground (arith, get-put j k tt executed)

module _ (class_of : Bytes → ℕ) where
  -- What holds of the operations `apply` that were applied in the view `m`: `executed` has exactly
  -- their keys, no two have the same key, and each of class 1 stands behind its predecessors.
  pub record IsCausal (m : Membership) (executed : Assoc IndexKey (Unit {0}))
      (apply : List Envelope) : Type 0 where
    pub recorded :
        (s : Bytes) (q : ℕ)
        → is_some (get (s, q) executed) ≡ true
        → (i : ℕ) × IsApplied m apply s q i
    pub keyed :
        (i : ℕ) (env : Envelope)
        → get_elem? apply i ≡ some env
        → (q : ℕ) × (sender_seq m (id_of env) ≡ ok q)
          × (is_some (get (sender_of env, q) executed) ≡ true)
    pub once :
        (i j : ℕ) (s : Bytes) (q : ℕ) → IsApplied m apply s q i → IsApplied m apply s q j → i ≡ j
    pub behind :
        (i : ℕ) (env : Envelope)
        → get_elem? apply i ≡ some env
        → class_of env.payload ≡ 1
        → Predecessors m (AppliedBefore m apply i) env

  -- The operation `env` with the number `q` is new, and of class 1 only if its predecessors are done.
  pub applied-IsCausal :
      (m : Membership) (executed : Assoc IndexKey (Unit {0})) (apply : List Envelope)
      (env : Envelope) (q : ℕ)
      → IsCausal m executed apply
      → sender_seq m (id_of env) ≡ ok q
      → is_some (get (sender_of env, q) executed) ≡ false
      → (class_of env.payload ≡ 1
          → Predecessors m (λ s n. is_some (get (s, n) executed) ≡ true) env)
      → IsCausal m (put (sender_of env, q) tt executed) (apply ++ env ∷ [])
  applied-IsCausal m executed apply env q v at_q new ready = record {
    recorded = λ s n h. elim (IndexKey-discrete (sender_of env, q) (s, n)) [
      | yes p ↦ (
        length apply,
        (env, get_elem?-snoc apply env, ap (λ k. k.0) p, at_q ∙ ap (λ k. ok k.1) p),
      )
      | no p ↦
          let (i, x) =
            v.recorded s n
              (sym (ap is_some (get-put_ne (sender_of env, q) (s, n) tt executed p)) ∙ h) in
          (i, IsApplied-append m apply (env ∷ []) s n i x)
    ];
    keyed = λ i e h. elim (get_elem?-snoc_cases apply env i h) [
      | inl p ↦
          let (n, number, x) = v.keyed i e p in
          (n, number, recorded-put (sender_of e, n) (sender_of env, q) executed x)
      | inr p ↦ (
        q,
        ap (λ x. sender_seq m (id_of x)) p.1 ∙ at_q,
        ap is_some (
            ap (λ x. get (sender_of x, q) (put (sender_of env, q) tt executed)) p.1
            ∙ get-put_self (sender_of env, q) tt executed),
      )
    ];
    once = λ i j s n p r. elim (IsApplied-snoc_cases m apply env s n i p) [
      | inl p' ↦ elim (IsApplied-snoc_cases m apply env s n j r) [
        | inl r' ↦ v.once i j s n p' r'
        | inr r' ↦ absurd (clash s n i p' r'.1 r'.2)
      ]
      | inr p' ↦ elim (IsApplied-snoc_cases m apply env s n j r) [
        | inl r' ↦ absurd (clash s n j r' p'.1 p'.2)
        | inr r' ↦ p'.0 ∙ sym r'.0
      ]
    ];
    behind = λ i e h one. elim (get_elem?-snoc_cases apply env i h) [
      | inl p ↦
          Predecessors-map m (AppliedBefore m apply i) (AppliedBefore m (apply ++ env ∷ []) i) e
            (λ s n x. let (j, lt, y) = x in (j, lt, IsApplied-append m apply (env ∷ []) s n j y))
            (v.behind i e p one)
      | inr p ↦
          Predecessors-map m (λ s n. is_some (get (s, n) executed) ≡ true)
            (AppliedBefore m (apply ++ env ∷ []) i) e
            (λ s n x.
              let (j, y) = v.recorded s n x in
              (
                j,
                omega (arith, get_elem?-lt apply j y.1, p.0),
                IsApplied-append m apply (env ∷ []) s n j y,
              ))
            (subst (Predecessors m (λ s n. is_some (get (s, n) executed) ≡ true)) (sym p.1)
              (ready (ap (λ x. class_of x.payload) (sym p.1) ∙ one)))
    ];
  }
    where
      clash :
          (s : Bytes) (n i : ℕ)
          → IsApplied m apply s n i
          → sender_of env ≡ s
          → sender_seq m (id_of env) ≡ ok n
          → ⊥
      clash s n i (e, at_i, from, number) same at_n =
          let (n', number', x) = v.keyed i e at_i in
          let from_env : sender_of e ≡ sender_of env = from ∙ sym same in
          let same_number : n' ≡ q = cc (number', number, at_q, at_n) in
          let done : is_some (get (sender_of env, q) executed) ≡ true =
            sym (ap (λ k. is_some (get k executed)) (λ j. (from_env j, same_number j))) ∙ x in
          cc (done, new)
