-- ===== src/Psync/Membership/Slots.antt =====
-- Slots of psync/membership.go: the index and the slot order describe one another, and slots are
-- never moved.
use comlink.Common.{
  ite, get_elem?-snoc_cases, get_elem?-lt, get_elem?-append_left, get_elem?-snoc, ℕ, zero, suc, ◌+◌,
  ◌<◌, ◌≡◌, refl, ap, subst, ◌≢◌, ◌⊎◌, inl, inr, false, none, some, List, [], ◌∷◌, ◌++◌, arith,
  length, get_elem?, length-append, length-replicate, All, Option-cases, ◌∙◌,
}
use comlink.Common.Assoc.{Bytes, Bytes-discrete, Assoc, bytes_key, get, put, get-put}
use comlink.Common.Result.{ok, err}
use comlink.Messages.{ReplicaId}
use comlink.Psync.Membership.{
  Membership, index_from, new_membership, len, replica, is_frozen, slot_of, add, already_at,
}

-- No replica stands twice in the list.
abbrev pub Distinct : List ReplicaId → Type 0
Distinct [] = Unit
Distinct (r ∷ rs) = All (λ s. s ≢ r) rs × Distinct rs

-- The index finds exactly the slots, and every slot has its flag.
pub record IsWellFormed (m : Membership) : Type 0 where
  pub flags : length m.frozen ≡ length m.replicas
  pub found : (r : ReplicaId) (i : ℕ) → slot_of m r ≡ some i → replica m i ≡ some r
  pub indexed : (r : ReplicaId) (i : ℕ) → replica m i ≡ some r → slot_of m r ≡ some i

index_from_ne :
    (i : ℕ) (rs : List ReplicaId) (index : Assoc Bytes ℕ) (r : ReplicaId)
    → All (λ s. s ≢ r) rs
    → get r (index_from i rs index) ≡ get r index
unfolding index_from
index_from_ne i [] index r h = refl
index_from_ne i (s ∷ rs) index r h =
    ground (arith, index_from_ne (i + 1) rs (put s i index) r h.1, get-put s r i index)

index_from-indexed :
    (i j : ℕ) (rs : List ReplicaId) (index : Assoc Bytes ℕ) (r : ReplicaId)
    → Distinct rs
    → get_elem? rs j ≡ some r
    → get r (index_from i rs index) ≡ some (i + j)
unfolding index_from
index_from-indexed i j [] index r d e = cc
index_from-indexed i zero (s ∷ rs) index r d e =
    ground (arith, index_from_ne (i + 1) rs (put s i index) s d.0, get-put s s i index)
index_from-indexed i (suc j) (s ∷ rs) index r d e =
    ground (arith, index_from-indexed (i + 1) j rs (put s i index) r d.1 e)

index_from-found :
    (i k : ℕ) (rs : List ReplicaId) (index : Assoc Bytes ℕ) (r : ReplicaId)
    → get r (index_from i rs index) ≡ some k
    → (get r index ≡ some k) ⊎ ((j : ℕ) × (k ≡ i + j) × (get_elem? rs j ≡ some r))
unfolding index_from
index_from-found i k [] index r e = inl e
index_from-found i k (s ∷ rs) index r e = elim (index_from-found (i + 1) k rs (put s i index) r e) [
  | inr (j, p, q) ↦ inr (suc j, omega arith, q)
  | inl q ↦ elim (Bytes-discrete s r) [
    | yes p ↦ inr (0, ground (arith, get-put s r i index), ground arith)
    | no p ↦ inl (ground (arith, get-put s r i index))
  ]
]

-- A view made from distinct replicas is well-formed.
pub new_membership-IsWellFormed :
    (rs : List ReplicaId) → Distinct rs → IsWellFormed (new_membership rs)
unfolding new_membership slot_of
new_membership-IsWellFormed rs d = record {
  flags = length-replicate (length rs) false;
  found = found;
  indexed = λ r i e. index_from-indexed 0 i rs [] r d e ∙ ap some (omega arith);
}
  where
    found : (r : ReplicaId) (i : ℕ) → get r (index_from 0 rs []) ≡ some i → get_elem? rs i ≡ some r
    found r i e = elim (index_from-found 0 i rs [] r e) [
      | inl p ↦ ground arith
      | inr (j, p, q) ↦ ground arith
    ]

-- A view from a well-formed one by one more slot at the end.
abbrev pub grown : Membership → ReplicaId → Membership
grown m r = record {
  replicas = m.replicas ++ r ∷ [];
  frozen = m.frozen ++ false ∷ [];
  slot_index = put r (length m.replicas) m.slot_index;
}

pub grown-IsWellFormed :
    (m : Membership) (r : ReplicaId)
    → IsWellFormed m
    → slot_of m r ≡ none
    → IsWellFormed (grown m r)
unfolding slot_of
grown-IsWellFormed m r w new = record {
  flags =
      omega
        (arith, w.flags, length-append m.frozen (false ∷ []), length-append m.replicas (r ∷ []));
  found = found;
  indexed = indexed;
}
  where
    at_r :
        (s : ReplicaId)
        → get s (put r (length m.replicas) m.slot_index)
          ≡ ite (Bytes-discrete r s) (some (length m.replicas)) (get s m.slot_index)
    at_r s = get-put r s (length m.replicas) m.slot_index

    found :
        (s : ReplicaId) (i : ℕ)
        → get s (put r (length m.replicas) m.slot_index) ≡ some i
        → get_elem? (m.replicas ++ r ∷ []) i ≡ some s
    found s i e = elim (Bytes-discrete r s) [
      | yes p ↦ ground (arith, at_r s, get_elem?-snoc m.replicas r)
      | no p ↦
          let h : replica m i ≡ some s = w.found s i (ground (arith, at_r s)) in
          get_elem?-append_left m.replicas (r ∷ []) i (get_elem?-lt m.replicas i h) ∙ h
    ]

    indexed :
        (s : ReplicaId) (i : ℕ)
        → get_elem? (m.replicas ++ r ∷ []) i ≡ some s
        → get s (put r (length m.replicas) m.slot_index) ≡ some i
    indexed s i e = elim (get_elem?-snoc_cases m.replicas r i e) [
      | inr p ↦ ground (arith, at_r s)
      | inl p ↦ ground (arith, at_r s, w.indexed s i p)
    ]

-- `Add` refuses a replica that has a slot, naming the slot. A new replica gets the slot past the
-- last, unfrozen, all earlier slots and flags stay, and the view stays well-formed.
pub add_lem :
    (m : Membership) (r : ReplicaId)
    → IsWellFormed m
    → ((i : ℕ) × (slot_of m r ≡ some i) × (add m r ≡ err (already_at i)))
      ⊎ ((m' : Membership) × (add m r ≡ ok (len m, m'))
          × IsWellFormed m'
          × (replica m' (len m) ≡ some r)
          × (is_frozen m' (len m) ≡ some false)
          × ((i : ℕ) → i < len m → (replica m' i ≡ replica m i) × (is_frozen m' i ≡ is_frozen m i)))
unfolding add slot_of
add_lem m r w = elim (Option-cases (slot_of m r)) [
  | inr (i, e) ↦ inl (i, e, ground arith)
  | inl e ↦ inr (
    grown m r,
    ground arith,
    grown-IsWellFormed m r w e,
    get_elem?-snoc m.replicas r,
    subst (λ n. get_elem? (m.frozen ++ false ∷ []) n ≡ some false) w.flags
        (get_elem?-snoc m.frozen false),
    λ i h. (
      get_elem?-append_left m.replicas (r ∷ []) i h,
      get_elem?-append_left m.frozen (false ∷ []) i (omega (arith, w.flags)),
    ),
  )
]
