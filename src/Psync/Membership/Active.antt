-- ===== src/Psync/Membership/Active.antt =====
-- psync/membership.go: how `Freeze` and `Add` change the list of the active replicas.
use comlink.Common.{
  ℕ, zero, suc, ◌≡◌, refl, sym, ◌∙◌, ap, inl, inr, Bool, true, false, none, some, Option, List, [],
  ◌∷◌, ◌++◌, arith, Option-cases, length, length-set, ◌⊎◌, get_elem?, set, if_pos, if_neg,
}
use comlink.Common.Assoc.{Bytes-discrete, bytes_key}
use comlink.Common.Result.{ok, err}
use comlink.Failure.{without}
use comlink.Messages.{ReplicaId}
use comlink.Psync.Membership.{
  FreezeError, not_member, out_of_range, already_frozen, Membership, is_frozen, slot_of, freeze,
  freeze_at, add, active_replicas, active_from, len,
}
use comlink.Psync.Membership.Frozen.{active_from-found}
use comlink.Psync.Membership.Slots.{IsWellFormed, grown, grown-IsWellFormed}

abbrev pub Absent : ReplicaId → List ReplicaId → Type 0
Absent r rs = (i : ℕ) → ¬ (get_elem? rs i ≡ some r)

without-Absent : (r : ReplicaId) (rs : List ReplicaId) → Absent r rs → without r rs ≡ rs
unfolding without
without-Absent r [] h = refl
without-Absent r (s ∷ rs) h = elim (Bytes-discrete s r) [
  | yes p ↦ absurd (h 0 (ap some p))
  | no p ↦
      if_neg (Bytes-discrete s r) p _ _ ∙ ap (λ t. s ∷ t) (without-Absent r rs (λ i. h (suc i)))
]

active_from-Absent :
    (r : ReplicaId) (rs : List ReplicaId) (fs : List Bool)
    → Absent r rs
    → without r (active_from rs fs) ≡ active_from rs fs
active_from-Absent r rs fs h =
    without-Absent r (active_from rs fs)
      (λ j e. let (i, p, _) = active_from-found rs fs r j e in h i p)

-- Freezing the only slot of `r` takes `r` out of the active replicas.
active_from-set :
    (r : ReplicaId) (rs : List ReplicaId) (fs : List Bool) (i : ℕ)
    → get_elem? rs i ≡ some r
    → length fs ≡ length rs
    → ((j : ℕ) → get_elem? rs j ≡ some r → j ≡ i)
    → active_from rs (set fs i true) ≡ without r (active_from rs fs)
unfolding active_from without
active_from-set r [] fs i e h u = cc
active_from-set r (s ∷ rs) [] i e h u = absurd (omega (arith, h))
active_from-set r (s ∷ rs) (true ∷ fs) zero e h u =
    sym (active_from-Absent r rs fs (λ j q. ground (arith, u (suc j) q)))
active_from-set r (s ∷ rs) (false ∷ fs) zero e h u = sym (
    if_pos (Bytes-discrete s r) (cc e) _ _
    ∙ active_from-Absent r rs fs (λ j q. ground (arith, u (suc j) q)))
active_from-set r (s ∷ rs) (true ∷ fs) (suc i) e h u =
    active_from-set r rs fs i e (omega (arith, h)) (λ j q. omega (arith, u (suc j) q))
active_from-set r (s ∷ rs) (false ∷ fs) (suc i) e h u =
    ap (λ t. s ∷ t)
      (active_from-set r rs fs i e (omega (arith, h)) (λ j q. omega (arith, u (suc j) q)))
    ∙ sym (if_neg (Bytes-discrete s r) (λ p. ground (arith, u 0 (ap some p))) _ _)

freeze_at-active :
    (m : Membership) (r : ReplicaId) (i : ℕ)
    → IsWellFormed m
    → slot_of m r ≡ some i
    → is_frozen m i ≡ some false
    → (freeze m r ≡ ok (record m { frozen = set m.frozen i true }))
      × IsWellFormed (record m { frozen = set m.frozen i true })
      × (active_replicas (record m { frozen = set m.frozen i true })
          ≡ without r (active_replicas m))
unfolding freeze freeze_at active_replicas
freeze_at-active m r i w e f = (
  rw (freeze, e, f) refl,
  record {
    flags = omega (arith, w.flags, length-set m.frozen i true);
    found = w.found;
    indexed = w.indexed;
  },
  active_from-set r m.replicas m.frozen i (w.found r i e) w.flags (λ j q. cc (w.indexed r j q, e)),
)

-- A replica that has no slot, or a frozen one, is not active.
inactive :
    (m : Membership) (r : ReplicaId)
    → IsWellFormed m
    → ((i : ℕ) → slot_of m r ≡ some i → ¬ (is_frozen m i ≡ some false))
    → without r (active_replicas m) ≡ active_replicas m
unfolding active_replicas
inactive m r w h =
    without-Absent r (active_replicas m) (λ j e.
      let (i, p, q) = active_from-found m.replicas m.frozen r j e in h i (w.indexed r i p) q)

-- Whether `Freeze` succeeds or not, the active replicas afterwards are those before without `r`.
pub freeze-active :
    (m : Membership) (r : ReplicaId)
    → IsWellFormed m
    → ((m' : Membership) × (freeze m r ≡ ok m')
        × IsWellFormed m'
        × (active_replicas m' ≡ without r (active_replicas m)))
      ⊎ ((e : FreezeError) × (freeze m r ≡ err e)
          × (active_replicas m ≡ without r (active_replicas m)))
unfolding freeze freeze_at
freeze-active m r w = elim (Option-cases (slot_of m r)) [
  | inl e ↦ inr (not_member, rw (freeze, e) refl, sym (inactive m r w (λ i q. cc (e, q))))
  | inr (i, e) ↦ elim (Option-cases (is_frozen m i)) [
    | inl f ↦ inr (
      out_of_range,
      rw (freeze, e, f) refl,
      sym (inactive m r w (λ j q g. cc (clash i j (cc (e, q)) g f))),
    )
    | inr (true, f) ↦ inr (
      already_frozen i,
      rw (freeze, e, f) refl,
      sym (inactive m r w (λ j q g. cc (clash i j (cc (e, q)) g f))),
    )
    | inr (false, f) ↦
        let (p, v, q) = freeze_at-active m r i w e f in
        inl (record m { frozen = set m.frozen i true }, p, v, q)
  ]
]
  where
    clash :
        (i j : ℕ)
        → j ≡ i
        → is_frozen m j ≡ some false
        → {o : Option Bool} → is_frozen m i ≡ o
        → o ≡ some false
    clash i j p g f = sym f ∙ ap (get_elem? m.frozen) (sym p) ∙ g

active_from-append :
    (rs : List ReplicaId) (fs : List Bool) (r : ReplicaId)
    → length fs ≡ length rs
    → active_from (rs ++ r ∷ []) (fs ++ false ∷ []) ≡ active_from rs fs ++ r ∷ []
unfolding active_from
active_from-append [] [] r h = refl
active_from-append [] (f ∷ fs) r h = absurd (omega (arith, h))
active_from-append (s ∷ rs) [] r h = absurd (omega (arith, h))
active_from-append (s ∷ rs) (true ∷ fs) r h = active_from-append rs fs r (omega (arith, h))
active_from-append (s ∷ rs) (false ∷ fs) r h =
    ap (λ t. s ∷ t) (active_from-append rs fs r (omega (arith, h)))

-- `Add` of a replica without a slot appends it to the active replicas.
pub add-active :
    (m : Membership) (r : ReplicaId)
    → IsWellFormed m
    → slot_of m r ≡ none
    → (m' : Membership) × (add m r ≡ ok (len m, m'))
      × IsWellFormed m'
      × (active_replicas m' ≡ active_replicas m ++ r ∷ [])
unfolding add slot_of active_replicas
add-active m r w new = (
  grown m r,
  rw (add, new) refl,
  grown-IsWellFormed m r w new,
  active_from-append m.replicas m.frozen r w.flags,
)
