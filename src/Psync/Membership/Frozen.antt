-- ===== src/Psync/Membership/Frozen.antt =====
-- Frozen slots of psync/membership.go: `Freeze` and the active replicas.
use comlink.Common.{
  ℕ, zero, suc, ◌<◌, ◌≡◌, refl, ◌≢◌, ◌↔◌, ◌⊎◌, inl, inr, Bool, true, false, none, some, List, [],
  ◌∷◌, arith, Option-cases, length, get_elem?, set, get_elem?-lt, get_elem?_total, length-set,
  get_elem?-set_self, get_elem?-set_ne,
}
use comlink.Common.Assoc.{nat_key, bytes_key}
use comlink.Common.Result.{ok, err}
use comlink.Messages.{ReplicaId}
use comlink.Psync.Membership.Slots.{IsWellFormed}
use comlink.Psync.Membership.{active_from}
use comlink.Psync.Membership.{
  Membership, replica, is_frozen, slot_of, freeze, not_member, already_frozen, active_replicas,
}

set_frozen : Membership → ℕ → Membership
set_frozen m i = record m { frozen = set m.frozen i true }

-- `Freeze` on a well-formed view refuses an unknown replica and a frozen slot. Otherwise it sets the
-- flag of the replica's own slot and no other; slots, their order and well-formedness stay.
pub freeze_lem :
    (m : Membership) (r : ReplicaId)
    → IsWellFormed m
    → ((slot_of m r ≡ none) × (freeze m r ≡ err not_member))
      ⊎ ((i : ℕ) × (slot_of m r ≡ some i)
          × (((is_frozen m i ≡ some true) × (freeze m r ≡ err (already_frozen i)))
              ⊎ ((m' : Membership) × (freeze m r ≡ ok m')
                  × IsWellFormed m'
                  × (m'.replicas ≡ m.replicas)
                  × (is_frozen m' i ≡ some true)
                  × ((j : ℕ) → i ≢ j → is_frozen m' j ≡ is_frozen m j))))
unfolding freeze set_frozen
freeze_lem m r w = elim (Option-cases (slot_of m r)) [
  | inl e ↦ inl (e, ground arith)
  | inr (i, e) ↦ inr (i, e, flagged i e (Option-cases (is_frozen m i)))
]
  where
    in_range : (i : ℕ) → slot_of m r ≡ some i → i < length m.frozen
    in_range i e = omega (arith, w.flags, get_elem?-lt m.replicas i (w.found r i e))

    kept : (i : ℕ) → IsWellFormed (record m { frozen = set m.frozen i true })
    kept i = record {
      flags = omega (arith, w.flags, length-set m.frozen i true);
      found = w.found;
      indexed = w.indexed;
    }

    flagged :
        (i : ℕ)
        → slot_of m r ≡ some i
        → (is_frozen m i ≡ none) ⊎ ((f : Bool) × (is_frozen m i ≡ some f))
        → ((is_frozen m i ≡ some true) × (freeze m r ≡ err (already_frozen i)))
          ⊎ ((m' : Membership) × (freeze m r ≡ ok m')
              × IsWellFormed m'
              × (m'.replicas ≡ m.replicas)
              × (is_frozen m' i ≡ some true)
              × ((j : ℕ) → i ≢ j → is_frozen m' j ≡ is_frozen m j))
    flagged i e (inl f) = cc ((get_elem?_total m.frozen i (in_range i e)).1, f)
    flagged i e (inr (true, f)) = inl (f, ground arith)
    flagged i e (inr (false, f)) = inr (
      set_frozen m i,
      ground arith,
      kept i,
      refl,
      get_elem?-set_self m.frozen i true (in_range i e),
      λ j n. get_elem?-set_ne m.frozen i j true n,
    )

pub active_from-found :
    (rs : List ReplicaId) (fs : List Bool) (r : ReplicaId) (j : ℕ)
    → get_elem? (active_from rs fs) j ≡ some r
    → (i : ℕ) × (get_elem? rs i ≡ some r) × (get_elem? fs i ≡ some false)
unfolding active_from
active_from-found [] fs r j e = cc
active_from-found (s ∷ rs) [] r j e = cc
active_from-found (s ∷ rs) (true ∷ fs) r j e =
    let (i, p, q) = active_from-found rs fs r j e in (suc i, p, q)
active_from-found (s ∷ rs) (false ∷ fs) r zero e = (0, e, refl)
active_from-found (s ∷ rs) (false ∷ fs) r (suc j) e =
    let (i, p, q) = active_from-found rs fs r j e in (suc i, p, q)

active_from-listed :
    (rs : List ReplicaId) (fs : List Bool) (r : ReplicaId) (i : ℕ)
    → get_elem? rs i ≡ some r
    → get_elem? fs i ≡ some false
    → (j : ℕ) × (get_elem? (active_from rs fs) j ≡ some r)
unfolding active_from
active_from-listed [] fs r i e f = cc
active_from-listed (s ∷ rs) [] r i e f = cc
active_from-listed (s ∷ rs) (true ∷ fs) r zero e f = cc
active_from-listed (s ∷ rs) (true ∷ fs) r (suc i) e f = active_from-listed rs fs r i e f
active_from-listed (s ∷ rs) (false ∷ fs) r zero e f = (0, e)
active_from-listed (s ∷ rs) (false ∷ fs) r (suc i) e f =
    let (j, p) = active_from-listed rs fs r i e f in (suc j, p)

-- `Replicas` lists exactly the replicas whose slot is not frozen.
pub active_replicas_iff :
    (m : Membership) (r : ReplicaId)
    → ((j : ℕ) × (get_elem? (active_replicas m) j ≡ some r))
      ↔ ((i : ℕ) × (replica m i ≡ some r) × (is_frozen m i ≡ some false))
unfolding active_replicas
active_replicas_iff m r = (
  λ h. active_from-found m.replicas m.frozen r h.0 h.1,
  λ h. active_from-listed m.replicas m.frozen r h.0 h.1 h.2,
)
