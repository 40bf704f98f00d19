-- ===== src/Psync/Membership.antt =====
-- psync/membership.go: the participants of a conversation in slot order.
pub mod Slots
pub mod Frozen
pub mod Active
use comlink.Common.{
  ℕ, ◌+◌, Bool, true, false, Option, none, some, List, [], ◌∷◌, ◌++◌, ltb, if◌then◌else◌, length,
  get_elem?, get_or, set, replicate,
}
use comlink.Common.Assoc.{Bytes, Assoc, bytes_key, get, put}
use comlink.Common.Result.{Result, ok, err}
use comlink.Messages.{ReplicaId, MessageId, value_of}

pub record Membership : Type 0 where
  pub replicas : List ReplicaId
  pub frozen : List Bool
  pub slot_index : Assoc Bytes ℕ

-- The loop of `NewMembership` that fills `slotIndex`: a later entry replaces an equal earlier one.
index_from : ℕ → List ReplicaId → Assoc Bytes ℕ → Assoc Bytes ℕ
index_from i [] index = index
index_from i (r ∷ rs) index = index_from (i + 1) rs (put r i index)

unfoldable pub new_membership : List ReplicaId → Membership
unfolding index_from put
new_membership rs = record {
  replicas = rs;
  frozen = replicate (length rs) false;
  slot_index = index_from 0 rs [];
}

abbrev pub len : Membership → ℕ
len m = length m.replicas

-- Out of range the two accessors panic, which is `none`.
abbrev pub replica : Membership → ℕ → Option ReplicaId
replica m i = get_elem? m.replicas i

abbrev pub is_frozen : Membership → ℕ → Option Bool
is_frozen m i = get_elem? m.frozen i

-- The slot -1 of an unknown replica is `none`.
unfoldable pub slot_of : Membership → Bytes → Option ℕ
unfolding get
slot_of m r = get r m.slot_index

pub data AddError : Type 0 where
  already_at : ℕ → AddError

unfoldable pub add : Membership → ReplicaId → Result AddError (ℕ × Membership)
unfolding get put
add m r = elim (get r m.slot_index) [
  | some existing ↦ err (already_at existing)
  | none ↦ ok (
    length m.replicas,
    record {
      replicas = m.replicas ++ r ∷ [];
      frozen = m.frozen ++ false ∷ [];
      slot_index = put r (length m.replicas) m.slot_index;
    },
  )
]

pub data FreezeError : Type 0 where
  not_member : FreezeError
  already_frozen : ℕ → FreezeError
  out_of_range : FreezeError

-- `out_of_range` is the panic of `m.frozen[idx]`.
unfoldable pub freeze_at : Membership → ℕ → Option Bool → Result FreezeError Membership
freeze_at m i none = err out_of_range
freeze_at m i (some true) = err (already_frozen i)
freeze_at m i (some false) = ok (record m { frozen = set m.frozen i true })

unfoldable pub freeze : Membership → ReplicaId → Result FreezeError Membership
unfolding slot_of freeze_at
freeze m r = elim (slot_of m r) [ none ↦ err not_member | some i ↦ freeze_at m i (is_frozen m i) ]

-- The loop of `Replicas` over the slots and their flags.
unfoldable pub active_from : List ReplicaId → List Bool → List ReplicaId
active_from [] fs = []
active_from (r ∷ rs) [] = []
active_from (r ∷ rs) (f ∷ fs) = let rest = active_from rs fs in if f then rest else r ∷ rest

unfoldable pub active_replicas : Membership → List ReplicaId
unfolding active_from
active_replicas m = active_from m.replicas m.frozen

unfoldable pub all_replicas : Membership → List ReplicaId
all_replicas m = m.replicas

pub data SeqError : Type 0 where
  unknown_sender short_vector : SeqError

-- Go answers (0, error) where the model answers the error alone.
unfoldable pub sender_seq : Membership → MessageId → Result SeqError ℕ
unfolding slot_of
sender_seq m id = elim (slot_of m (value_of id.sender)) [
  | none ↦ err unknown_sender
  | some slot ↦
      if ltb slot (length id.vector_clock)
      then ok (get_or id.vector_clock slot 0)
      else err short_vector
]
