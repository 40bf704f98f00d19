-- ===== src/Tests/Samples.antt =====
-- Two replicas, alice and bob, and their messages.
use comlink.Common.{◌≡◌, refl, ℕ_discrete, false, some, List, [], ◌∷◌}
use comlink.Common.Assoc.{Bytes, Bytes-discrete}
use comlink.Messages.{ReplicaId, Envelope}
use comlink.Psync.Vector.{Vector}
use comlink.Psync.Membership.{Membership, new_membership}
use comlink.Psync.Membership.Slots.{Distinct, IsWellFormed, new_membership-IsWellFormed}

abbrev pub alice : ReplicaId
alice = 1 ∷ []

abbrev pub bob : ReplicaId
bob = 2 ∷ []

abbrev pub carol : ReplicaId
carol = 3 ∷ []

abbrev pub conv : Bytes
conv = 9 ∷ []

abbrev pub members : List ReplicaId
members = alice ∷ bob ∷ []

pub members-Distinct : Distinct members
members-Distinct = (((λ e. cc), tt), (tt, tt))

abbrev pub view : Membership
view = record {
  replicas = members;
  frozen = false ∷ false ∷ [];
  slot_index = (alice, 0) ∷ (bob, 1) ∷ [];
}

pub view_new : new_membership members ≡ view
unfolding new_membership Bytes-discrete ℕ_discrete
view_new = refl

pub view-IsWellFormed : IsWellFormed view
view-IsWellFormed = rw (← view_new) (new_membership-IsWellFormed members members-Distinct)

-- The message of `sender` with the vector `vc`.
abbrev pub message : ReplicaId → Vector → Envelope
message sender vc = record {
  id = some (record { conversation_id = some conv; sender = some sender; vector_clock = vc });
  payload = 7 ∷ [];
}

abbrev pub bob_first : Envelope
bob_first = message bob (0 ∷ 1 ∷ [])

abbrev pub bob_second : Envelope
bob_second = message bob (0 ∷ 2 ∷ [])
