-- ===== src/Psync/Stability.antt =====
-- psync/stability.go: `StandardChecker`, and the waves of a graph. An index beyond a vector panics in
-- Go, which is `none`.
pub mod Acknowledged
pub mod Waves
use comlink.Common.{
  ℕ, ◌+◌, Bool, true, false, Option, none, some, List, [], ◌∷◌, ◌++◌, leb, ◌==◌, if◌then◌else◌,
  get_elem?,
}
use comlink.Common.Assoc.{Assoc, nat_key}
use comlink.Messages.{ReplicaId}
use comlink.Psync.Vector.{Vector}
use comlink.Psync.Membership.{Membership, is_frozen}
use comlink.Psync.Graph.{NodeRef, Node, Graph, lookup, latest_seq, messages_in_wave}
use comlink.Psync.Conversation.{vector_at}

-- `latestVectorAtSlot` for the replica of a slot. A vector without entries is the nil vector.
abbrev pub latest_vector : Graph → ReplicaId → Vector
latest_vector g r = if latest_seq g r == 0 then [] else vector_at (lookup g r (latest_seq g r))

-- The entry of the sender in a latest vector, against the node's number.
acknowledges_at : Node → Option ℕ → Option Bool
acknowledges_at n none = none
acknowledges_at n (some k) = some (leb n.sender_seq k)

-- The test of one latest vector.
acknowledges : Node → Vector → Option Bool
unfolding acknowledges_at
acknowledges n [] = some false
acknowledges n (x ∷ v) = acknowledges_at n (get_elem? (x ∷ v) n.sender_slot)

-- The loop goes on after `true` and returns `false` or the panic at once.
go_on : Option Bool → Option Bool → Option Bool
go_on none rest = none
go_on (some false) rest = some false
go_on (some true) rest = rest

-- The test of a slot that is not the sender's, by its frozen flag.
if_active : Option Bool → Option Bool → Option Bool → Option Bool
unfolding go_on
if_active none test rest = none
if_active (some true) test rest = rest
if_active (some false) test rest = go_on test rest

-- The loop over the slots from `slot` on, whose replicas are given.
stable_from : Membership → Graph → Node → ℕ → List ReplicaId → Option Bool
unfolding acknowledges if_active
stable_from m g n slot [] = some true
stable_from m g n slot (r ∷ rs) =
    let rest = stable_from m g n (slot + 1) rs in
    if slot == n.sender_slot
    then rest
    else if_active (is_frozen m slot) (acknowledges n (latest_vector g r)) rest

-- `IsStable`; a nil node is not stable.
unfoldable pub is_stable : Membership → Graph → Option Node → Option Bool
unfolding stable_from
is_stable m g none = some false
is_stable m g (some n) = stable_from m g n 0 m.replicas

-- The loop of `WaveComplete`.
any_stable : Membership → Graph → List NodeRef → Option Bool
any_stable m g [] = some false
any_stable m g ((s, q) ∷ ns) =
    let rest = any_stable m g ns in
    elim (is_stable m g (lookup g s q)) [ none ↦ none | some true ↦ some true | some false ↦ rest ]

unfoldable pub wave_complete : Membership → Graph → ℕ → Option Bool
unfolding any_stable
wave_complete m g w = any_stable m g (messages_in_wave g w)

-- `slices.Sort` on the wave numbers.
insert_wave : ℕ → List ℕ → List ℕ
insert_wave w [] = w ∷ []
insert_wave w (x ∷ xs) = let rest = insert_wave w xs in if leb w x then w ∷ x ∷ xs else x ∷ rest

waves_from : Assoc ℕ (List NodeRef) → List ℕ
unfolding insert_wave
waves_from [] = []
waves_from ((w, ns) ∷ rest) = insert_wave w (waves_from rest)

unfoldable pub waves : Graph → List ℕ
unfolding waves_from
waves g = waves_from g.by_wave

-- The inner loop of `StableNodes`.
stable_of : Membership → Graph → List NodeRef → Option (List NodeRef)
stable_of m g [] = some []
stable_of m g ((s, q) ∷ ns) =
    let rest = stable_of m g ns in
    elim (is_stable m g (lookup g s q)) [
      | none ↦ none
      | some true ↦ elim rest [ none ↦ none | some out ↦ some ((s, q) ∷ out) ]
      | some false ↦ rest
    ]

stable_in : Membership → Graph → List ℕ → Option (List NodeRef)
unfolding stable_of
stable_in m g [] = some []
stable_in m g (w ∷ ws) =
    let rest = stable_in m g ws in
    elim (stable_of m g (messages_in_wave g w)) [
      | none ↦ none
      | some out ↦ elim rest [ none ↦ none | some more ↦ some (out ++ more) ]
    ]

unfoldable pub stable_nodes : Membership → Graph → Option (List NodeRef)
unfolding stable_in waves
stable_nodes m g = stable_in m g (waves g)
