-- ===== src/Tests/Graphs.antt =====
-- The theorems on psync/graph.go and psync/stability.go at a graph of one message.
use comlink.Common.{ℕ, ◌≤◌, ◌<◌, ◌≡◌, refl, ◌≢◌, ◌↔◌, true, false, some, [], ◌∷◌, arith, ℕ_discrete}
use comlink.Common.Assoc.{Bytes-discrete}
use comlink.Common.Result.{ok}
use comlink.Messages.{ReplicaId}
use comlink.Psync.Vector.{at}
use comlink.Psync.Membership.{replica, is_frozen}
use comlink.Psync.Graph.{Node, Graph, new_graph, insert, has, latest_seq}
use comlink.Psync.Graph.Invariant.{IsClosed, new_graph-IsClosed, insert-IsClosed}
use comlink.Psync.Graph.Latest.{has_iff_latest}
use comlink.Psync.Stability.{is_stable, latest_vector}
use comlink.Psync.Stability.Acknowledged.{is_stable_iff}
use comlink.Tests.Samples.{bob, view, view-IsWellFormed, bob_first}

abbrev pub bob_node : Node
bob_node = record {
  envelope = bob_first;
  sender_seq = 1;
  sender_slot = 1;
  wave = 1;
  parents = [];
  children = [];
}

abbrev pub one : Graph
one = record {
  by_sender = (bob, (1, bob_node) ∷ []) ∷ [];
  by_wave = (1, (bob, 1) ∷ []) ∷ [];
  count = 1;
}

pub inserted : insert view new_graph bob_first ≡ ok (one, (bob, 1))
unfolding insert new_graph Bytes-discrete ℕ_discrete
inserted = refl

pub one-IsClosed : IsClosed view one
one-IsClosed =
    insert-IsClosed view new_graph one bob_first (bob, 1) (new_graph-IsClosed view) inserted

insert-IsClosed_example : IsClosed view one
insert-IsClosed_example =
    insert-IsClosed view new_graph one bob_first (bob, 1) (new_graph-IsClosed view) inserted

has_iff_latest_example : (has one bob 1 ≡ true) ↔ ((0 < 1) × (1 ≤ latest_seq one bob))
has_iff_latest_example = has_iff_latest view one bob 1 view-IsWellFormed one-IsClosed

is_stable_iff_example : (is_stable view one (some bob_node) ≡ some true) ↔ (
    (slot : ℕ) (r : ReplicaId)
    → replica view slot ≡ some r
    → slot ≢ bob_node.sender_slot
    → is_frozen view slot ≡ some false
    → bob_node.sender_seq ≤ at (latest_vector one r) bob_node.sender_slot)
is_stable_iff_example = is_stable_iff view one bob_node view-IsWellFormed (omega arith)
