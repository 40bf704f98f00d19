-- ===== src/Tests/Members.antt =====
-- The theorems on psync/membership.go for two members.
use comlink.Common.{ℕ, ◌≡◌, ◌↔◌, false, some, get_elem?}
use comlink.Psync.Membership.{replica, is_frozen, active_replicas}
use comlink.Psync.Membership.Frozen.{active_replicas_iff}
use comlink.Tests.Samples.{bob, view}

active_replicas_iff_example :
    ((j : ℕ) × (get_elem? (active_replicas view) j ≡ some bob))
    ↔ ((i : ℕ) × (replica view i ≡ some bob) × (is_frozen view i ≡ some false))
active_replicas_iff_example = active_replicas_iff view bob
