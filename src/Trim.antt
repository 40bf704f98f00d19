-- ===== src/Trim.antt =====
-- trim/trim.go: the watermarks of the replicas and the offset up to which the log may be cut. The
-- mutex makes each method one step.
pub mod Frontier
pub mod Advance
use comlink.Common.{
  ℕ, Bool, true, false, Option, none, some, List, [], ◌∷◌, ltb, ◌==◌, ◌||◌, if◌then◌else◌,
}
use comlink.Common.Assoc.{Assoc, Bytes, bytes_key, get, put, delete}
use comlink.Messages.{ReplicaId}

pub record Mark : Type 0 where
  pub applied : ℕ
  pub snapshot : ℕ

unfoldable pub usable_frontier : Mark → ℕ
usable_frontier m =
    if m.snapshot == 0 then 0 else if ltb m.applied m.snapshot then m.applied else m.snapshot

pub record Tracker : Type 0 where
  pub marks : Assoc Bytes Mark

unfoldable pub new_tracker : Tracker
new_tracker = record { marks = [] }

-- `Get` without its Boolean: a replica that is not listed has the zero mark.
unfoldable pub mark_of : Tracker → ReplicaId → Mark
unfolding get
mark_of t r = elim (get r t.marks) [ none ↦ record { applied = 0; snapshot = 0 } | some m ↦ m ]

-- What `Update` makes of the mark `cur`, and whether either field advances.
advanced : Mark → Mark → Mark
advanced cur mark = record {
  applied = if ltb cur.applied mark.applied then mark.applied else cur.applied;
  snapshot = if ltb cur.snapshot mark.snapshot then mark.snapshot else cur.snapshot;
}

advances : Mark → Mark → Bool
advances cur mark = ltb cur.applied mark.applied || ltb cur.snapshot mark.snapshot

-- `Update`.
unfoldable pub update : Tracker → ReplicaId → Mark → Bool × Tracker
unfolding mark_of advanced advances put
update t r mark =
    if advances (mark_of t r) mark
    then (true, record { marks = put r (advanced (mark_of t r) mark) t.marks })
    else (false, t)

unfoldable pub update_applied : Tracker → ReplicaId → ℕ → Bool × Tracker
unfolding update
update_applied t r offset = update t r (record { applied = offset; snapshot = offset })

unfoldable pub forget : Tracker → ReplicaId → Tracker
unfolding delete
forget t r = record { marks = delete r t.marks }

-- The loop of `SafeFrontier`, with its variables `first` and `min`.
frontier_from : Tracker → Bool → ℕ → List ReplicaId → Option ℕ
unfolding usable_frontier get
frontier_from t first low [] = some low
frontier_from t first low (r ∷ rs) =
    let f = usable_frontier (mark_of t r) in
    let rest = frontier_from t false (if first || ltb f low then f else low) rs in
    elim (get r t.marks) [ none ↦ none | some m ↦ rest ]

-- `SafeFrontier`; `none` where Go answers (0, false).
unfoldable pub safe_frontier : Tracker → List ReplicaId → Option ℕ
unfolding frontier_from
safe_frontier t [] = none
safe_frontier t (r ∷ rs) = frontier_from t true 0 (r ∷ rs)
