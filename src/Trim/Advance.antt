-- ===== src/Trim/Advance.antt =====
-- Watermarks and the trim frontier of trim/trim.go only advance.
use comlink.Common.{
  ℕ, ◌≤◌, max, ◌≡◌, refl, sym, ◌∙◌, subst, ◌≢◌, ◌↔◌, inl, inr, true, false, some, List, [], ◌∷◌,
  arith, Bool-cases,
}
use comlink.Common.Assoc.{Bytes-discrete, bytes_key, put, get-put_self, get-put_ne}
use comlink.Messages.{ReplicaId}
use comlink.Trim.{
  Mark, Tracker, usable_frontier, mark_of, advanced, advances, update, safe_frontier,
}
use comlink.Trim.Frontier.{IsMarked, safe_frontier_iff, safe_frontier-total}

-- The mark that an update leaves: the later of the two in each field.
abbrev pub later_mark : Mark → Mark → Mark
later_mark a b = record { applied = max a.applied b.applied; snapshot = max a.snapshot b.snapshot }

put_mark :
    (t : Tracker) (r x : ReplicaId) (m : Mark)
    → (mark_of (record { marks = put r m t.marks }) r ≡ m)
      × (r ≢ x → mark_of (record { marks = put r m t.marks }) x ≡ mark_of t x)
unfolding mark_of
put_mark t r x m =
    (ground (arith, get-put_self r m t.marks), λ n. ground (arith, get-put_ne r x m t.marks n))

Mark-ext : (a b : Mark) → a.applied ≡ b.applied → a.snapshot ≡ b.snapshot → a ≡ b
Mark-ext a b p q = λ i. record { applied = p i; snapshot = q i }

advanced_lem : (a b : Mark) → advanced a b ≡ later_mark a b
unfolding advanced
advanced_lem a b = Mark-ext (advanced a b) (later_mark a b) (ground arith) (ground arith)

advances_iff :
    (a b : Mark) → (advances a b ≡ false) ↔ ((b.applied ≤ a.applied) × (b.snapshot ≤ a.snapshot))
unfolding advances
advances_iff a b = (λ e. (ground (arith, e), ground (arith, e)), λ (p, q). ground (arith, p, q))

-- `Update` answers whether a field advances; it leaves the later value of each field to the replica,
-- and the marks of the others as they were.
update_lem :
    (t : Tracker) (r : ReplicaId) (mark : Mark)
    → (mark_of (update t r mark).1 r ≡ later_mark (mark_of t r) mark)
      × ((x : ReplicaId) → r ≢ x → mark_of (update t r mark).1 x ≡ mark_of t x)
      × (((update t r mark).0 ≡ false)
          ↔ ((mark.applied ≤ (mark_of t r).applied) × (mark.snapshot ≤ (mark_of t r).snapshot)))
unfolding update
update_lem t r mark = elim (Bool-cases (advances (mark_of t r) mark)) [
  | inl e ↦
      let u : update t r mark
          ≡ (true, record { marks = put r (advanced (mark_of t r) mark) t.marks }) =
        ground (arith, e) in
      rw u (
        (put_mark t r r (advanced (mark_of t r) mark)).0 ∙ advanced_lem (mark_of t r) mark,
        λ x. (put_mark t r x (advanced (mark_of t r) mark)).1,
        (λ z. cc, λ h. cc ((advances_iff (mark_of t r) mark).1 h, e)),
      )
  | inr e ↦
      let u : update t r mark ≡ (false, t) = ground (arith, e) in
      let (p, q) = (advances_iff (mark_of t r) mark).0 e in
      rw u (
        Mark-ext (mark_of t r) (later_mark (mark_of t r) mark) (omega (arith, p))
            (omega (arith, q)),
        λ x n. refl,
        (λ z. (p, q), λ h. refl),
      )
]

usable_frontier-le :
    (a b : Mark)
    → a.applied ≤ b.applied
    → a.snapshot ≤ b.snapshot
    → usable_frontier a ≤ usable_frontier b
unfolding usable_frontier
usable_frontier-le a b p q = ground (arith, p, q)

update-le :
    (t : Tracker) (r : ReplicaId) (mark : Mark) (x : ReplicaId)
    → usable_frontier (mark_of t x) ≤ usable_frontier (mark_of (update t r mark).1 x)
update-le t r mark x = elim (Bytes-discrete r x) [
  | no n ↦ rw ((update_lem t r mark).1 x n) (omega arith)
  | yes p ↦ rw (← p) (
      subst (λ m. usable_frontier (mark_of t r) ≤ usable_frontier m) (sym (update_lem t r mark).0)
        (usable_frontier-le (mark_of t r) (later_mark (mark_of t r) mark) (omega arith)
          (omega arith)))
]

update-IsMarked :
    (t : Tracker) (r : ReplicaId) (mark : Mark) (x : ReplicaId)
    → IsMarked t x
    → IsMarked (update t r mark).1 x
unfolding update
update-IsMarked t r mark x (m, e) = elim (Bool-cases (advances (mark_of t r) mark)) [
  | inr z ↦ let u : update t r mark ≡ (false, t) = ground (arith, z) in rw u (m, e)
  | inl z ↦
      let next : Mark = advanced (mark_of t r) mark in
      let u : update t r mark ≡ (true, record { marks = put r next t.marks }) = ground (arith, z) in
      rw u (elim (Bytes-discrete r x) [
        | yes p ↦ (next, rw (← p) (get-put_self r next t.marks))
        | no n ↦ (m, get-put_ne r x next t.marks n ∙ e)
      ])
]

-- An update never takes the frontier back: where there was one, there is one that is no lower.
pub update-safe_frontier :
    (t : Tracker) (r : ReplicaId) (mark : Mark) (active : List ReplicaId) (f : ℕ)
    → safe_frontier t active ≡ some f
    → (f' : ℕ) × (safe_frontier (update t r mark).1 active ≡ some f') × (f ≤ f')
update-safe_frontier t r mark [] f e = let (_, (i, s, h, _)) = (safe_frontier_iff t [] f).0 e in cc
update-safe_frontier t r mark (x ∷ xs) f e =
    let (all, _) = (safe_frontier_iff t (x ∷ xs) f).0 e in
    let (f', e') =
      safe_frontier-total (update t r mark).1 x xs
        (λ i s h. update-IsMarked t r mark s (all i s h).0) in
    let (_, (i, s, h, k)) = (safe_frontier_iff (update t r mark).1 (x ∷ xs) f').0 e' in
    (f', e', omega (arith, (all i s h).1, k, update-le t r mark s))
