-- ===== src/Trim/Frontier.antt =====
-- Safety of the trim frontier of trim/trim.go.
use comlink.Common.{
  ℕ, zero, suc, ◌≤◌, ◌≡◌, refl, ◌∙◌, ◌⊎◌, ◌↔◌, inl, inr, false, some, List, [], ◌∷◌, arith, dec_lt,
  get_elem?, Option-cases, ltb, if◌then◌else◌,
}
use comlink.Common.Assoc.{bytes_key, get}
use comlink.Messages.{ReplicaId}
use comlink.Trim.{Mark, Tracker, usable_frontier, mark_of, safe_frontier, frontier_from}

-- `r` has advertised a mark.
abbrev pub IsMarked : Tracker → ReplicaId → Type 0
IsMarked t r = (m : Mark) × (get r t.marks ≡ some m)

-- What the loop keeps of a minimum `low` and of a usable frontier `u`.
abbrev lower_of : ℕ → ℕ → ℕ
lower_of u low = if ltb u low then u else low

lower_of_lem :
    (u low : ℕ)
    → (lower_of u low ≤ u)
      × (lower_of u low ≤ low)
      × ((lower_of u low ≡ u) ⊎ (lower_of u low ≡ low))
lower_of_lem u low = elim (dec_lt u low) [
  | yes h ↦ (ground arith, ground arith, inl (ground arith))
  | no h ↦ (ground arith, ground arith, inr (ground arith))
]

-- `f` is usable for everyone in `rs`.
abbrev pub IsLower : Tracker → List ReplicaId → ℕ → Type 0
IsLower t rs f =
    (i : ℕ) (r : ReplicaId)
    → get_elem? rs i ≡ some r
    → IsMarked t r × (f ≤ usable_frontier (mark_of t r))

abbrev pub IsAttained : Tracker → List ReplicaId → ℕ → Type 0
IsAttained t rs f =
    (i : ℕ) × (r : ReplicaId) × (get_elem? rs i ≡ some r) × (f ≡ usable_frontier (mark_of t r))

IsLower-cons :
    (t : Tracker) (r : ReplicaId) (rs : List ReplicaId) (f : ℕ)
    → IsMarked t r
    → f ≤ usable_frontier (mark_of t r)
    → IsLower t rs f
    → IsLower t (r ∷ rs) f
IsLower-cons t r rs f m h all zero s e = let same : r ≡ s = cc in rw (← same) (m, h)
IsLower-cons t r rs f m h all (suc i) s e = all i s e

frontier_from_sound :
    (t : Tracker) (low f : ℕ) (rs : List ReplicaId)
    → frontier_from t false low rs ≡ some f
    → (f ≤ low) × IsLower t rs f × ((f ≡ low) ⊎ IsAttained t rs f)
unfolding frontier_from
frontier_from_sound t low f [] e = (ground arith, λ i r h. cc, inl (ground arith))
frontier_from_sound t low f (r ∷ rs) e = elim (Option-cases (get r t.marks)) [
  | inl h ↦ ground (arith, h)
  | inr (m, h) ↦
      let u : ℕ = usable_frontier (mark_of t r) in
      let (below, all, hit) = frontier_from_sound t (lower_of u low) f rs (ground (arith, h)) in
      let (p, q, z) = lower_of_lem u low in
      (
        omega (arith, below, q),
        IsLower-cons t r rs f (m, h) (omega (arith, below, p)) all,
        elim hit [
          | inr (i, s, e', k) ↦ inr (suc i, s, e', k)
          | inl k ↦ elim z [ inl y ↦ inr (0, r, refl, k ∙ y) | inr y ↦ inl (k ∙ y) ]
        ],
      )
]

frontier_from_complete :
    (t : Tracker) (low : ℕ) (rs : List ReplicaId)
    → ((i : ℕ) (r : ReplicaId) → get_elem? rs i ≡ some r → IsMarked t r)
    → (f : ℕ) × (frontier_from t false low rs ≡ some f)
unfolding frontier_from
frontier_from_complete t low [] h = (low, refl)
frontier_from_complete t low (r ∷ rs) h =
    let (m, e) = h 0 r refl in
    let (f, k) =
      frontier_from_complete t (lower_of (usable_frontier (mark_of t r)) low) rs
        (λ i s. h (suc i) s) in
    (f, rw (e, frontier_from) k)

-- `SafeFrontier` answers exactly when there are active members and each has advertised a watermark,
-- and then it answers the least of their usable frontiers.
pub safe_frontier_iff :
    (t : Tracker) (active : List ReplicaId) (f : ℕ)
    → (safe_frontier t active ≡ some f) ↔ (IsLower t active f × IsAttained t active f)
unfolding safe_frontier frontier_from
safe_frontier_iff t [] f = (λ e. cc, λ (_, (i, r, e, _)). cc)
safe_frontier_iff t (r ∷ rs) f = (sound, complete)
  where
    u : ℕ
    u = usable_frontier (mark_of t r)

    sound :
        {f : ℕ} → safe_frontier t (r ∷ rs) ≡ some f → IsLower t (r ∷ rs) f × IsAttained t (r ∷ rs) f
    sound {f = f} e = elim (Option-cases (get r t.marks)) [
      | inl h ↦ ground (arith, h)
      | inr (m, h) ↦
          let (below, all, hit) = frontier_from_sound t u f rs (ground (arith, h)) in
          (
            IsLower-cons t r rs f (m, h) below all,
            elim hit [ inl k ↦ (0, r, refl, k) | inr (i, s, e', k) ↦ (suc i, s, e', k) ],
          )
    ]

    hit' : {f' : ℕ} → safe_frontier t (r ∷ rs) ≡ some f' → IsAttained t (r ∷ rs) f'
    hit' e = (sound e).1

    all' : {f' : ℕ} → safe_frontier t (r ∷ rs) ≡ some f' → IsLower t (r ∷ rs) f'
    all' e = (sound e).0

    complete : IsLower t (r ∷ rs) f × IsAttained t (r ∷ rs) f → safe_frontier t (r ∷ rs) ≡ some f
    complete (all, hit) =
        let (f', e) = frontier_from_complete t u rs (λ i s h. (all (suc i) s h).0) in
        let ((m, h), _) = all 0 r refl in
        let e' : safe_frontier t (r ∷ rs) ≡ some f' = rw (h, frontier_from) e in
        let (i, s, e1, k) = hit in
        let (j, s', e2, k') = hit' e' in
        let same : f' ≡ f = omega (arith, (all j s' e2).1, (all' e' i s e1).1, k, k') in
        rw (← same) e'

-- Where every active member has a mark, there is a frontier.
pub safe_frontier-total :
    (t : Tracker) (r : ReplicaId) (rs : List ReplicaId)
    → ((i : ℕ) (x : ReplicaId) → get_elem? (r ∷ rs) i ≡ some x → IsMarked t x)
    → (f : ℕ) × (safe_frontier t (r ∷ rs) ≡ some f)
unfolding safe_frontier frontier_from
safe_frontier-total t r rs h =
    let (m, e) = h 0 r refl in
    let (f, k) = frontier_from_complete t (usable_frontier (mark_of t r)) rs (λ i s. h (suc i) s) in
    (f, rw (e, frontier_from) k)
