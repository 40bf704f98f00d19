-- ===== src/Manager/Trimming.antt =====
-- `maybeTrim` of membership/membership.go: the tracker's frontier of the members, and the log.
use comlink.Common.{
  ◌≤◌, ◌<◌, ◌≡◌, refl, ◌∙◌, ap, ◌⊎◌, inl, inr, false, true, Bool-cases, Option-cases, none, some,
  List, arith, leb, if_false, max, ℕ, dec_lt,
}
use Prim.Native.Nat.{min}
use comlink.Common.Assoc.{IndexKey}
use comlink.Common.Result.{ok}
use comlink.Messages.{ReplicaId}
use comlink.Log.{Log, Entry, truncate, next_offset, lookup_by_sender}
use comlink.Log.Append.{IsSound}
use comlink.Log.Truncate.{Remains, truncate_lem}
use comlink.Manager.{Manager, maybe_trim, maybe_trim_log, trimmed_log, log_or}
use comlink.Trim.{Tracker, safe_frontier}
use comlink.Trim.Frontier.{IsLower, safe_frontier_iff}

-- The log `l` was trimmed to `l'` no further than each of the members has advertised.
abbrev pub TrimmedSafely : Tracker → List ReplicaId → Log → Log → Type 0
TrimmedSafely t members l l' =
    IsSound l'
    × (next_offset l' ≡ next_offset l)
    × ((l'.first_offset ≡ l.first_offset)
        ⊎ ((l.first_offset < l'.first_offset) × IsLower t members l'.first_offset))
    × ((k : IndexKey) (e : Entry)
        → lookup_by_sender l k.0 k.1 ≡ ok e
        → Remains l'.first_offset l' k e)

IsLower-le :
    (t : Tracker) (members : List ReplicaId) (f f' : ℕ)
    → f' ≤ f
    → IsLower t members f
    → IsLower t members f'
IsLower-le t members f f' h low i r e = let (m, p) = low i r e in (m, omega (arith, p, h))

-- A truncation to `f`, where `f` is at most the old first offset or usable for all members.
truncated-TrimmedSafely :
    (t : Tracker) (members : List ReplicaId) (l : Log) (f : ℕ)
    → IsSound l
    → l.closed ≡ false
    → (f ≡ 0) ⊎ IsLower t members f
    → (l' : Log) × (truncate l f ≡ ok l') × TrimmedSafely t members l l'
truncated-TrimmedSafely t members l f v open_log low =
    let (l', e, w, first, end, kept) = truncate_lem l f v open_log in
    (l', e, (w, end, moved l' first low, kept))
  where
    moved :
        (l' : Log)
        → l'.first_offset ≡ max l.first_offset (min f (next_offset l))
        → (f ≡ 0) ⊎ IsLower t members f
        → (l'.first_offset ≡ l.first_offset)
          ⊎ ((l.first_offset < l'.first_offset) × IsLower t members l'.first_offset)
    moved l' first (inl z) = inl (omega (arith, first, z))
    moved l' first (inr low) = elim (dec_lt l.first_offset l'.first_offset) [
      | yes h ↦ inr (h, IsLower-le t members f l'.first_offset (omega (arith, first, h)) low)
      | no h ↦ inl (omega (arith, first))
    ]

truncate_low :
    (l : Log) (f : ℕ) → l.closed ≡ false → leb f l.first_offset ≡ true → truncate l f ≡ ok l
unfolding truncate
truncate_low l f open_log b = rw (truncate, open_log, b) refl

trimmed_log-truncate :
    (l l' : Log) (f : ℕ) → l.closed ≡ false → truncate l f ≡ ok l' → trimmed_log l (some f) ≡ l'
unfolding trimmed_log
trimmed_log-truncate l l' f open_log e = elim (Bool-cases (leb f l.first_offset)) [
  | inl b ↦ let same : l ≡ l' = cc (truncate_low l f open_log b, e) in rw (trimmed_log, b) same
  | inr b ↦ if_false l (log_or l (truncate l f)) b ∙ ap (log_or l) e
]

trimmed_log-none : (l : Log) → l.closed ≡ false → trimmed_log l none ≡ l
unfolding trimmed_log
trimmed_log-none l open_log = refl

-- `maybeTrim` of a sound open log leaves it sound, with the same end. The first offset stays, or it
-- moves up to an offset for which each member has advertised a usable mark. Entries below it are no
-- longer found, all others are found as before.
pub maybe_trim-TrimmedSafely :
    (m : Manager) (l : Log)
    → m.log ≡ some l
    → IsSound l
    → l.closed ≡ false
    → (l' : Log) × ((maybe_trim m).log ≡ some l') × TrimmedSafely m.tracker m.members l l'
unfolding maybe_trim maybe_trim_log
maybe_trim-TrimmedSafely m l e v open_log =
    elim (Option-cases (safe_frontier m.tracker m.members)) [
      | inl q ↦
          let (l', p, safe) =
            truncated-TrimmedSafely m.tracker m.members l 0 v open_log (inl refl) in
          let same : l ≡ l' = cc (truncate_low l 0 open_log (ground arith), p) in
          (
            l',
            rw (maybe_trim, maybe_trim_log, e, q) (ap some (trimmed_log-none l open_log ∙ same)),
            safe,
          )
      | inr (f, q) ↦
          let low = ((safe_frontier_iff m.tracker m.members f).0 q).0 in
          let (l', p, safe) =
            truncated-TrimmedSafely m.tracker m.members l f v open_log (inr low) in
          (
            l',
            rw (maybe_trim, maybe_trim_log, e, q)
                (ap some (trimmed_log-truncate l l' f open_log p)),
            safe,
          )
    ]
