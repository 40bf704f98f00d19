-- ===== src/Log/File/History.antt =====
-- The history that a log of log/file.go stands for: its appends in order, of which those from the
-- first offset on are readable. The cache of a scan is the one that the history describes.
use native.Mathlib.Nat.{add-zero}
use comlink.Common.{
  ℕ, zero, suc, ◌+◌, ◌-◌, ◌^◌, ◌≤◌, ◌<◌, ◌≡◌, refl, ap, subst, sym, ◌∙◌, inl, inr, Option, some,
  none, true, false, List, [], ◌∷◌, ◌++◌, arith, dec_le, ite, length, append_assoc, append-nil, leb,
  if◌then◌else◌, drop, Option-cases,
}
use comlink.Common.Assoc.{
  Assoc, IndexKey, IndexKey-discrete, index_key, get, put, get-put, IsMap, put-IsMap, only_if,
}
use comlink.Messages.{sender_of}
use comlink.Log.{Entry, Log}
use comlink.Log.File.Frames.{Frame, replay}
use comlink.Log.File.{cached}
use comlink.Psync.Vector.{u64}

abbrev pub key_of : Frame → IndexKey
key_of f = (sender_of f.envelope, f.seq)

-- The entries of all appends, the first of them at `off`.
abbrev pub numbered : ℕ → List Frame → List Entry
numbered off [] = []
numbered off (f ∷ fs) = record { offset = off; envelope = f.envelope } ∷ numbered (off + 1) fs

abbrev pub later : Option ℕ → Option ℕ → Option ℕ
later (some o) d = some o
later none d = d

abbrev pub here : IndexKey → ℕ → ℕ → Frame → Option ℕ
here k first off f =
    if leb first off then ite (IndexKey-discrete (key_of f) k) (some off) none else none

-- The offset of the last append of `k`, if that is readable.
abbrev pub last_at : IndexKey → ℕ → ℕ → List Frame → Option ℕ
last_at k first off [] = none
last_at k first off (f ∷ fs) = later (last_at k first (off + 1) fs) (here k first off f)

later_assoc : (a b d : Option ℕ) → later (later a b) d ≡ later a (later b d)
later_assoc none b d = refl
later_assoc (some o) b d = refl

pub length-numbered : (off : ℕ) (fs : List Frame) → length (numbered off fs) ≡ length fs
length-numbered off [] = refl
length-numbered off (f ∷ fs) = ap suc (length-numbered (off + 1) fs)

drop_entries :
    (off first : ℕ) (es : List Entry) (f : Frame) (fs : List Frame)
    → first ≤ off
    → (es ++ record { offset = off; envelope = f.envelope } ∷ [])
        ++ drop (first - (off + 1)) (numbered (off + 1) fs)
      ≡ es ++ drop (first - off) (numbered off (f ∷ fs))
drop_entries off first es f fs h = rw (behind, at) (append_assoc es _ _)
  where
    behind : first - (off + 1) ≡ 0
    behind = omega arith

    at : first - off ≡ 0
    at = omega arith

drop_nil : {A : Type 0} (n : ℕ) → drop {A = A} n [] ≡ []
drop_nil zero = refl
drop_nil (suc n) = refl

-- The log that a replay leaves.
abbrev pub Replays : Log → ℕ → List Frame → Log → Type 0
Replays l off fs l' =
    (index' : Assoc IndexKey ℕ) × (l' ≡ record l {
      entries = l.entries ++ drop (l.first_offset - off) (numbered off fs);
      index = index';
    })
    × (IsMap l.index → IsMap index')
    × ((k : IndexKey) → get k index' ≡ later (last_at k l.first_offset off fs) (get k l.index))

pub later-here :
    (k : IndexKey) (first off : ℕ) (f : Frame) (d : Option ℕ)
    → first ≤ off
    → ite (IndexKey-discrete (key_of f) k) (some off) d ≡ later (here k first off f) d
later-here k first off f d h = ground arith

none-here :
    (k : IndexKey) (first off : ℕ) (f : Frame)
    → off < first
    → (d : Option ℕ) → later (here k first off f) d ≡ d
none-here k first off f h d = ground arith

Replays-cached :
    (l : Log) (off : ℕ) (f : Frame) (fs : List Frame) (l' : Log)
    → l.first_offset ≤ off
    → Replays (cached l off f.seq f.envelope) (off + 1) fs l'
    → Replays l off (f ∷ fs) l'
unfolding put
Replays-cached l off f fs l' h (index', p, u, g) = (
  index',
  p ∙ (λ i. record l {
    entries = drop_entries off l.first_offset l.entries f fs h i;
    index = index';
  }),
  λ unique. u (put-IsMap (key_of f) off l.index unique),
  λ k.
      g k
      ∙ ap (later (last_at k l.first_offset (off + 1) fs))
          (get-put (key_of f) k off l.index ∙ later-here k l.first_offset off f (get k l.index) h)
      ∙ sym (later_assoc _ (here k l.first_offset off f) _),
)

Replays-skipped :
    (l : Log) (off : ℕ) (f : Frame) (fs : List Frame) (l' : Log)
    → off < l.first_offset
    → Replays l (off + 1) fs l'
    → Replays l off (f ∷ fs) l'
Replays-skipped l off f fs l' h (index', p, u, g) = (
  index',
  rw one_less p,
  u,
  λ k.
      g k
      ∙ ap (later (last_at k l.first_offset (off + 1) fs))
          (sym (none-here k l.first_offset off f h _))
      ∙ sym (later_assoc _ (here k l.first_offset off f) _),
)
  where
    one_less : l.first_offset - off ≡ suc (l.first_offset - (off + 1))
    one_less = omega arith

pub replay-Replays :
    (l : Log) (off : ℕ) (fs : List Frame)
    → off + length fs < 2 ^ 64
    → Replays l off fs (replay l off fs)
replay-Replays l off [] h =
    (l.index, (λ i. record l { entries = whole i }), λ unique. unique, λ k. refl)
  where
    whole : l.entries ≡ l.entries ++ drop (l.first_offset - off) []
    whole = rw (drop_nil {A = Entry} (l.first_offset - off)) (sym (append-nil l.entries))
replay-Replays l off (f ∷ fs) h = elim (dec_le l.first_offset off) [
  | yes p ↦ subst (Replays l off (f ∷ fs)) (rw (taken p, no_wrap) refl) (
      Replays-cached l off f fs _ p
        (replay-Replays (cached l off f.seq f.envelope) (off + 1) fs (omega arith)))
  | no p ↦
      subst (Replays l off (f ∷ fs)) (rw (skipped p, no_wrap) refl)
        (Replays-skipped l off f fs _ (omega arith) (replay-Replays l (off + 1) fs (omega arith)))
]
  where
    no_wrap : u64 (off + 1) ≡ off + 1
    no_wrap = omega arith

    taken : l.first_offset ≤ off → leb l.first_offset off ≡ true
    taken p = ground arith

    skipped : ¬ (l.first_offset ≤ off) → leb l.first_offset off ≡ false
    skipped p = ground arith

last_at-le :
    (k : IndexKey) (first off : ℕ) (fs : List Frame) {o : ℕ}
    → last_at k first off fs ≡ some o
    → (off ≤ o) × (first ≤ o) × (o < off + length fs)
last_at-le k first off [] e = cc
last_at-le k first off (f ∷ fs) e = elim (Option-cases (last_at k first (off + 1) fs)) [
  | inl q ↦ ground (arith, e, q)
  | inr (o, q) ↦ ground (arith, e, q, last_at-le k first (off + 1) fs q)
]

-- Truncation drops the offsets below the cut.
pub only_if-last_at :
    (k : IndexKey) (first cut off : ℕ) (fs : List Frame)
    → first ≤ cut
    → only_if (λ o. leb cut o) (last_at k first off fs) ≡ last_at k cut off fs
only_if-last_at k first cut off [] h = refl
only_if-last_at k first cut off (f ∷ fs) h = elim (Option-cases (last_at k first (off + 1) fs)) [
  | inl q ↦ ground (arith, q, only_if-last_at k first cut (off + 1) fs h)
  | inr (o, q) ↦
      ground
        (arith, q, last_at-le k first (off + 1) fs q, only_if-last_at k first cut (off + 1) fs h)
]

pub last_at-snoc :
    (k : IndexKey) (first off : ℕ) (fs : List Frame) (f : Frame)
    → last_at k first off (fs ++ f ∷ [])
      ≡ later (here k first (off + length fs) f) (last_at k first off fs)
last_at-snoc k first off [] f = ground (arith)
last_at-snoc k first off (g ∷ fs) f =
    rw (last_at-snoc k first (off + 1) fs f, shift)
      (later_assoc (here k first (off + suc (length fs)) f) (last_at k first (off + 1) fs)
        (here k first off g))
  where
    shift : off + 1 + length fs ≡ off + suc (length fs)
    shift = omega arith

pub numbered-snoc :
    (off : ℕ) (fs : List Frame) (f : Frame)
    → numbered off (fs ++ f ∷ [])
      ≡ numbered off fs ++ record { offset = off + length fs; envelope = f.envelope } ∷ []
numbered-snoc off [] f = rw add-zero refl
numbered-snoc off (g ∷ fs) f = rw (numbered-snoc (off + 1) fs f, shift) refl
  where
    shift : off + 1 + length fs ≡ off + suc (length fs)
    shift = omega arith
