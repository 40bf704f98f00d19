-- ===== src/Log/Truncate.antt =====
-- `Truncate` and `Range` of log/memory.go: what is dropped, and what stays readable where it was.
use Prim.Native.Nat.{min}
use native.Mathlib.Nat.{zero-add}
use comlink.Common.{
  ℕ, zero, suc, ◌+◌, ◌-◌, ◌≤◌, ◌<◌, max, ◌≡◌, refl, sym, ◌∙◌, ◌⊎◌, inl, inr, true, false, some,
  List, [], ◌∷◌, arith, dec_lt, dec_le, ltb, leb, if◌then◌else◌, Option-cases, length, get_elem?,
  drop, leb→le,
}
use comlink.Common.Assoc.{nat_key, bytes_key, get}
use comlink.Common.Result.{ok, err}
use comlink.Common.Assoc.{IndexKey, index_key, keep_if, get-keep_if, keep_if-IsMap}
use comlink.Log.{Entry, Log, not_found, next_offset, lookup_by_sender, truncate}
use comlink.Log.Append.{IsSound, lookup_found, lookup_none, lookup_cases}

module _ {ℓ} {A : Type ℓ} where
  get_elem?-drop : (n i : ℕ) (xs : List A) → get_elem? (drop n xs) i ≡ get_elem? xs (n + i)
  get_elem?-drop zero i xs = rw zero-add
  get_elem?-drop (suc n) i [] = refl
  get_elem?-drop (suc n) i (x ∷ xs) = get_elem?-drop n i xs ∙ rw shift refl
    where
      shift : suc n + i ≡ suc (n + i)
      shift = omega arith

  pub length-drop : (n : ℕ) (xs : List A) → length (drop n xs) ≡ length xs - n
  length-drop zero xs = omega arith
  length-drop (suc n) [] = omega arith
  length-drop (suc n) (x ∷ xs) = omega (arith, length-drop n xs)

  pub drop-drop : (n m : ℕ) (xs : List A) → drop m (drop n xs) ≡ drop (n + m) xs
  drop-drop zero m xs = rw zero-add refl
  drop-drop (suc n) m [] = nothing m (suc n + m)
    where
      nothing : (i j : ℕ) → drop i [] ≡ drop {A = A} j []
      nothing zero zero = refl
      nothing zero (suc j) = refl
      nothing (suc i) zero = refl
      nothing (suc i) (suc j) = refl
  drop-drop (suc n) m (x ∷ xs) = drop-drop n m xs ∙ rw shift refl
    where
      shift : suc n + m ≡ suc (n + m)
      shift = omega arith

-- The new first offset: `below`, but never past the end and never back.
abbrev pub cut_at : Log → ℕ → ℕ
cut_at l below = if ltb (next_offset l) below then next_offset l else below

abbrev truncated : Log → ℕ → Log
truncated l cut = record l {
  entries = drop (cut - l.first_offset) l.entries;
  first_offset = cut;
  index = keep_if (λ off. leb cut off) l.index;
}

truncated-IsSound :
    (l : Log) (cut : ℕ)
    → IsSound l
    → l.first_offset ≤ cut
    → cut ≤ l.first_offset + length l.entries
    → IsSound (truncated l cut)
truncated-IsSound l cut v lo hi = record {
  bounded = omega (arith, v.bounded, size);
  unique = keep_if-IsMap (λ off. leb cut off) l.index v.unique;
  numbered = λ i e h. omega (
    arith,
    v.numbered (cut - l.first_offset + i) e
        (sym (get_elem?-drop (cut - l.first_offset) i l.entries) ∙ h),
  );
  indexed = λ k off h.
      let h' = sym (get-keep_if (λ o. leb cut o) k l.index v.unique) ∙ h in
      elim (Option-cases (get k l.index)) [
        | inl e ↦ ground (arith, get-keep_if (λ o. leb cut o) k l.index v.unique)
        | inr (o, e) ↦
            let q : o ≡ off = ground (arith, get-keep_if (λ o. leb cut o) k l.index v.unique) in
            let c : leb cut o ≡ true =
              ground (arith, get-keep_if (λ o. leb cut o) k l.index v.unique) in
            let (a, b) = v.indexed k o e in omega (arith, q, leb→le cut o c, a, b, size)
      ];
}
  where
    size :
        length (drop (cut - l.first_offset) l.entries) ≡ length l.entries - (cut - l.first_offset)
    size = length-drop (cut - l.first_offset) l.entries

-- What `Truncate` leaves of a lookup that found `e`.
abbrev pub Remains : ℕ → Log → IndexKey → Entry → Type 0
Remains cut l k e =
    ((e.offset < cut) × (lookup_by_sender l k.0 k.1 ≡ err not_found))
    ⊎ ((cut ≤ e.offset) × (lookup_by_sender l k.0 k.1 ≡ ok e))

truncated-Remains :
    (l : Log) (cut : ℕ) (k : IndexKey) (e : Entry)
    → IsSound l
    → l.closed ≡ false
    → l.first_offset ≤ cut
    → cut ≤ l.first_offset + length l.entries
    → lookup_by_sender l k.0 k.1 ≡ ok e
    → Remains cut (truncated l cut) k e
truncated-Remains l cut k e v open_log lo hi h = elim (lookup_cases l k v open_log) [
  | inl p ↦ cc (p.1, h)
  | inr (off, x, at_key, stored, numbered, found) ↦
      let same : x ≡ e = cc (found, h) in
      let kept = get-keep_if (λ o. leb cut o) k l.index v.unique in
      let offset : e.offset ≡ off = rw (← same) numbered in
      elim (dec_lt off cut) [
        | yes p ↦ inl (omega arith, lookup_none (truncated l cut) k.0 k.1 open_log (ground arith))
        | no p ↦ inr (
          omega arith,
          lookup_found (truncated l cut) k.0 k.1 off e (truncated-IsSound l cut v lo hi) open_log
              (ground arith)
              (get_elem?-drop (cut - l.first_offset) (off - cut) l.entries
                ∙ moved off stored same p),
        )
      ]
]
  where
    moved :
        (off : ℕ) {x : Entry}
        → get_elem? l.entries (off - l.first_offset) ≡ some x
        → x ≡ e
        → ¬ (off < cut)
        → get_elem? l.entries (cut - l.first_offset + (off - cut)) ≡ some e
    moved off f same p =
        let q : cut - l.first_offset + (off - cut) ≡ off - l.first_offset = omega arith in
        rw (q, f, same) refl

-- `Truncate` of an open log moves the first offset up to `below`, at most to the end and never back;
-- the end stays. Entries below the new first offset are no longer found, all others are found as
-- before, and the log stays sound.
pub truncate_lem :
    (l : Log) (below : ℕ)
    → IsSound l
    → l.closed ≡ false
    → (l' : Log) × (truncate l below ≡ ok l')
      × IsSound l'
      × (l'.first_offset ≡ max l.first_offset (min below (next_offset l)))
      × (next_offset l' ≡ next_offset l)
      × ((k : IndexKey) (e : Entry)
          → lookup_by_sender l k.0 k.1 ≡ ok e
          → Remains l'.first_offset l' k e)
unfolding truncate
truncate_lem l below v open_log = elim (dec_le below l.first_offset) [
  | yes h ↦ (l, ground arith, v, omega arith, refl, λ k e f. inr (found_above k e f, f))
  | no h ↦
      let lo : l.first_offset ≤ cut_at l below = ground (arith, v.bounded) in
      let hi : cut_at l below ≤ l.first_offset + length l.entries = ground (arith, v.bounded) in
      (
        truncated l (cut_at l below),
        ground arith,
        truncated-IsSound l (cut_at l below) v lo hi,
        ground (arith, v.bounded),
        omega (arith, length-drop (cut_at l below - l.first_offset) l.entries),
        λ k e. truncated-Remains l (cut_at l below) k e v open_log lo hi,
      )
]
  where
    found_above :
        (k : IndexKey) (e : Entry) → lookup_by_sender l k.0 k.1 ≡ ok e → l.first_offset ≤ e.offset
    found_above k e f = elim (lookup_cases l k v open_log) [
      | inl p ↦ cc (p.1, f)
      | inr (off, x, at_key, stored, numbered, found) ↦
          let same : x ≡ e = cc (found, f) in
          rw (← same) (omega (arith, numbered, v.indexed k off at_key))
    ]
