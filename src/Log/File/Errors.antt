-- ===== src/Log/File/Errors.antt =====
-- `OpenFile` of log/file.go always ends, and what it does with a header that is torn off.
use comlink.Common.{
  ℕ, zero, suc, ◌+◌, ◌-◌, ◌^◌, ◌<◌, ◌≡◌, ◌≢◌, refl, ap, subst, ite, sym, ◌∙◌, ◌==◌, inl, inr, some,
  none, Option, [], ◌∷◌, ◌++◌, arith, dec_lt, length, Option-cases, ℕ_discrete, Bool-cases,
}
use comlink.Common.Assoc.{Bytes, Bytes-discrete}
use comlink.Common.Bytes.{
  put_le, get_le, take, read_full, get_le-put_le, read_full_short, read_full-length,
  take-append_right, length-take-lt,
}
use comlink.Common.Result.{Result, ok, err, ◌>>=◌, Result-cases}
use comlink.Log.{Log}
use comlink.Psync.Vector.{u64}
use comlink.Log.File.{
  Codec, FileError, magic_bytes, header_bytes, read_meta, read_header, read_conv, empty_cache,
  cache_frame, scan, open_or_create, open_scanned, create, required, unreadable, out_of_fuel,
}

-- Fuel beyond the number of bytes is enough for the scan.
cache_frame_ends :
    (c : Codec) (off : ℕ) (hdr payload : Bytes) (l : Log)
    → cache_frame c off hdr payload l ≢ err out_of_fuel
unfolding cache_frame
cache_frame_ends c off hdr payload l e = ground (arith, e)

scan_ends :
    (c : Codec) (n : ℕ) (kept rest : Bytes) (off : ℕ) (l : Log)
    → length rest < n
    → scan c n kept rest off l ≢ err out_of_fuel
unfolding scan
scan_ends c zero kept rest off l h e = elim h [ ]
scan_ends c (suc n) kept rest off l h e = elim (Option-cases (read_full 16 rest)) [
  | inl q ↦ let z : scan c (suc n) kept rest off l ≡ ok (kept, l) = rw (scan, q) refl in cc (z, e)
  | inr ((hdr, r), q) ↦ elim (Option-cases (read_full (get_le (take 4 hdr)) r)) [
    | inl q' ↦
        let z : scan c (suc n) kept rest off l ≡ ok (kept, l) = rw (scan, q, q') refl in cc (z, e)
    | inr ((payload, r'), q') ↦ elim (Result-cases (cache_frame c off hdr payload l)) [
      | inr (x, q'') ↦
          let z : scan c (suc n) kept rest off l ≡ err x = rw (scan, q, q', q'') refl in
          let y : err x ≡ err out_of_fuel = sym z ∙ e in
          cache_frame_ends c off hdr payload l (q'' ∙ cc y)
      | inl (l', q'') ↦
          let z : scan c (suc n) kept rest off l
              ≡ scan c n (kept ++ hdr ++ payload) r' (u64 (off + 1)) l' =
            rw (scan, q, q', q'') refl in
          scan_ends c n _ r' _ l'
            (omega (arith, read_full-length 16 rest q, read_full-length (get_le (take 4 hdr)) r q'))
            (sym z ∙ e)
    ]
  ]
]

-- The fuel did not run out.
abbrev Ends : {A : Type 0} → Result FileError A → Type 0
Ends (ok a) = Unit
Ends (err e) = e ≢ out_of_fuel

Ends-sound : {A : Type 0} (r : Result FileError A) → r ≢ err out_of_fuel → Ends r
Ends-sound (ok a) h = tt
Ends-sound (err e) h = λ q. h (ap err q)

Ends-bind :
    {A B : Type 0} (r : Result FileError A) (f : A → Result FileError B)
    → Ends r
    → ((a : A) → Ends (f a))
    → Ends (r >>= f)
Ends-bind (ok a) f h g = g a
Ends-bind (err y) f h g = h

Ends-required : {A : Type 0} (o : Option A) → Ends (required o)
Ends-required none = λ e. cc e
Ends-required (some a) = tt

Ends-ite :
    {P A : Type 0} (d : Dec P) (a b : Result FileError A) → Ends a → Ends b → Ends (ite d a b)
Ends-ite (yes p) a b h g = h
Ends-ite (no p) a b h g = g

read_conv-Ends : (c : Codec) (conv : Bytes) (magic : Bytes × Bytes) → Ends (read_conv c conv magic)
unfolding read_conv
read_conv-Ends c conv magic =
    Ends-bind (required (read_full 4 magic.1)) _ (Ends-required (read_full 4 magic.1)) λ size.
      Ends-bind (required (read_full (get_le size.0) size.1)) _
        (Ends-required (read_full (get_le size.0) size.1))
        λ bytes.
          Ends-bind (required (c.unmarshal_conv bytes.0)) _
            (Ends-required (c.unmarshal_conv bytes.0))
            λ stored. Ends-ite (Bytes-discrete stored conv) _ _ tt (λ e. cc e)

read_header-Ends : (c : Codec) (conv bytes : Bytes) → Ends (read_header c conv bytes)
unfolding read_header
read_header-Ends c conv bytes =
    Ends-bind (required (read_full 8 bytes)) _ (Ends-required (read_full 8 bytes)) λ magic.
      Ends-ite (Bytes-discrete magic.0 magic_bytes) _ _ (read_conv-Ends c conv magic) (λ e. cc e)

open_scanned-Ends :
    (c : Codec) (conv bytes : Bytes) (meta : Option Bytes) (first : ℕ)
    → Ends (open_scanned c conv bytes meta first)
unfolding open_scanned
open_scanned-Ends c conv bytes meta first =
    Ends-bind (read_header c conv bytes) _ (read_header-Ends c conv bytes) λ header.
      Ends-bind (scan c (suc (length header.1)) header.0 header.1 0 (empty_cache conv first)) _
        (Ends-sound _ (
          scan_ends c (suc (length header.1)) header.0 header.1 0 (empty_cache conv first)
            (omega arith)))
        λ scanned. tt

create-Ends :
    (c : Codec) (conv : Bytes) (meta : Option Bytes) (first : ℕ) → Ends (create c conv meta first)
unfolding create
create-Ends c conv meta first = elim (Option-cases (c.marshal_conv conv)) [
  | inl e ↦ rw (create, e) (λ q. cc q)
  | inr (b, e) ↦ rw (create, e) tt
]

read_meta-Ends : (meta : Option Bytes) → Ends (read_meta meta)
unfolding read_meta
read_meta-Ends none = tt
read_meta-Ends (some bytes) = elim (Bool-cases (length bytes == 8)) [
  | inl e ↦ rw e tt
  | inr e ↦ rw e (λ q. cc q)
]

opened-Ends :
    (c : Codec) (conv bytes : Bytes) (meta : Option Bytes) → Ends (open_or_create c conv bytes meta)
unfolding open_or_create
opened-Ends c conv [] meta =
    Ends-bind (read_meta meta) _ (read_meta-Ends meta) (create-Ends c conv meta)
opened-Ends c conv (b ∷ bs) meta =
    Ends-bind (read_meta meta) _ (read_meta-Ends meta) (open_scanned-Ends c conv (b ∷ bs) meta)

-- `OpenFile` of any two files ends: the fuel of the scan never runs out.
pub open_or_create_ends :
    (c : Codec) (conv bytes : Bytes) (meta : Option Bytes)
    → open_or_create c conv bytes meta ≢ err out_of_fuel
open_or_create_ends c conv bytes meta e = subst Ends e (opened-Ends c conv bytes meta) refl

torn_size :
    (c : Codec) (conv conv_bytes : Bytes) (j : ℕ)
    → j < 4
    → read_header c conv (take (8 + j) (header_bytes conv_bytes)) ≡ err unreadable
unfolding read_header read_conv read_full Bytes-discrete ℕ_discrete
torn_size c conv conv_bytes j h =
    ap (read_header c conv)
      (take-append_right j magic_bytes (put_le 4 (length conv_bytes) ++ conv_bytes))
    ∙ rw
        (read_full_short 4 (take j (put_le 4 (length conv_bytes) ++ conv_bytes)) (
          omega
            (arith, length-take-lt j (put_le 4 (length conv_bytes) ++ conv_bytes) (omega arith))))
        refl

torn_conv :
    (c : Codec) (conv conv_bytes : Bytes) (j : ℕ)
    → length conv_bytes < 2 ^ 32
    → j < length conv_bytes
    → read_header c conv (take (12 + j) (header_bytes conv_bytes)) ≡ err unreadable
unfolding read_header read_conv read_full Bytes-discrete ℕ_discrete
torn_conv c conv conv_bytes j fits h =
    ap (read_header c conv)
      (take-append_right j (magic_bytes ++ put_le 4 (length conv_bytes)) conv_bytes)
    ∙ rw
        (
          get_le-put_le 4 (length conv_bytes) fits,
          read_full_short (length conv_bytes) (take j conv_bytes)
              (omega (arith, length-take-lt j conv_bytes h)),
        )
        refl

read_header_torn :
    (c : Codec) (conv conv_bytes : Bytes) (n : ℕ)
    → length conv_bytes < 2 ^ 32
    → n < length (header_bytes conv_bytes)
    → read_header c conv (take n (header_bytes conv_bytes)) ≡ err unreadable
unfolding read_header
read_header_torn c conv conv_bytes n fits h = elim (dec_lt n 8) [
  | yes p ↦
      rw
        (
          read_header,
          read_full_short 8 (take n (header_bytes conv_bytes))
              (omega (arith, length-take-lt n (header_bytes conv_bytes) h)),
        )
        refl
  | no p ↦ elim (dec_lt n 12) [
    | yes q ↦
        subst Torn {x = 8 + (n - 8)} (omega arith)
          (torn_size c conv conv_bytes (n - 8) (omega arith))
    | no q ↦
        subst Torn {x = 12 + (n - 12)} (omega arith)
          (torn_conv c conv conv_bytes (n - 12) fits (omega arith))
  ]
]
  where
    Torn : ℕ → Type 0
    Torn m = read_header c conv (take m (header_bytes conv_bytes)) ≡ err unreadable

-- A crash in the middle of `writeHeader` leaves a proper part of the header in the data file. If it is
-- not empty, then `OpenFile` refuses the file as corrupt from then on.
pub open_or_create_torn :
    (c : Codec) (conv conv_bytes : Bytes) (n first : ℕ) (meta : Option Bytes)
    → length conv_bytes < 2 ^ 32
    → suc n < length (header_bytes conv_bytes)
    → read_meta meta ≡ ok first
    → open_or_create c conv (take (suc n) (header_bytes conv_bytes)) meta ≡ err unreadable
unfolding open_or_create open_scanned
open_or_create_torn c conv conv_bytes n first meta fits h m =
    rw (open_or_create, m, read_header_torn c conv conv_bytes (suc n) fits h) refl
