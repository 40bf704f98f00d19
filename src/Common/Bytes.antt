-- ===== src/Common/Bytes.antt =====
-- encoding/binary's little-endian numbers, and io.ReadFull on the bytes that are left.
use Prim.Native.Nat.{ℕ, zero, suc, ◌+◌, ◌*◌, ◌/◌, ◌%◌, ◌^◌, ◌<◌}
use mathlib.Core.Path.{◌≡◌, refl}
use mathlib.Core.List.{[], ◌∷◌, ◌++◌}
use mathlib.Core.Option.{Option, none, some}
use native.Mathlib.Omega.{arith}
use native.Mathlib.Nat.{zero-add}
use mathlib.Core.Logic.{inl, inr}
use comlink.Common.Lists.{length}
use comlink.Common.Tests.{Option-cases}
use comlink.Common.Assoc.{Bytes}

-- `PutUint32` and `PutUint64` at widths of 4 and 8 bytes.
abbrev pub put_le : ℕ → ℕ → Bytes
put_le zero n = []
put_le (suc w) n = n % 256 ∷ put_le w (n / 256)

-- `Uint32` and `Uint64` of as many bytes.
abbrev pub get_le : Bytes → ℕ
get_le [] = 0
get_le (b ∷ bs) = b + 256 * get_le bs

abbrev pub take : ℕ → Bytes → Bytes
take zero bs = []
take (suc n) [] = []
take (suc n) (b ∷ bs) = b ∷ take n bs

abbrev behind : ℕ → Option (Bytes × Bytes) → Option (Bytes × Bytes)
behind b none = none
behind b (some (read, rest)) = some (b ∷ read, rest)

-- `ReadFull` of `n` bytes: these and the rest, or nothing when fewer are left.
unfoldable pub read_full : ℕ → Bytes → Option (Bytes × Bytes)
read_full zero bs = some ([], bs)
read_full (suc n) [] = none
read_full (suc n) (b ∷ bs) = behind b (read_full n bs)

pub get_le-put_le : (w n : ℕ) → n < 256 ^ w → get_le (put_le w n) ≡ n
get_le-put_le zero n h = omega arith
get_le-put_le (suc w) n h = omega (arith, get_le-put_le w (n / 256) (omega arith))

pub length-put_le : (w n : ℕ) → length (put_le w n) ≡ w
length-put_le zero n = refl
length-put_le (suc w) n = omega (arith, length-put_le w (n / 256))

pub read_full-append : (xs bs : Bytes) → read_full (length xs) (xs ++ bs) ≡ some (xs, bs)
unfolding read_full
read_full-append [] bs = refl
read_full-append (a ∷ xs) bs = rw (read_full-append xs bs) refl

pub read_full_short : (n : ℕ) (bs : Bytes) → length bs < n → read_full n bs ≡ none
unfolding read_full
read_full_short zero bs h = elim h [ ]
read_full_short (suc n) [] h = refl
read_full_short (suc n) (b ∷ bs) h = rw (read_full_short n bs (omega arith)) refl

-- What was read is as long as asked for, and is followed by the rest.
pub read_full-length :
    (n : ℕ) (bs : Bytes) {read rest : Bytes}
    → read_full n bs ≡ some (read, rest)
    → length bs ≡ n + length rest
unfolding read_full
read_full-length zero bs h = ground arith
read_full-length (suc n) [] h = cc
read_full-length (suc n) (b ∷ bs) h = elim (Option-cases (read_full n bs)) [
  | inl e ↦ ground (arith, e)
  | inr (r, e) ↦ ground (arith, e, read_full-length n bs e)
]

pub take-append_left : (n : ℕ) (xs bs : Bytes) → n < length xs → take n (xs ++ bs) ≡ take n xs
take-append_left n [] bs h = elim h [ ]
take-append_left zero (a ∷ xs) bs h = refl
take-append_left (suc n) (a ∷ xs) bs h = rw (take-append_left n xs bs (omega arith)) refl

pub take-append_right : (n : ℕ) (xs bs : Bytes) → take (length xs + n) (xs ++ bs) ≡ xs ++ take n bs
take-append_right n [] bs = rw zero-add refl
take-append_right n (a ∷ xs) bs = rw (shift, take-append_right n xs bs) refl
  where
    shift : suc (length xs) + n ≡ suc (length xs + n)
    shift = omega arith

pub length-take-lt : (n : ℕ) (bs : Bytes) → n < length bs → length (take n bs) ≡ n
length-take-lt n [] h = elim h [ ]
length-take-lt zero (b ∷ bs) h = refl
length-take-lt (suc n) (b ∷ bs) h = omega (arith, length-take-lt n bs (omega arith))
