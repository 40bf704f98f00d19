-- ===== src/Common/Assoc.antt =====
-- Go's maps as association lists. A key stands at most once in a map that `put` builds.
use Prim.Native.Nat.{ℕ, ◌+◌, ◌≤◌, ◌<◌}
use mathlib.Core.Path.{◌≡◌, refl}
use mathlib.Core.Logic.{ite, ◌≢◌}
use mathlib.Core.Bool.{Bool, true, false}
use mathlib.Core.List.{List, [], ◌∷◌}
use mathlib.Core.Option.{Option, none, some}
use native.Mathlib.Omega.{arith}
use native.Mathlib.Decide.{ℕ_discrete}
use comlink.Common.Lists.{length, All}

-- What a key type needs: a test of equality.
pub record Key (K : Type 0) : Type 0 where
  pub dec : Discrete K

abbrev pub Bytes : Type 0
Bytes = List ℕ

unfoldable pub Bytes-discrete : Discrete Bytes
Bytes-discrete = hlevel ℕ_discrete

abbrev pub Assoc : Type 0 → Type 0 → Type 0
Assoc K V = List (K × V)

instance abbrev pub nat_key : Key ℕ
nat_key = record { dec = ℕ_discrete }

instance abbrev pub bytes_key : Key Bytes
bytes_key = record { dec = Bytes-discrete }

module _ {K V : Type 0} ⦃e : Key K⦄ where
  unfoldable pub get : K → Assoc K V → Option V
  get k [] = none
  get k ((j, v) ∷ m) = ite (e.dec j k) (some v) (get k m)

  unfoldable pub put : K → V → Assoc K V → Assoc K V
  put k v [] = (k, v) ∷ []
  put k v ((j, w) ∷ m) = ite (e.dec j k) ((k, v) ∷ m) ((j, w) ∷ put k v m)

  unfoldable pub delete : K → Assoc K V → Assoc K V
  delete k [] = []
  delete k ((j, w) ∷ m) = let rest = delete k m in ite (e.dec j k) rest ((j, w) ∷ rest)

  pub get-put :
      (k j : K) (v : V) (m : Assoc K V) → get j (put k v m) ≡ ite (e.dec k j) (some v) (get j m)
  unfolding get put
  get-put k j v [] = refl
  get-put k j v ((i, w) ∷ m) = ground (arith, get-put k j v m)

  pub get-put_self : (k : K) (v : V) (m : Assoc K V) → get k (put k v m) ≡ some v
  get-put_self k v m = ground (arith, get-put k k v m)

  pub get-put_ne : (k j : K) (v : V) (m : Assoc K V) → k ≢ j → get j (put k v m) ≡ get j m
  get-put_ne k j v m n = ground (arith, get-put k j v m)

  pub get-delete : (k j : K) (m : Assoc K V) → get j (delete k m) ≡ ite (e.dec k j) none (get j m)
  unfolding get delete
  get-delete k j [] = ground arith
  get-delete k j ((i, w) ∷ m) = ground (arith, get-delete k j m)

  pub length-delete-le : (k : K) (m : Assoc K V) → length (delete k m) ≤ length m
  unfolding delete
  length-delete-le k [] = omega arith
  length-delete-le k ((i, w) ∷ m) = ground (arith, length-delete-le k m)

  pub length-put-le : (k : K) (v : V) (m : Assoc K V) → length (put k v m) ≤ length m + 1
  unfolding put
  length-put-le k v [] = omega arith
  length-put-le k v ((i, w) ∷ m) = ground (arith, length-put-le k v m)

  pub length-put_again :
      (k : K) (v w : V) (m : Assoc K V) → get k m ≡ some w → length (put k v m) ≡ length m
  unfolding get put
  length-put_again k v w [] h = cc
  length-put_again k v w ((i, x) ∷ m) h = ground (arith, length-put_again k v w m)

  pub length-delete-lt :
      (k : K) (w : V) (m : Assoc K V) → get k m ≡ some w → length (delete k m) < length m
  unfolding get delete
  length-delete-lt k w [] h = cc
  length-delete-lt k w ((i, x) ∷ m) h = ground (arith, length-delete-lt k w m, length-delete-le k m)

-- Keys of two parts, such as Go's `indexKey`.
abbrev pub IndexKey : Type 0
IndexKey = Bytes × ℕ

unfoldable pub IndexKey-discrete : Discrete IndexKey
IndexKey-discrete = hlevel (Bytes-discrete, ℕ_discrete)

instance abbrev pub index_key : Key IndexKey
index_key = record { dec = IndexKey-discrete }

-- An optional value, if it passes the test.
abbrev pub only_if : {V : Type 0} → (V → Bool) → Option V → Option V
only_if p none = none
only_if p (some v) = elim (p v) [ true ↦ some v | false ↦ none ]

-- Drops the entries whose value fails the test.
module _ {K V : Type 0} ⦃e : Key K⦄ where
  unfoldable pub keep_if : (V → Bool) → Assoc K V → Assoc K V
  keep_if p [] = []
  keep_if p ((k, v) ∷ m) =
      let rest = keep_if p m in elim (p v) [ true ↦ (k, v) ∷ rest | false ↦ rest ]

  -- No key stands twice, as in every Go map.
  abbrev pub IsMap : Assoc K V → Type 0
  IsMap [] = Unit
  IsMap ((k, v) ∷ m) = All (λ (e' : K × V). e'.0 ≢ k) m × IsMap m

  absent-put :
      (k j : K) (v : V) (m : Assoc K V)
      → All (λ (e' : K × V). e'.0 ≢ j) m
      → k ≢ j
      → All (λ (e' : K × V). e'.0 ≢ j) (put k v m)
  unfolding put
  absent-put k j v [] h n = (n, tt)
  absent-put k j v ((i, w) ∷ m) h n = ground (arith, absent-put k j v m h.1 n)

  pub put-IsMap : (k : K) (v : V) (m : Assoc K V) → IsMap m → IsMap (put k v m)
  unfolding put
  put-IsMap k v [] h = (tt, tt)
  put-IsMap k v ((j, w) ∷ m) h = elim (e.dec j k) [
    | yes q ↦ ground arith
    | no q ↦ ground (arith, put-IsMap k v m h.1, absent-put k j v m h.0)
  ]

  absent-keep_if :
      (p : V → Bool) (j : K) (m : Assoc K V)
      → All (λ (e' : K × V). e'.0 ≢ j) m
      → All (λ (e' : K × V). e'.0 ≢ j) (keep_if p m)
  unfolding keep_if
  absent-keep_if p j [] h = tt
  absent-keep_if p j ((i, w) ∷ m) h = ground (arith, absent-keep_if p j m h.1)

  pub keep_if-IsMap : (p : V → Bool) (m : Assoc K V) → IsMap m → IsMap (keep_if p m)
  unfolding keep_if
  keep_if-IsMap p [] h = tt
  keep_if-IsMap p ((i, w) ∷ m) h = ground (arith, keep_if-IsMap p m h.1, absent-keep_if p i m h.0)

  pub get_absent : (k : K) (m : Assoc K V) → All (λ (e' : K × V). e'.0 ≢ k) m → get k m ≡ none
  unfolding get
  get_absent k [] h = refl
  get_absent k ((j, w) ∷ m) h = ground (arith, get_absent k m h.1)

  pub get-keep_if :
      (p : V → Bool) (k : K) (m : Assoc K V) → IsMap m → get k (keep_if p m) ≡ only_if p (get k m)
  unfolding get keep_if
  get-keep_if p k [] h = refl
  get-keep_if p k ((j, w) ∷ m) h = elim (e.dec j k) [
    | yes q ↦ ground (arith, get_absent j (keep_if p m) (absent-keep_if p j m h.0))
    | no q ↦ ground (arith, get-keep_if p k m h.1)
  ]
