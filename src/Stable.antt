-- ===== src/Stable.antt =====
-- stable/storage.go: the interface of a durable key/value store, and stable/memory.go, which fills it.
pub mod Durable
use comlink.Common.{
  ℕ, ◌≡◌, Bool, true, false, ◌&&◌, ◌||◌, Option, none, some, ◌⊎◌, ◌≢◌, List, [], ◌∷◌, leb, ◌==◌,
  if◌then◌else◌, length,
}
use comlink.Common.Assoc.{Assoc, Bytes, bytes_key, get, put, delete}
use comlink.Common.Result.{Result, ok, err}

-- `failed` stands for the errors of the medium.
pub data StorageError : Type 0 where
  not_found invalid_key storage_closed failed : StorageError

-- The operations. Each change answers the store afterwards, and the error if it has failed; a change
-- that fails may have taken place all the same.
pub record Storage (S : Type 0) : Type 0 where
  pub fetch : S → Bytes → Result StorageError Bytes
  pub store : S → Bytes → Bytes → S × Option StorageError
  pub remove : S → Bytes → S × Option StorageError

-- What a client relies on. `Put` is atomic and durable: a value that was stored is fetched, and where it
-- fails the key has its old value or the new one. Either way the other keys are left alone.
pub record IsDurable (S : Type 0) ⦃st : Storage S⦄ : Type 0 where
  pub fetch-store :
      (s : S) (k v : Bytes) → (st.store s k v).1 ≡ none → st.fetch (st.store s k v).0 k ≡ ok v
  pub fetch-store_failed :
      (s : S) (k v : Bytes) (e : StorageError)
      → (st.store s k v).1 ≡ some e
      → (st.fetch (st.store s k v).0 k ≡ st.fetch s k) ⊎ (st.fetch (st.store s k v).0 k ≡ ok v)
  pub fetch-store_ne :
      (s : S) (k j v : Bytes) → k ≢ j → st.fetch (st.store s k v).0 j ≡ st.fetch s j

-- The character class of `keyPattern`.
valid_char : ℕ → Bool
valid_char c =
    (leb 65 c && leb c 90)
    || (leb 97 c && leb c 122)
    || (leb 48 c && leb c 57)
    || (c == 95)
    || (c == 46)
    || (c == 45)

valid_chars : List ℕ → Bool
unfolding valid_char
valid_chars [] = true
valid_chars (c ∷ cs) = valid_char c && valid_chars cs

unfoldable pub valid_key : Bytes → Bool
unfolding valid_chars
valid_key k = leb 1 (length k) && leb (length k) 255 && valid_chars k

pub record Memory : Type 0 where
  pub data_map : Assoc Bytes Bytes
  pub closed : Bool

unfoldable pub new_memory : Memory
new_memory = record { data_map = []; closed = false }

unfoldable pub memory_get : Memory → Bytes → Result StorageError Bytes
unfolding valid_key get
memory_get m k =
    if valid_key k
    then if m.closed
      then err storage_closed
      else elim (get k m.data_map) [ none ↦ err not_found | some v ↦ ok v ]
    else err invalid_key

pub memory_put : Memory → Bytes → Bytes → Result StorageError Memory
unfolding valid_key put
memory_put m k v =
    if valid_key k
    then if m.closed then err storage_closed else ok (record m { data_map = put k v m.data_map })
    else err invalid_key

memory_delete : Memory → Bytes → Result StorageError Memory
unfolding valid_key get delete
memory_delete m k =
    if valid_key k
    then if m.closed then err storage_closed else elim (get k m.data_map) [
      | none ↦ err not_found
      | some v ↦ ok (record m { data_map = delete k m.data_map })
    ]
    else err invalid_key

unfoldable pub memory_close : Memory → Memory
memory_close m = record { data_map = []; closed = true }

-- The store afterwards: one that refuses is as it was.
unfoldable pub changed : Memory → Result StorageError Memory → Memory × Option StorageError
changed m (err e) = (m, some e)
changed m (ok m') = (m', none)

instance unfoldable pub memory_storage : Storage Memory
unfolding memory_get memory_put memory_delete changed
memory_storage = record {
  fetch = memory_get;
  store = λ m k v. changed m (memory_put m k v);
  remove = λ m k. changed m (memory_delete m k);
}
