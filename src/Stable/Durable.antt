-- ===== src/Stable/Durable.antt =====
-- stable/memory.go keeps what it stores.
use comlink.Common.{◌≡◌, ◌≢◌, refl, some, ◌⊎◌, inl, inr, true, false, arith, Bool-cases}
use comlink.Common.Assoc.{Bytes, bytes_key, put, get-put_self, get-put_ne}
use comlink.Common.Result.{ok, err}
use comlink.Stable.{
  StorageError, IsDurable, Memory, valid_key, memory_get, memory_put, memory_storage, changed,
}

-- What `Put` does on each branch: an invalid key and a closed store are refused, and otherwise the key
-- has the value afterwards and every other key what it had.
pub memory_put_lem :
    (m : Memory) (k v : Bytes)
    → ((valid_key k ≡ false) × (memory_put m k v ≡ err StorageError.invalid_key))
      ⊎ ((valid_key k ≡ true)
          × (m.closed ≡ true)
          × (memory_put m k v ≡ err StorageError.storage_closed))
      ⊎ ((m' : Memory) × (memory_put m k v ≡ ok m')
          × (memory_get m' k ≡ ok v)
          × ((j : Bytes) → k ≢ j → memory_get m' j ≡ memory_get m j))
unfolding memory_put memory_get
memory_put_lem m k v = elim (Bool-cases (valid_key k)) [
  | inr h ↦ inl (h, ground (arith, h))
  | inl h ↦ elim (Bool-cases m.closed) [
    | inl c ↦ inr (inl (h, c, ground (arith, h, c)))
    | inr c ↦ inr (
        inr (
          record m { data_map = put k v m.data_map },
          ground (arith, h, c),
          ground (arith, h, c, get-put_self k v m.data_map),
          λ j n. ground (arith, get-put_ne k j v m.data_map n),
        ))
  ]
]

-- The in-memory store is a durable storage.
pub memory-IsDurable : IsDurable Memory
unfolding memory_storage changed
memory-IsDurable = record {
  fetch-store = λ s k v e. elim (memory_put_lem s k v) [
    | inl (_, p) ↦
        let z : (changed s (memory_put s k v)).1 ≡ some StorageError.invalid_key = rw p refl in
        cc (z, e)
    | inr (inl (_, _, p)) ↦
        let z : (changed s (memory_put s k v)).1 ≡ some StorageError.storage_closed = rw p refl in
        cc (z, e)
    | inr (inr (m', p, found, _)) ↦ rw p found
  ];
  fetch-store_failed = λ s k v e h. elim (memory_put_lem s k v) [
    | inl (_, p) ↦ inl (rw p refl)
    | inr (inl (_, _, p)) ↦ inl (rw p refl)
    | inr (inr (m', p, found, _)) ↦ inr (rw p found)
  ];
  fetch-store_ne = λ s k j v n. elim (memory_put_lem s k v) [
    | inl (_, p) ↦ rw p refl
    | inr (inl (_, _, p)) ↦ rw p refl
    | inr (inr (m', p, _, others)) ↦ rw p (others j n)
  ];
}
