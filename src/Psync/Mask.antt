-- ===== src/Psync/Mask.antt =====
-- psync/mask.go: the set of masked replicas, kept in memory and in a stable.Storage. What the code
-- takes from the protobuf and slices packages is a parameter.
pub mod Synced
use comlink.Common.{◌≡◌, ◌↔◌, Bool, true, false, Option, none, some, List, [], ◌∷◌, get_elem?, ℕ}
use comlink.Common.Assoc.{Assoc, Bytes, bytes_key, get, put, delete}
use comlink.Common.Result.{Result, ok, err}
use comlink.Messages.{ReplicaId}
use comlink.Stable.{Storage, StorageError, not_found}

-- `proto.Marshal` and `proto.Unmarshal` on a MaskState, and `slices.SortFunc` with `bytes.Compare`.
pub record MaskLibrary : Type 0 where
  pub marshal : List Bytes → Option Bytes
  pub unmarshal : Bytes → Option (List Bytes)
  pub sort : List Bytes → List Bytes

-- `r` stands in the list.
abbrev pub IsIn : Bytes → List Bytes → Type 0
IsIn r rs = (i : ℕ) × (get_elem? rs i ≡ some r)

-- What is documented of them: decoding what was encoded gives it back, and sorting moves elements.
pub record IsMaskLibrary (lib : MaskLibrary) : Type 0 where
  pub unmarshal-marshal :
      (rs : List Bytes) (d : Bytes) → lib.marshal rs ≡ some d → lib.unmarshal d ≡ some rs
  pub sorted : (rs : List Bytes) (r : Bytes) → IsIn r (lib.sort rs) ↔ IsIn r rs

pub data MaskError : Type 0 where
  storage_failed : StorageError → MaskError
  marshal_failed unmarshal_failed : MaskError

pub record Mask (S : Type 0) : Type 0 where
  pub storage : S
  pub key : Bytes
  pub masked : Assoc Bytes (Unit {0})

-- The bytes of "psync.mask".
abbrev pub mask_storage_key : Bytes
mask_storage_key = 112 ∷ 115 ∷ 121 ∷ 110 ∷ 99 ∷ 46 ∷ 109 ∷ 97 ∷ 115 ∷ 107 ∷ []

-- The loop of `LoadMask` over the stored replicas.
masked_from : List Bytes → Assoc Bytes (Unit {0}) → Assoc Bytes (Unit {0})
unfolding put
masked_from [] masked = masked
masked_from (r ∷ rs) masked = masked_from rs (put r tt masked)

keys : Assoc Bytes (Unit {0}) → List Bytes
keys [] = []
keys ((k, u) ∷ m) = k ∷ keys m

-- An empty key stands for the default.
unfoldable pub key_or_default : Bytes → Bytes
key_or_default [] = mask_storage_key
key_or_default (c ∷ cs) = c ∷ cs

unfoldable pub is_masked : {S : Type 0} → Mask S → ReplicaId → Bool
unfolding get
is_masked m r = elim (get r m.masked) [ none ↦ false | some u ↦ true ]

module _ {S : Type 0} ⦃st : Storage S⦄ (lib : MaskLibrary) where
  decoded : S → Bytes → Option (List Bytes) → Result MaskError (Mask S)
  unfolding masked_from
  decoded s key none = err unmarshal_failed
  decoded s key (some rs) = ok (record { storage = s; key = key; masked = masked_from rs [] })

  loaded : S → Bytes → Result StorageError Bytes → Result MaskError (Mask S)
  unfolding decoded
  loaded s key (err not_found) = ok (record { storage = s; key = key; masked = [] })
  loaded s key (err e) = err (storage_failed e)
  loaded s key (ok d) = decoded s key (lib.unmarshal d)

  -- `LoadMask`.
  unfoldable pub load_mask : S → Bytes → Result MaskError (Mask S)
  unfolding loaded key_or_default
  load_mask s key = loaded s (key_or_default key) (st.fetch s (key_or_default key))

  stored : S × Option StorageError → S × Option MaskError
  stored (s, none) = (s, none)
  stored (s, some e) = (s, some (storage_failed e))

  encoded : Mask S → Option Bytes → S × Option MaskError
  unfolding stored
  encoded m none = (m.storage, some marshal_failed)
  encoded m (some d) = stored (st.store m.storage m.key d)

  -- `persistLocked`: the storage afterwards, and the error.
  persist : Mask S → S × Option MaskError
  unfolding keys encoded
  persist m = encoded m (lib.marshal (lib.sort (keys m.masked)))

  -- The mask `new` with the storage that `persistLocked` leaves, or with `back` for what is undone.
  settle : Mask S → Assoc Bytes (Unit {0}) → S × Option MaskError → Mask S × Option MaskError
  settle new back (s, some e) = (record new { storage = s; masked = back }, some e)
  settle new back (s, none) = (record new { storage = s }, none)

  unfoldable pub maskout : Mask S → ReplicaId → Mask S × Option MaskError
  unfolding persist settle get put delete
  maskout m r = elim (get r m.masked) [
    | some u ↦ (m, none)
    | none ↦
        let new : Mask S = record m { masked = put r tt m.masked } in
        settle new (delete r new.masked) (persist new)
  ]

  unfoldable pub maskin : Mask S → ReplicaId → Mask S × Option MaskError
  unfolding persist settle get put delete
  maskin m r = elim (get r m.masked) [
    | none ↦ (m, none)
    | some u ↦
        let new : Mask S = record m { masked = delete r m.masked } in
        settle new (put r tt new.masked) (persist new)
  ]

  unfoldable pub masked_replicas : Mask S → List Bytes
  unfolding keys
  masked_replicas m = lib.sort (keys m.masked)
