-- ===== src/Tests/Stores.antt =====
-- The theorems on the log, the mask, the failure detector and the trim tracker at concrete inputs.
use comlink.Common.{
  ℕ, zero, suc, ◌+◌, ◌^◌, ◌≤◌, ◌<◌, max, ◌≡◌, refl, ◌≢◌, ◌↔◌, ◌⊎◌, true, false, Option, none, some,
  List, [], ◌∷◌, arith, ℕ_discrete, length,
}
use Prim.Native.Nat.{min}
use comlink.Common.Assoc.{Bytes, Bytes-discrete, IndexKey}
use comlink.Common.Result.{ok, err}
use comlink.Log.{Log, Entry, new_log, next_offset, append, lookup_by_sender, truncate}
use comlink.Log.Append.{IsSound, new_log-IsSound, append_lem}
use comlink.Log.Truncate.{Remains, truncate_lem}
use comlink.Stable.{
  StorageError, Memory, new_memory, valid_key, memory_get, memory_put, memory_storage,
}
use comlink.Stable.Durable.{memory-IsDurable, memory_put_lem}
use comlink.Psync.Mask.{
  MaskLibrary, IsMaskLibrary, Mask, mask_storage_key, key_or_default, load_mask, maskout,
}
use comlink.Psync.Mask.Synced.{IsSynced, Outcome, maskout_lem}
use comlink.Failure.{Detector, note_received, is_suspected, tick}
use comlink.Failure.Suspicion.{IsSilent, IsListed, tick_iff}
use comlink.Failure.Heard.{ticks, note_received-ticks}
use comlink.Trim.{Tracker, mark_of, update, safe_frontier}
use comlink.Trim.Frontier.{IsLower, IsAttained, safe_frontier_iff}
use comlink.Trim.Advance.{update-safe_frontier}
use comlink.Tests.Samples.{alice, bob, conv, members, bob_first}

empty_open : (new_log conv).closed ≡ false
unfolding new_log
empty_open = refl

empty_room : (new_log conv).first_offset + length (new_log conv).entries + 1 < 2 ^ 64
unfolding new_log
empty_room = omega arith

append_lem_example :
    (l' : Log) × (append (new_log conv) bob_first 1 ≡ ok (l', next_offset (new_log conv)))
    × IsSound l'
    × (next_offset l' ≡ next_offset (new_log conv) + 1)
    × (lookup_by_sender l' bob 1
        ≡ ok (record { offset = next_offset (new_log conv); envelope = bob_first }))
    × ((k : IndexKey)
        → k ≢ (bob, 1)
        → lookup_by_sender l' k.0 k.1 ≡ lookup_by_sender (new_log conv) k.0 k.1)
append_lem_example =
    append_lem (new_log conv) bob_first bob 1 (new_log-IsSound conv) empty_room empty_open refl

truncate_lem_example :
    (l' : Log) × (truncate (new_log conv) 3 ≡ ok l')
    × IsSound l'
    × (l'.first_offset ≡ max (new_log conv).first_offset (min 3 (next_offset (new_log conv))))
    × (next_offset l' ≡ next_offset (new_log conv))
    × ((k : IndexKey) (e : Entry)
        → lookup_by_sender (new_log conv) k.0 k.1 ≡ ok e
        → Remains l'.first_offset l' k e)
truncate_lem_example = truncate_lem (new_log conv) 3 (new_log-IsSound conv) empty_open

-- A coding of lists of byte strings: each byte behind a 1, each string before a 0.
encode_one : Bytes → Bytes → Bytes
encode_one [] rest = 0 ∷ rest
encode_one (c ∷ cs) rest = 1 ∷ c ∷ encode_one cs rest

unfoldable pub encode : List Bytes → Bytes
unfolding encode_one
encode [] = []
encode (r ∷ rs) = encode_one r (encode rs)

with_byte : ℕ → Option (List Bytes) → Option (List Bytes)
with_byte c none = none
with_byte c (some []) = none
with_byte c (some (r ∷ rs)) = some ((c ∷ r) ∷ rs)

with_string : Option (List Bytes) → Option (List Bytes)
with_string none = none
with_string (some rs) = some ([] ∷ rs)

pub decode : Bytes → Option (List Bytes)
unfolding with_byte with_string
decode [] = some []
decode (zero ∷ xs) = with_string (decode xs)
decode (suc n ∷ []) = none
decode (suc n ∷ c ∷ xs) = with_byte c (decode xs)

decode-encode_one :
    (r : Bytes) (rs : List Bytes) (rest : Bytes)
    → decode rest ≡ some rs
    → decode (encode_one r rest) ≡ some (r ∷ rs)
unfolding decode encode_one
decode-encode_one [] rs rest e = rw e refl
decode-encode_one (c ∷ cs) rs rest e = rw (decode-encode_one cs rs rest e) refl

pub decode-encode : (rs : List Bytes) → decode (encode rs) ≡ some rs
unfolding decode encode
decode-encode [] = refl
decode-encode (r ∷ rs) = decode-encode_one r rs (encode rs) (decode-encode rs)

abbrev lib : MaskLibrary
lib = record { marshal = λ rs. some (encode rs); unmarshal = decode; sort = λ rs. rs }

lib_law : IsMaskLibrary lib
lib_law = record {
  unmarshal-marshal = λ rs d e. let same : encode rs ≡ d = cc in rw (← same) (decode-encode rs);
  sorted = λ rs r. (λ h. h, λ h. h);
}

abbrev empty_mask : Mask Memory
empty_mask = record { storage = new_memory; key = mask_storage_key; masked = [] }

named : key_or_default mask_storage_key ≡ mask_storage_key
unfolding key_or_default
named = refl

empty_mask-IsSynced : IsSynced lib lib_law memory-IsDurable empty_mask
unfolding IsSynced load_mask memory_storage memory_get new_memory
empty_mask-IsSynced = (empty_mask, refl, λ r. refl)

maskout_lem_example :
    Outcome lib lib_law memory-IsDurable empty_mask bob true (maskout lib empty_mask bob)
maskout_lem_example =
    maskout_lem lib lib_law memory-IsDurable empty_mask bob named empty_mask-IsSynced

memory_put_lem_example :
    ((valid_key mask_storage_key ≡ false)
      × (memory_put new_memory mask_storage_key (1 ∷ []) ≡ err StorageError.invalid_key))
    ⊎ ((valid_key mask_storage_key ≡ true)
        × (new_memory.closed ≡ true)
        × (memory_put new_memory mask_storage_key (1 ∷ []) ≡ err StorageError.storage_closed))
    ⊎ ((m' : Memory) × (memory_put new_memory mask_storage_key (1 ∷ []) ≡ ok m')
        × (memory_get m' mask_storage_key ≡ ok (1 ∷ []))
        × ((j : Bytes) → mask_storage_key ≢ j → memory_get m' j ≡ memory_get new_memory j))
memory_put_lem_example = memory_put_lem new_memory mask_storage_key (1 ∷ [])

-- Alice's detector, which heard bob at time 0 and suspects after 20.
abbrev detector : Detector
detector = record {
  cfg = record { self = alice; members = members; quiet_interval = 5; suspicion_interval = 20 };
  now = 0;
  last_sent = 0;
  last_received = (alice, 0) ∷ (bob, 0) ∷ [];
  suspected = [];
  members = members;
}

tick_iff_example : (is_suspected (tick 20 detector).0 bob ≡ true) ↔ (
    (is_suspected detector bob ≡ true)
    ⊎ (IsListed bob members × (bob ≢ alice) × IsSilent 20 detector bob))
tick_iff_example = tick_iff 20 detector (omega arith) bob

note_received-ticks_example :
    is_suspected (ticks (25 ∷ 12 ∷ 29 ∷ []) (note_received 10 bob detector)) bob ≡ false
note_received-ticks_example =
    note_received-ticks 10 (25 ∷ 12 ∷ 29 ∷ []) detector bob
      (omega arith, (omega arith, (omega arith, tt)))

abbrev tracker : Tracker
tracker = record {
  marks =
      (alice, record { applied = 8; snapshot = 6 })
      ∷ (bob, record { applied = 5; snapshot = 9 })
      ∷ [];
}

frontier : safe_frontier tracker members ≡ some 5
unfolding safe_frontier mark_of Bytes-discrete ℕ_discrete
frontier = refl

safe_frontier_iff_example :
    (safe_frontier tracker members ≡ some 5)
    ↔ (IsLower tracker members 5 × IsAttained tracker members 5)
safe_frontier_iff_example = safe_frontier_iff tracker members 5

update-safe_frontier_example :
    (f' : ℕ) × (safe_frontier (update tracker bob (record { applied = 7; snapshot = 3 })).1 members
      ≡ some f')
    × (5 ≤ f')
update-safe_frontier_example =
    update-safe_frontier tracker bob (record { applied = 7; snapshot = 3 }) members 5 frontier
