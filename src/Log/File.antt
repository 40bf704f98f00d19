-- ===== src/Log/File.antt =====
-- log/file.go: the message log in a file. The data file holds a header and a frame for each
-- `Append`; the meta file holds the first offset. All reads go to a cache in memory, which `Log`
-- models since it is that of log/memory.go, and which `OpenFile` fills by one scan of the file.
pub mod Frames
pub mod History
pub mod Reopen
pub mod Writes
pub mod Cut
pub mod Errors
use comlink.Common.{
  ℕ, zero, suc, ◌+◌, Bool, true, false, Option, none, some, List, [], ◌∷◌, ◌++◌, ◌==◌, not, leb,
  ◌-◌, ◌||◌, ltb, if◌then◌else◌, length, drop, ite,
}
use comlink.Common.Assoc.{Bytes, Bytes-discrete, nat_key, bytes_key, index_key, put, keep_if}
use comlink.Common.Bytes.{put_le, get_le, take, read_full}
use comlink.Common.Result.{Result, ok, err, ◌>>=◌}
use comlink.Messages.{Envelope, id_of, sender_of}
use comlink.Log.{Entry, Log, LogError, next_offset, lookup_by_sender, range, close}
use comlink.Psync.Vector.{u64}

-- The protobuf library's wire form of a conversation ID and of an envelope, and hash/crc32's
-- checksum of the Castagnoli table: parameters of the model.
pub record Codec : Type 0 where
  pub marshal_conv : Bytes → Option Bytes
  pub unmarshal_conv : Bytes → Option Bytes
  pub marshal : Envelope → Option Bytes
  pub unmarshal : Bytes → Option Envelope
  pub checksum : Bytes → ℕ

-- `unreadable` is the `ErrCorrupt` of `OpenFile`, `no_sender` that of `Append`, `io_failed` an error
-- of the operating system; `out_of_fuel` stands for a scan that is cut short.
pub data FileError : Type 0 where
  unreadable mismatch no_sender file_closed not_marshalled io_failed out_of_fuel : FileError

-- The open log: the bytes of both files, and the cache.
pub record File : Type 0 where
  pub data_file : Bytes
  pub meta_file : Option Bytes
  pub cache : Log

abbrev pub magic_bytes : Bytes
magic_bytes = 99 ∷ 111 ∷ 109 ∷ 108 ∷ 105 ∷ 110 ∷ 107 ∷ 1 ∷ []

-- The bytes that `writeHeader` writes.
abbrev pub header_bytes : Bytes → Bytes
header_bytes conv_bytes = magic_bytes ++ put_le 4 (length conv_bytes) ++ conv_bytes

-- The 16 bytes in front of a payload, as `Append` fills them.
abbrev pub frame_header : Codec → Bytes → ℕ → Bytes
frame_header c payload seq =
    put_le 4 (length payload) ++ put_le 8 seq ++ put_le 4 (c.checksum payload)

-- The first offset that the meta file records.
unfoldable pub read_meta : Option Bytes → Result FileError ℕ
read_meta none = ok 0
read_meta (some bytes) = if length bytes == 8 then ok (get_le bytes) else err unreadable

abbrev pub empty_cache : Bytes → ℕ → Log
empty_cache conv first = record {
  conv_id = conv;
  entries = [];
  first_offset = first;
  index = [];
  closed = false;
}

abbrev pub required {ℓ} : {A : Type ℓ} → Option A → Result FileError A
required none = err unreadable
required (some a) = ok a

-- `readAndValidateHeader`: the bytes up to the position that it leaves, and those behind.
unfoldable pub read_conv : Codec → Bytes → Bytes × Bytes → Result FileError (Bytes × Bytes)
unfolding read_full
read_conv c conv magic = required (read_full 4 magic.1) >>= λ size.
    required (read_full (get_le size.0) size.1) >>= λ conv_bytes.
    required (c.unmarshal_conv conv_bytes.0) >>= λ stored.
    ite (Bytes-discrete stored conv) (ok (magic.0 ++ size.0 ++ conv_bytes.0, conv_bytes.1))
      (err mismatch)

unfoldable pub read_header : Codec → Bytes → Bytes → Result FileError (Bytes × Bytes)
unfolding read_conv
read_header c conv bytes = required (read_full 8 bytes) >>= λ magic.
    ite (Bytes-discrete magic.0 magic_bytes) (read_conv c conv magic) (err unreadable)

abbrev cached : Log → ℕ → ℕ → Envelope → Log
cached l off seq env = record l {
  entries = l.entries ++ record { offset = off; envelope = env } ∷ [];
  index = put (sender_of env, seq) off l.index;
}

-- What the scan does with a whole frame at logical offset `off`.
unfoldable pub cache_frame : Codec → ℕ → Bytes → Bytes → Log → Result FileError Log
unfolding put
cache_frame c off hdr payload l =
    if not (c.checksum payload == get_le (drop 12 hdr))
    then err unreadable
    else if leb l.first_offset off
    then (elim (c.unmarshal payload) [
      | none ↦ err unreadable
      | some env ↦ ok (cached l off (get_le (take 8 (drop 4 hdr))) env)
    ])
    else ok l

-- The loop of `scanIntoCache` over the bytes `rest` behind the position `pos`, of which `kept` is
-- what lies in front. It ends at the end of the file, or truncates the file at a partial frame.
unfoldable pub scan : Codec → ℕ → Bytes → Bytes → ℕ → Log → Result FileError (Bytes × Log)
unfolding read_full cache_frame
scan c zero kept rest off l = err out_of_fuel
scan c (suc n) kept rest off l = elim (read_full 16 rest) [
  | none ↦ ok (kept, l)
  | some (hdr, behind_hdr) ↦ elim (read_full (get_le (take 4 hdr)) behind_hdr) [
    | none ↦ ok (kept, l)
    | some (payload, behind) ↦ elim (cache_frame c off hdr payload l) [
      | err e ↦ err e
      | ok l' ↦ scan c n (kept ++ hdr ++ payload) behind (u64 (off + 1)) l'
    ]
  ]
]

unfoldable pub open_scanned : Codec → Bytes → Bytes → Option Bytes → ℕ → Result FileError File
unfolding scan read_header
open_scanned c conv bytes meta first = read_header c conv bytes >>= λ header.
    scan c (suc (length header.1)) header.0 header.1 0 (empty_cache conv first) >>= λ scanned.
    ok (record { data_file = scanned.0; meta_file = meta; cache = scanned.1 })

create : Codec → Bytes → Option Bytes → ℕ → Result FileError File
create c conv meta first = elim (c.marshal_conv conv) [
  | none ↦ err not_marshalled
  | some conv_bytes ↦ ok (record {
    data_file = header_bytes conv_bytes;
    meta_file = meta;
    cache = empty_cache conv first;
  })
]

-- `openOrCreate` on what the two files hold; a data file that is missing is empty. The calls that
-- open the files, and the write of a new header, succeed.
unfoldable pub open_or_create : Codec → Bytes → Bytes → Option Bytes → Result FileError File
unfolding open_scanned create read_meta
open_or_create c conv bytes meta = read_meta meta >>= λ first. elim bytes [
  | [] ↦ create c conv meta first
  | b ∷ bs ↦ open_scanned c conv (b ∷ bs) meta first
]

-- What the operating system does with the calls of one `Append`: a write that fails leaves some of
-- its bytes in the file, and the `Truncate` that takes them back may fail too.
pub record AppendIo : Type 0 where
  pub header_failed : Option ℕ
  pub payload_failed : Option ℕ
  pub sync_ok : Bool
  pub rollback_ok : Bool

abbrev pub write_bytes : Bytes → Bytes → Option ℕ → Bytes
write_bytes file bytes none = file ++ bytes
write_bytes file bytes (some n) = file ++ take n bytes

-- The failure of an `Append` whose calls have left `bytes` in the data file.
abbrev pub rolled_back : File → AppendIo → Bytes → File × Result FileError ℕ
rolled_back f io bytes =
    (record f { data_file = if io.rollback_ok then f.data_file else bytes }, err io_failed)

-- After the calls, given what each did and the bytes that were in the file after each write.
unfoldable pub after_writes :
    File
    → AppendIo
    → Log
    → ℕ
    → Bytes
    → Bytes
    → Option ℕ
    → Option ℕ
    → Bool
    → File × Result FileError ℕ
after_writes f io l off with_header with_payload (some n) payload_failed synced =
    rolled_back f io with_header
after_writes f io l off with_header with_payload none (some n) synced =
    rolled_back f io with_payload
after_writes f io l off with_header with_payload none none false = rolled_back f io with_payload
after_writes f io l off with_header with_payload none none true =
    (record f { data_file = with_payload; cache = l }, ok off)

unfoldable pub append_payload :
    Codec → AppendIo → File → Envelope → ℕ → Bytes → File × Result FileError ℕ
unfolding after_writes put
append_payload c io f env seq payload =
    let off = next_offset f.cache in
    let with_header = write_bytes f.data_file (frame_header c payload seq) io.header_failed in
    let with_payload = write_bytes with_header payload io.payload_failed in
    if f.cache.closed
    then (f, err file_closed)
    else after_writes f io (cached f.cache off seq env) off with_header with_payload
        io.header_failed io.payload_failed io.sync_ok

-- `Append`: the log afterwards, and the offset or the error.
unfoldable pub append_file : Codec → AppendIo → File → Envelope → ℕ → File × Result FileError ℕ
unfolding append_payload
append_file c io f env seq = elim (id_of env).sender [
  | none ↦ (f, err no_sender)
  | some _ ↦ elim (c.marshal env) [
    | none ↦ (f, err not_marshalled)
    | some payload ↦ append_payload c io f env seq payload
  ]
]

-- What the operating system does with the calls of `writeMetaLocked`: a failure up to the rename
-- leaves the old meta file, a later one the new file.
pub data MetaIo : Type 0 where
  replaced not_replaced replaced_unsynced : MetaIo

unfoldable pub drop_below : File → ℕ → MetaIo → File × Result {0} FileError Unit
unfolding keep_if
drop_below f cut replaced = (
  record f {
    meta_file = some (put_le 8 cut);
    cache = record f.cache {
      entries = drop (cut - f.cache.first_offset) f.cache.entries;
      first_offset = cut;
      index = keep_if (λ off. leb cut off) f.cache.index;
    };
  },
  ok tt,
)
drop_below f cut not_replaced = (f, err io_failed)
drop_below f cut replaced_unsynced = (record f { meta_file = some (put_le 8 cut) }, err io_failed)

-- `Truncate`.
unfoldable pub truncate_file : MetaIo → File → ℕ → File × Result {0} FileError Unit
unfolding drop_below
truncate_file io f below =
    let end = next_offset f.cache in
    if f.cache.closed
    then (f, err file_closed)
    else if leb below f.cache.first_offset
    then (f, ok tt)
    else drop_below f (if ltb end below then end else below) io

-- `LookupBySender` and `Range`, which read the cache as those of log/memory.go do.
unfoldable pub lookup_file : File → Bytes → ℕ → Result LogError Entry
lookup_file f s seq = lookup_by_sender f.cache s seq

unfoldable pub range_file : File → ℕ → ℕ → Result LogError (List Entry)
range_file f from to = range f.cache from to

-- `Close`: the files keep their bytes.
unfoldable pub close_file : File → File
close_file f = record f { cache = close f.cache }
