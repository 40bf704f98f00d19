-- ===== src/Log.antt =====
-- log/log.go and log/memory.go: the append-only log of accepted messages, kept in memory.
-- Offsets are uint64: `Offset(len)` is added with its wrap-around.
pub mod Append
pub mod Truncate
pub mod File
use comlink.Common.{
  ℕ, zero, suc, ◌+◌, ◌-◌, Bool, true, false, Option, none, some, List, [], ◌∷◌, ◌++◌, ltb, leb,
  if◌then◌else◌, length, get_elem?, drop,
}
use comlink.Common.Assoc.{Bytes, nat_key, bytes_key, Assoc, get, put}
use comlink.Common.Result.{Result, ok, err}
use comlink.Messages.{ReplicaId, Envelope, id_of}
use comlink.Common.Assoc.{IndexKey, index_key, keep_if}
use comlink.Psync.Vector.{u64}

pub record Entry : Type 0 where
  pub offset : ℕ
  pub envelope : Envelope

-- `out_of_range` is the panic of an index into `entries`.
pub data LogError : Type 0 where
  not_found log_closed corrupt out_of_range : LogError

pub record Log : Type 0 where
  pub conv_id : Bytes
  pub entries : List Entry
  pub first_offset : ℕ
  pub index : Assoc IndexKey ℕ
  pub closed : Bool

unfoldable pub new_log : Bytes → Log
new_log conv = record { conv_id = conv; entries = []; first_offset = 0; index = []; closed = false }

abbrev pub next_offset : Log → ℕ
next_offset l = u64 (l.first_offset + length l.entries)

append_from : Log → Envelope → Option ReplicaId → ℕ → Result LogError (Log × ℕ)
unfolding put
append_from l env none seq = err corrupt
append_from l env (some s) seq =
    let off = next_offset l in
    if l.closed
    then err log_closed
    else ok (
      record l {
        entries = l.entries ++ record { offset = off; envelope = env } ∷ [];
        index = put (s, seq) off l.index;
      },
      off,
    )

-- `Append`; the caller passes the sender's sequence number.
unfoldable pub append : Log → Envelope → ℕ → Result LogError (Log × ℕ)
unfolding append_from
append l env seq = append_from l env (id_of env).sender seq

entry_at : Log → ℕ → Result LogError Entry
entry_at l off = elim (get_elem? l.entries (off - l.first_offset)) [
  | none ↦ err out_of_range
  | some e ↦ ok e
]

unfoldable pub lookup_by_sender : Log → Bytes → ℕ → Result LogError Entry
unfolding get entry_at
lookup_by_sender l s seq = if l.closed then err log_closed else elim (get (s, seq) l.index) [
  | none ↦ err not_found
  | some off ↦ if ltb off l.first_offset then err not_found else entry_at l off
]

-- The entries at `n` offsets from position `i` on.
slice : List Entry → ℕ → ℕ → List Entry
slice [] i n = []
slice (e ∷ es) zero zero = []
slice (e ∷ es) zero (suc n) = e ∷ slice es zero n
slice (e ∷ es) (suc i) n = slice es i n

-- `Range`: the entries with offset in [from, to), which the iterator yields in order.
unfoldable pub range : Log → ℕ → ℕ → Result LogError (List Entry)
unfolding slice
range l from to =
    let first = l.first_offset in
    let lo = if ltb from first then first else from in
    let hi = if ltb (next_offset l) to then next_offset l else to in
    if l.closed
    then err log_closed
    else if ltb lo hi
    then ok (slice l.entries (lo - first) (hi - lo))
    else ok []

unfoldable pub truncate : Log → ℕ → Result LogError Log
unfolding keep_if
truncate l below =
    let cut = if ltb (next_offset l) below then next_offset l else below in
    if l.closed
    then err log_closed
    else if leb below l.first_offset
    then ok l
    else ok (record l {
      entries = drop (cut - l.first_offset) l.entries;
      first_offset = cut;
      index = keep_if (λ off. leb cut off) l.index;
    })

unfoldable pub close : Log → Log
close l = record l { closed = true; entries = []; index = [] }
