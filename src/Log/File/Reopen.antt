-- ===== src/Log/File/Reopen.antt =====
-- log/file.go: a file stands for a history of appends, and `OpenFile` reads that history back, also
-- after a crash in the middle of an append.
use comlink.Common.{
  ℕ, suc, ◌-◌, ◌^◌, ◌≤◌, ◌<◌, ◌≡◌, refl, ap, subst, sym, ◌∙◌, inl, inr, Option, some, none, false,
  List, [], ◌∷◌, ◌++◌, arith, length, append_assoc, All, drop, ℕ_discrete, if_pos, length-append,
  Option-cases,
}
use comlink.Common.Assoc.{Bytes, Bytes-discrete, IndexKey, index_key, get, IsMap}
use comlink.Common.Bytes.{take, read_full, get_le-put_le, read_full-append}
use comlink.Common.Result.{Result, ok, ◌>>=◌}
use comlink.Messages.{Envelope}
use comlink.Log.{Log, lookup_by_sender, range, entry_at}
use comlink.Log.File.{
  Codec, File, FileError, header_bytes, read_meta, read_header, read_conv, scan, empty_cache,
  open_or_create, open_scanned, lookup_file, range_file,
}
use comlink.Log.File.Frames.{Frame, IsFrame, frame_bytes, encode, replay, scan-encode}
use comlink.Log.File.History.{numbered, last_at, later, replay-Replays}

-- What is documented of the wire form and of the checksum.
pub record IsCodec (c : Codec) : Type 0 where
  pub conv_back :
      (conv bytes : Bytes) → c.marshal_conv conv ≡ some bytes → c.unmarshal_conv bytes ≡ some conv
  pub envelope_back :
      (env : Envelope) (bytes : Bytes) → c.marshal env ≡ some bytes → c.unmarshal bytes ≡ some env
  pub checksum_fits : (bytes : Bytes) → c.checksum bytes < 2 ^ 32

-- The open file stands for the appends `fs` to the conversation `conv`: the data file holds them
-- all, the meta file the first offset, and the cache those from that on.
pub record Holds (c : Codec) (conv : Bytes) (fs : List Frame) (f : File) : Type 0 where
  pub conv_bytes : Bytes
  pub marshalled : c.marshal_conv conv ≡ some conv_bytes
  pub conv_fits : length conv_bytes < 2 ^ 32
  pub on_disk : f.data_file ≡ header_bytes conv_bytes ++ encode c fs
  pub frames : All (IsFrame c) fs
  pub counted : length fs < 2 ^ 64
  pub first_on_disk : read_meta f.meta_file ≡ ok f.cache.first_offset
  pub first_le : f.cache.first_offset ≤ length fs
  pub bound_to : f.cache.conv_id ≡ conv
  pub open_log : f.cache.closed ≡ false
  pub readable : f.cache.entries ≡ drop f.cache.first_offset (numbered 0 fs)
  pub unique : IsMap f.cache.index
  pub indexed : (k : IndexKey) → get k f.cache.index ≡ last_at k f.cache.first_offset 0 fs

read_header-header_bytes :
    (c : Codec) (conv conv_bytes rest : Bytes)
    → IsCodec c
    → c.marshal_conv conv ≡ some conv_bytes
    → length conv_bytes < 2 ^ 32
    → read_header c conv (header_bytes conv_bytes ++ rest) ≡ ok (header_bytes conv_bytes, rest)
unfolding read_header read_conv read_full Bytes-discrete ℕ_discrete
read_header-header_bytes c conv conv_bytes rest law m fits =
    rw
      (
        get_le-put_le 4 (length conv_bytes) fits,
        read_full-append conv_bytes rest,
        law.conv_back conv conv_bytes m,
      )
      (if_pos (Bytes-discrete conv conv) refl _ _)

length-encode : (c : Codec) (fs : List Frame) → length fs ≤ length (encode c fs)
length-encode c [] = omega arith
length-encode c (f ∷ fs) =
    omega (arith, length-append (frame_bytes c f) (encode c fs), length-encode c fs)

later-none : (o : Option ℕ) → later o none ≡ o
later-none none = refl
later-none (some o) = refl

-- What the scan leaves is the cache that the history describes.
Holds-scanned :
    (c : Codec) (conv : Bytes) (fs : List Frame) (f : File) (h : Holds c conv fs f)
    → Holds c conv fs (record {
      data_file = header_bytes h.conv_bytes ++ encode c fs;
      meta_file = f.meta_file;
      cache = replay (empty_cache conv f.cache.first_offset) 0 fs;
    })
unfolding get
Holds-scanned c conv fs f h =
    let (index', p, u, g) =
      replay-Replays (empty_cache conv f.cache.first_offset) 0 fs (omega (arith, h.counted)) in
    subst
      (λ l. Holds c conv fs (record {
        data_file = header_bytes h.conv_bytes ++ encode c fs;
        meta_file = f.meta_file;
        cache = l;
      }))
      (sym p)
      (record {
        conv_bytes = h.conv_bytes;
        marshalled = h.marshalled;
        conv_fits = h.conv_fits;
        on_disk = refl;
        frames = h.frames;
        counted = h.counted;
        first_on_disk = h.first_on_disk;
        first_le = h.first_le;
        bound_to = refl;
        open_log = refl;
        readable = ap (λ n. drop n (numbered 0 fs)) sub-zero;
        unique = u tt;
        indexed = λ k. g k ∙ later-none (last_at k f.cache.first_offset 0 fs);
      })
  where
    sub-zero : f.cache.first_offset - 0 ≡ f.cache.first_offset
    sub-zero = omega arith

same_entries :
    (c : Codec) (conv : Bytes) (fs : List Frame) (f f' : File)
    → Holds c conv fs f
    → Holds c conv fs f'
    → f'.cache.first_offset ≡ f.cache.first_offset
    → f'.cache.entries ≡ f.cache.entries
same_entries c conv fs f f' h h' first =
    h'.readable ∙ ap (λ n. drop n (numbered 0 fs)) first ∙ sym h.readable

same_index :
    (c : Codec) (conv : Bytes) (fs : List Frame) (f f' : File)
    → Holds c conv fs f
    → Holds c conv fs f'
    → f'.cache.first_offset ≡ f.cache.first_offset
    → (k : IndexKey) → get k f'.cache.index ≡ get k f.cache.index
same_index c conv fs f f' h h' first k =
    h'.indexed k ∙ ap (λ n. last_at k n 0 fs) first ∙ sym (h.indexed k)

-- Two open files of one history answer every read alike.
Holds-lookup_file :
    (c : Codec) (conv : Bytes) (fs : List Frame) (f f' : File)
    → Holds c conv fs f
    → Holds c conv fs f'
    → f'.cache.first_offset ≡ f.cache.first_offset
    → (s : Bytes) (q : ℕ) → lookup_file f' s q ≡ lookup_file f s q
unfolding lookup_file lookup_by_sender entry_at
Holds-lookup_file c conv fs f f' h h' first s q =
    let index = same_index c conv fs f f' h h' first (s, q) in
    let entries = same_entries c conv fs f f' h h' first in
    elim (Option-cases (get (s, q) f.cache.index)) [
      | inl e ↦ rw (index, e, h'.open_log, h.open_log) refl
      | inr (off, e) ↦ rw (index, e, entry_at, entries, first, h'.open_log, h.open_log) refl
    ]

Holds-range_file :
    (c : Codec) (conv : Bytes) (fs : List Frame) (f f' : File)
    → Holds c conv fs f
    → Holds c conv fs f'
    → f'.cache.first_offset ≡ f.cache.first_offset
    → (lo hi : ℕ) → range_file f' lo hi ≡ range_file f lo hi
unfolding range_file range
Holds-range_file c conv fs f f' h h' first lo hi =
    rw (same_entries c conv fs f f' h h' first, first, h'.open_log, h.open_log) refl

replay-first :
    (l : Log) (fs : List Frame) → length fs < 2 ^ 64 → (replay l 0 fs).first_offset ≡ l.first_offset
replay-first l fs h =
    let (_, p, _, _) = replay-Replays l 0 fs (omega arith) in ap (λ l'. l'.first_offset) p

-- The log that `OpenFile` fills from a file that stands for `fs`.
abbrev reopened : (c : Codec) (conv : Bytes) (fs : List Frame) (f : File) → Holds c conv fs f → File
reopened c conv fs f h = record {
  data_file = header_bytes h.conv_bytes ++ encode c fs;
  meta_file = f.meta_file;
  cache = replay (empty_cache conv f.cache.first_offset) 0 fs;
}

open_scanned-reopened :
    (c : Codec) (conv : Bytes) (fs : List Frame) (f : File) (torn : Frame) (m : ℕ)
    → IsCodec c
    → (h : Holds c conv fs f) → IsFrame c torn
    → m < length (frame_bytes c torn)
    → open_scanned c conv
        (header_bytes h.conv_bytes ++ encode c fs ++ take m (frame_bytes c torn))
        f.meta_file
        f.cache.first_offset
      ≡ ok (reopened c conv fs f h)
unfolding open_scanned
open_scanned-reopened c conv fs f torn m law h v lt =
    ap
      (λ r. r >>= λ header.
        scan c (suc (length header.1)) header.0 header.1 0 (empty_cache conv f.cache.first_offset)
        >>= as_file)
      (ap (read_header c conv) (append_assoc header (encode c fs) _)
        ∙ read_header-header_bytes c conv h.conv_bytes _ law h.marshalled h.conv_fits)
    ∙ ap (λ r. r >>= as_file)
        (scan-encode c (suc (length frames)) m header 0 (empty_cache conv f.cache.first_offset) fs
          torn h.frames v lt fuel)
  where
    header : Bytes
    header = header_bytes h.conv_bytes

    frames : Bytes
    frames = encode c fs ++ take m (frame_bytes c torn)

    as_file : Bytes × Log → Result FileError File
    as_file scanned =
        ok (record { data_file = scanned.0; meta_file = f.meta_file; cache = scanned.1 })

    fuel : length fs < suc (length frames)
    fuel =
        omega (arith, length-encode c fs, length-append (encode c fs) (take m (frame_bytes c torn)))

-- A crash in the middle of an `Append` leaves a proper part of its frame, if anything, at the end of
-- the data file. `OpenFile` of the two files then succeeds and cuts that part off. The log that it
-- answers stands for the same appends, and answers every lookup and every range as the log before
-- the crash did.
pub open_or_create_lem :
    (c : Codec) (conv : Bytes) (fs : List Frame) (f : File) (torn : Frame) (m : ℕ)
    → IsCodec c
    → Holds c conv fs f
    → IsFrame c torn
    → m < length (frame_bytes c torn)
    → (f' : File) × (open_or_create c conv (f.data_file ++ take m (frame_bytes c torn)) f.meta_file
        ≡ ok f')
      × Holds c conv fs f'
      × (f'.data_file ≡ f.data_file)
      × ((s : Bytes) (q : ℕ) → lookup_file f' s q ≡ lookup_file f s q)
      × ((lo hi : ℕ) → range_file f' lo hi ≡ range_file f lo hi)
unfolding open_or_create
open_or_create_lem c conv fs f torn m law h v lt = (
  reopened c conv fs f h,
  rw (h.on_disk, h.first_on_disk) (open_scanned-reopened c conv fs f torn m law h v lt),
  Holds-scanned c conv fs f h,
  sym h.on_disk,
  Holds-lookup_file c conv fs f _ h (Holds-scanned c conv fs f h) first,
  Holds-range_file c conv fs f _ h (Holds-scanned c conv fs f h) first,
)
  where
    first :
        (replay (empty_cache conv f.cache.first_offset) 0 fs).first_offset ≡ f.cache.first_offset
    first = replay-first (empty_cache conv f.cache.first_offset) fs (omega (arith, h.counted))
