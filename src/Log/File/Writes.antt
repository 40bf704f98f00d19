-- ===== src/Log/File/Writes.antt =====
-- `Append` of log/file.go to a file that stands for a history, where any of the calls of the
-- operating system may fail.
use comlink.Common.{
  ℕ, zero, suc, ◌+◌, ◌^◌, ◌≤◌, ◌<◌, ◌≡◌, ◌≢◌, refl, ap, subst, sym, ◌∙◌, ◌⊎◌, inl, inr, some, none,
  true, false, Bool, List, [], ◌∷◌, ◌++◌, arith, length, append_assoc, append-nil, All-append,
  if_false, drop, length-append, Option,
}
use comlink.Common.Assoc.{Bytes, index_key, get, put, get-put, put-IsMap}
use comlink.Common.Result.{Result, ok, err}
use comlink.Messages.{Envelope, id_of, sender_of}
use comlink.Log.{next_offset}
use comlink.Log.Truncate.{length-drop}
use comlink.Log.File.{
  Codec, File, FileError, AppendIo, read_meta, open_or_create, create, cached, append_file,
  append_payload, after_writes, write_bytes, frame_header, io_failed, empty_cache, header_bytes,
  rolled_back, file_closed,
}
use comlink.Log.File.Frames.{Frame, IsFrame, frame_bytes, encode}
use comlink.Log.File.History.{
  numbered, later, here, last_at-snoc, later-here, numbered-snoc, length-numbered,
}
use comlink.Log.File.Reopen.{IsCodec, Holds}

-- A new log stands for no appends.
pub open_or_create-new :
    (c : Codec) (conv conv_bytes : Bytes)
    → c.marshal_conv conv ≡ some conv_bytes
    → length conv_bytes < 2 ^ 32
    → (f : File) × (open_or_create c conv [] none ≡ ok f) × Holds c conv [] f
unfolding open_or_create create read_meta get
open_or_create-new c conv conv_bytes m fits = (
  record { data_file = header_bytes conv_bytes; meta_file = none; cache = empty_cache conv 0 },
  rw (create, m) refl,
  record {
    conv_bytes = conv_bytes;
    marshalled = m;
    conv_fits = fits;
    on_disk = sym (append-nil (header_bytes conv_bytes));
    frames = tt;
    counted = omega arith;
    first_on_disk = refl;
    first_le = omega arith;
    bound_to = refl;
    open_log = refl;
    readable = refl;
    unique = tt;
    indexed = λ k. refl;
  },
)

encode-snoc :
    (c : Codec) (fs : List Frame) (f : Frame)
    → encode c (fs ++ f ∷ []) ≡ encode c fs ++ frame_bytes c f
encode-snoc c [] f = append-nil (frame_bytes c f)
encode-snoc c (g ∷ fs) f =
    ap (λ b. frame_bytes c g ++ b) (encode-snoc c fs f)
    ∙ sym (append_assoc (frame_bytes c g) (encode c fs) (frame_bytes c f))

pub cached_count :
    (c : Codec) (conv : Bytes) (fs : List Frame) (f : File)
    → Holds c conv fs f
    → (next_offset f.cache ≡ length fs)
      × (f.cache.first_offset + length f.cache.entries ≡ length fs)
cached_count c conv fs f h =
    let n : length f.cache.entries ≡ length (drop f.cache.first_offset (numbered 0 fs)) =
      ap length h.readable in
    omega (
      arith,
      n,
      length-drop f.cache.first_offset (numbered 0 fs),
      length-numbered 0 fs,
      h.first_le,
      h.counted,
    )

drop-append :
    {A : Type 0} (n : ℕ) (xs ys : List A) → n ≤ length xs → drop n (xs ++ ys) ≡ drop n xs ++ ys
drop-append zero xs ys h = refl
drop-append (suc n) [] ys h = absurd (omega arith)
drop-append (suc n) (x ∷ xs) ys h = drop-append n xs ys (omega arith)

Holds-appended :
    (c : Codec) (conv : Bytes) (fs : List Frame) (f : File) (fr : Frame)
    → Holds c conv fs f
    → IsFrame c fr
    → length fs + 1 < 2 ^ 64
    → Holds c conv (fs ++ fr ∷ []) (record f {
      data_file = f.data_file ++ frame_bytes c fr;
      cache = cached f.cache (length fs) fr.seq fr.envelope;
    })
unfolding put
Holds-appended c conv fs f fr h v room = record {
  conv_bytes = h.conv_bytes;
  marshalled = h.marshalled;
  conv_fits = h.conv_fits;
  on_disk =
      rw (h.on_disk, encode-snoc c fs fr)
        (append_assoc (header_bytes h.conv_bytes) (encode c fs) (frame_bytes c fr));
  frames = All-append (IsFrame c) fs (fr ∷ []) h.frames (v, tt);
  counted = omega (arith, length-append fs (fr ∷ []));
  first_on_disk = h.first_on_disk;
  first_le = omega (arith, length-append fs (fr ∷ []), h.first_le);
  bound_to = h.bound_to;
  open_log = h.open_log;
  readable =
      rw (h.readable, numbered-snoc 0 fs fr, at_end)
        (sym (drop-append f.cache.first_offset (numbered 0 fs) _ below_end));
  unique = put-IsMap (sender_of fr.envelope, fr.seq) (length fs) f.cache.index h.unique;
  indexed = λ k.
      get-put (sender_of fr.envelope, fr.seq) k (length fs) f.cache.index
      ∙ later-here k f.cache.first_offset (length fs) fr _ h.first_le
      ∙ ap (later (here k f.cache.first_offset (length fs) fr)) (h.indexed k)
      ∙ rw (last_at-snoc k f.cache.first_offset 0 fs fr, at_end) refl;
}
  where
    at_end : 0 + length fs ≡ length fs
    at_end = omega arith

    below_end : f.cache.first_offset ≤ length (numbered 0 fs)
    below_end = omega (arith, length-numbered 0 fs, h.first_le)

-- One of the calls of an `Append` fails.
abbrev pub Fails : AppendIo → Type 0
Fails io = (io.header_failed ≢ none) ⊎ (io.payload_failed ≢ none) ⊎ (io.sync_ok ≡ false)

-- What an `Append` of a history of `n` appends answers and leaves.
abbrev pub Appended :
    Codec → Bytes → List Frame → Frame → AppendIo → File → File × Result FileError ℕ → Type 0
Appended c conv fs fr io f r =
    ((r.1 ≡ ok (length fs)) × Holds c conv (fs ++ fr ∷ []) r.0)
    ⊎ ((r.1 ≡ err io_failed) × Fails io × (io.rollback_ok ≡ true → r.0 ≡ f))

rolled_back-Appended :
    (c : Codec) (conv : Bytes) (fs : List Frame) (fr : Frame) (io : AppendIo) (f : File)
    → Fails io
    → (bytes : Bytes) → Appended c conv fs fr io f (rolled_back f io bytes)
rolled_back-Appended c conv fs fr io f fails bytes = inr (refl, fails, λ r. rw r (λ i. f))

append_payload-open :
    (c : Codec) (io : AppendIo) (f : File) (fr : Frame)
    → f.cache.closed ≡ false
    → append_payload c io f fr.envelope fr.seq fr.payload
      ≡ after_writes f io
          (cached f.cache (next_offset f.cache) fr.seq fr.envelope)
          (next_offset f.cache)
          (write_bytes f.data_file (frame_header c fr.payload fr.seq) io.header_failed)
          (write_bytes
            (write_bytes f.data_file (frame_header c fr.payload fr.seq) io.header_failed)
            fr.payload
            io.payload_failed)
          io.header_failed
          io.payload_failed
          io.sync_ok
unfolding append_payload
append_payload-open c io f fr h = if_false (f, err file_closed) _ h

after_writes-Appended :
    (c : Codec) (conv : Bytes) (fs : List Frame) (fr : Frame) (io : AppendIo) (f : File)
    → Holds c conv fs f
    → IsFrame c fr
    → length fs + 1 < 2 ^ 64
    → (hf pf : Option ℕ) (s : Bool) → io.header_failed ≡ hf
    → io.payload_failed ≡ pf
    → io.sync_ok ≡ s
    → (with_header : Bytes)
    → Appended c conv fs fr io f (
        after_writes f io
          (cached f.cache (length fs) fr.seq fr.envelope)
          (length fs)
          with_header
          (write_bytes
            (write_bytes f.data_file (frame_header c fr.payload fr.seq) hf)
            fr.payload
            pf)
          hf
          pf
          s)
unfolding after_writes
after_writes-Appended c conv fs fr io f h v room (some n) pf s e e' e'' b =
    rolled_back-Appended c conv fs fr io f (inl (λ q. cc (e, q))) _
after_writes-Appended c conv fs fr io f h v room none (some n) s e e' e'' b =
    rolled_back-Appended c conv fs fr io f (inr (inl (λ q. cc (e', q)))) _
after_writes-Appended c conv fs fr io f h v room none none false e e' e'' b =
    rolled_back-Appended c conv fs fr io f (inr (inr e'')) _
after_writes-Appended c conv fs fr io f h v room none none true e e' e'' b = inl (
  refl,
  subst
      (λ bytes.
        Holds c conv (fs ++ fr ∷ [])
          (record f { data_file = bytes; cache = cached f.cache (length fs) fr.seq fr.envelope }))
      (sym (append_assoc f.data_file (frame_header c fr.payload fr.seq) fr.payload))
      (Holds-appended c conv fs f fr h v room),
)

-- `Append` to a file that stands for `fs` answers the number of appends before it and leaves a file
-- that stands for one more; or a call has failed, and then it answers an error and leaves the log as
-- it was, unless the `Truncate` that takes the bytes back has failed too.
pub append_file-Appended :
    (c : Codec) (conv : Bytes) (fs : List Frame) (f : File) (io : AppendIo)
    → (env : Envelope) (s : Bytes) (seq : ℕ) (payload : Bytes) → IsCodec c
    → Holds c conv fs f
    → (id_of env).sender ≡ some s
    → c.marshal env ≡ some payload
    → seq < 2 ^ 64
    → length payload < 2 ^ 32
    → length fs + 1 < 2 ^ 64
    → Appended c conv fs
        (record { envelope = env; seq = seq; payload = payload })
        io
        f
        (append_file c io f env seq)
unfolding append_file
append_file-Appended c conv fs f io env s seq payload law h sent m fits short room =
    rw (append_file, sent, m)
      (subst (Appended c conv fs fr io f) (sym (append_payload-open c io f fr h.open_log)) (
        rw (cached_count c conv fs f h).0 (
          after_writes-Appended c conv fs fr io f h v room io.header_failed io.payload_failed
            io.sync_ok refl refl refl _)))
  where
    fr : Frame
    fr = record { envelope = env; seq = seq; payload = payload }

    v : IsFrame c fr
    v = record {
      parses = law.envelope_back env payload m;
      seq_fits = fits;
      length_fits = short;
      checksum_fits = law.checksum_fits payload;
    }
