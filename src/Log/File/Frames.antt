-- ===== src/Log/File/Frames.antt =====
-- `scanIntoCache` of log/file.go reads frames back, whole ones and one that is torn off.
use comlink.Common.{
  ℕ, zero, suc, ◌+◌, ◌-◌, ◌^◌, ◌<◌, ◌≡◌, refl, ap, subst, ◌∙◌, some, List, [], ◌∷◌, ◌++◌, arith,
  dec_lt, length, append_assoc, append-nil, All, leb, if◌then◌else◌,
}
use comlink.Common.Assoc.{Bytes}
use comlink.Common.Bytes.{
  take, read_full, get_le-put_le, read_full-append, read_full_short, take-append_right,
  length-take-lt,
}
use comlink.Common.Result.{ok}
use comlink.Messages.{Envelope}
use comlink.Log.{Log}
use comlink.Log.File.{Codec, frame_header, cached, cache_frame, scan}
use comlink.Psync.Vector.{u64}

-- One `Append` in the history of the file.
pub record Frame : Type 0 where
  pub envelope : Envelope
  pub seq : ℕ
  pub payload : Bytes

-- The frame can be written and read back: its payload parses, and each number fits its field.
pub record IsFrame (c : Codec) (f : Frame) : Type 0 where
  pub parses : c.unmarshal f.payload ≡ some f.envelope
  pub seq_fits : f.seq < 2 ^ 64
  pub length_fits : length f.payload < 2 ^ 32
  pub checksum_fits : c.checksum f.payload < 2 ^ 32

abbrev pub frame_bytes : Codec → Frame → Bytes
frame_bytes c f = frame_header c f.payload f.seq ++ f.payload

abbrev pub encode : Codec → List Frame → Bytes
encode c [] = []
encode c (f ∷ fs) = frame_bytes c f ++ encode c fs

-- What the scan adds to the cache for a frame at `off`.
abbrev pub replayed : Log → ℕ → Frame → Log
replayed l off f = if leb l.first_offset off then cached l off f.seq f.envelope else l

abbrev pub replay : Log → ℕ → List Frame → Log
replay l off [] = l
replay l off (f ∷ fs) = replay (replayed l off f) (u64 (off + 1)) fs

length-frame_header : (c : Codec) (f : Frame) → length (frame_header c f.payload f.seq) ≡ 16
length-frame_header c f = omega arith

cache_frame-replayed :
    (c : Codec) (off : ℕ) (f : Frame) (l : Log)
    → IsFrame c f
    → cache_frame c off (frame_header c f.payload f.seq) f.payload l ≡ ok (replayed l off f)
unfolding cache_frame
cache_frame-replayed c off f l v = ground (
  arith,
  v.parses,
  get_le-put_le 8 f.seq v.seq_fits,
  get_le-put_le 4 (c.checksum f.payload) v.checksum_fits,
)

-- One turn of the loop over a whole frame.
scan-frame_bytes :
    (c : Codec) (n : ℕ) (kept rest : Bytes) (off : ℕ) (l : Log) (f : Frame)
    → IsFrame c f
    → scan c (suc n) kept (frame_bytes c f ++ rest) off l
      ≡ scan c n (kept ++ frame_bytes c f) rest (u64 (off + 1)) (replayed l off f)
unfolding scan read_full
scan-frame_bytes c n kept rest off l f v =
    rw
      (
        scan,
        get_le-put_le 4 (length f.payload) v.length_fits,
        read_full-append f.payload rest,
        cache_frame-replayed c off f l v,
      )
      (ap (λ b. scan c n b rest (u64 (off + 1)) (replayed l off f))
        (append_assoc kept (frame_header c f.payload f.seq) f.payload))

scan-torn_payload :
    (c : Codec) (n j : ℕ) (kept : Bytes) (off : ℕ) (l : Log) (f : Frame)
    → IsFrame c f
    → j < length f.payload
    → scan c (suc n) kept (take (16 + j) (frame_bytes c f)) off l ≡ ok (kept, l)
unfolding scan read_full
scan-torn_payload c n j kept off l f v q =
    ap (λ b. scan c (suc n) kept b off l)
      (take-append_right j (frame_header c f.payload f.seq) f.payload)
    ∙ rw
        (
          scan,
          get_le-put_le 4 (length f.payload) v.length_fits,
          read_full_short (length f.payload) (take j f.payload)
              (omega (arith, length-take-lt j f.payload q)),
        )
        refl

-- A frame that is torn off ends the loop, and the file in front of it.
scan_torn :
    (c : Codec) (n m : ℕ) (kept : Bytes) (off : ℕ) (l : Log) (f : Frame)
    → IsFrame c f
    → m < length (frame_bytes c f)
    → scan c (suc n) kept (take m (frame_bytes c f)) off l ≡ ok (kept, l)
unfolding scan
scan_torn c n m kept off l f v h = elim (dec_lt m 16) [
  | yes p ↦
      rw
        (
          scan,
          read_full_short 16 (take m (frame_bytes c f))
              (omega (arith, length-take-lt m (frame_bytes c f) h)),
        )
        refl
  | no p ↦
      subst (λ j. scan c (suc n) kept (take j (frame_bytes c f)) off l ≡ ok (kept, l))
        {x = 16 + (m - 16)} (omega arith)
        (scan-torn_payload c n (m - 16) kept off l f v (omega arith))
]

-- The scan of whole frames with one torn off behind them.
pub scan-encode :
    (c : Codec) (n m : ℕ) (kept : Bytes) (off : ℕ) (l : Log) (fs : List Frame) (torn : Frame)
    → All (IsFrame c) fs
    → IsFrame c torn
    → m < length (frame_bytes c torn)
    → length fs < n
    → scan c n kept (encode c fs ++ take m (frame_bytes c torn)) off l
      ≡ ok (kept ++ encode c fs, replay l off fs)
scan-encode c zero m kept off l fs torn v w h lt = elim lt [ ]
scan-encode c (suc n) m kept off l [] torn v w h lt =
    scan_torn c n m kept off l torn w h ∙ rw append-nil refl
scan-encode c (suc n) m kept off l (f ∷ fs) torn v w h lt =
    ap (λ b. scan c (suc n) kept b off l) (append_assoc (frame_bytes c f) (encode c fs) _)
    ∙ scan-frame_bytes c n kept _ off l f v.0
    ∙ scan-encode c n m _ _ _ fs torn v.1 w h (omega arith)
    ∙ ap (λ b. ok (b, replay l off (f ∷ fs))) (append_assoc kept (frame_bytes c f) (encode c fs))
