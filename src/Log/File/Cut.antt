-- ===== src/Log/File/Cut.antt =====
-- `Truncate` of log/file.go on a file that stands for a history, where any of the calls of the
-- operating system may fail.
use Prim.Native.Nat.{min}
use comlink.Common.{
  ℕ, ◌+◌, ◌-◌, ◌≤◌, ◌<◌, max, ◌≡◌, ◌≢◌, refl, ap, subst, sym, ◌∙◌, ◌⊎◌, inl, inr, false, leb→le,
  Bool-cases, List, arith, length, leb, if_false, drop,
}
use comlink.Common.Assoc.{Bytes, index_key, only_if, keep_if-IsMap, get-keep_if}
use comlink.Common.Bytes.{get_le-put_le}
use comlink.Common.Result.{Result, ok, err}
use comlink.Log.Truncate.{drop-drop, cut_at}
use comlink.Log.File.{
  Codec, File, FileError, MetaIo, read_meta, truncate_file, drop_below, io_failed, replaced,
  not_replaced, replaced_unsynced,
}
use comlink.Log.File.Frames.{Frame}
use comlink.Log.File.History.{numbered, only_if-last_at}
use comlink.Log.File.Reopen.{Holds}
use comlink.Log.File.Writes.{cached_count}

-- The cut that `Truncate` makes moves the first offset up, at most to the end.
abbrev pub Truncated :
    Codec → Bytes → List Frame → ℕ → MetaIo → File → File × Result {0} FileError Unit → Type 0
Truncated c conv fs below io f r =
    ((r.1 ≡ ok tt)
      × Holds c conv fs r.0
      × (r.0.cache.first_offset ≡ max f.cache.first_offset (min below (length fs))))
    ⊎ ((r.1 ≡ err io_failed)
        × (io ≢ replaced)
        × (r.0.cache ≡ f.cache)
        × (r.0.data_file ≡ f.data_file))

Holds-truncated :
    (c : Codec) (conv : Bytes) (fs : List Frame) (f : File) (cut : ℕ)
    → Holds c conv fs f
    → f.cache.first_offset ≤ cut
    → cut ≤ length fs
    → Holds c conv fs (drop_below f cut replaced).0
unfolding drop_below read_meta
Holds-truncated c conv fs f cut h lo hi = record {
  conv_bytes = h.conv_bytes;
  marshalled = h.marshalled;
  conv_fits = h.conv_fits;
  on_disk = h.on_disk;
  frames = h.frames;
  counted = h.counted;
  first_on_disk = ap ok (get_le-put_le 8 cut (omega (arith, h.counted)));
  first_le = hi;
  bound_to = h.bound_to;
  open_log = h.open_log;
  readable =
      ap (drop (cut - f.cache.first_offset)) h.readable
      ∙ drop-drop f.cache.first_offset (cut - f.cache.first_offset) (numbered 0 fs)
      ∙ ap (λ n. drop n (numbered 0 fs)) together;
  unique = keep_if-IsMap (λ off. leb cut off) f.cache.index h.unique;
  indexed = λ k.
      get-keep_if (λ off. leb cut off) k f.cache.index h.unique
      ∙ ap (only_if (λ off. leb cut off)) (h.indexed k)
      ∙ only_if-last_at k f.cache.first_offset cut 0 fs lo;
}
  where
    together : f.cache.first_offset + (cut - f.cache.first_offset) ≡ cut
    together = omega arith

truncate_file_cases :
    (io : MetaIo) (f : File) (below : ℕ)
    → f.cache.closed ≡ false
    → ((below ≤ f.cache.first_offset) × (truncate_file io f below ≡ (f, ok tt)))
      ⊎ ((f.cache.first_offset < below)
          × (truncate_file io f below ≡ drop_below f (cut_at f.cache below) io))
unfolding truncate_file
truncate_file_cases io f below h = elim (Bool-cases (leb below f.cache.first_offset)) [
  | inl e ↦ inl (leb→le below f.cache.first_offset e, if_false _ _ h ∙ rw e refl)
  | inr e ↦ inr (ground (arith, e), if_false _ _ h ∙ rw e refl)
]

cut_at_lem :
    (c : Codec) (conv : Bytes) (fs : List Frame) (f : File) (below : ℕ)
    → Holds c conv fs f
    → cut_at f.cache below ≡ min below (length fs)
cut_at_lem c conv fs f below h = ground (arith, (cached_count c conv fs f h).0)

drop_below-Truncated :
    (c : Codec) (conv : Bytes) (fs : List Frame) (io : MetaIo) (f : File) (below : ℕ)
    → Holds c conv fs f
    → f.cache.first_offset < below
    → Truncated c conv fs below io f (drop_below f (cut_at f.cache below) io)
unfolding drop_below
drop_below-Truncated c conv fs replaced f below h lt = inl (
  refl,
  Holds-truncated c conv fs f (cut_at f.cache below) h
      (omega (arith, cut_at_lem c conv fs f below h, h.first_le, lt))
      (omega (arith, cut_at_lem c conv fs f below h)),
  omega (arith, cut_at_lem c conv fs f below h, h.first_le, lt),
)
drop_below-Truncated c conv fs not_replaced f below h lt = inr (refl, (λ e. cc e), refl, refl)
drop_below-Truncated c conv fs replaced_unsynced f below h lt = inr (refl, (λ e. cc e), refl, refl)

-- `Truncate` of a file that stands for `fs` moves the first offset up to `below`, at most to the end
-- and never back, and leaves a file that stands for `fs` still; or the meta file was not replaced, or
-- not surely, and then it answers an error and leaves the data file and the cache as they were.
pub truncate_file-Truncated :
    (c : Codec) (conv : Bytes) (fs : List Frame) (io : MetaIo) (f : File) (below : ℕ)
    → Holds c conv fs f
    → Truncated c conv fs below io f (truncate_file io f below)
truncate_file-Truncated c conv fs io f below h = elim (truncate_file_cases io f below h.open_log) [
  | inl (le, e) ↦ subst (Truncated c conv fs below io f) (sym e) (inl (refl, h, omega arith))
  | inr (lt, e) ↦
      subst (Truncated c conv fs below io f) (sym e)
        (drop_below-Truncated c conv fs io f below h lt)
]
