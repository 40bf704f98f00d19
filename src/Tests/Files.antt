-- ===== src/Tests/Files.antt =====
-- The theorems on log/file.go at a log of one message, with a concrete coding of envelopes.
use comlink.Common.{
  ℕ, true, suc, ◌^◌, ◌<◌, ◌≡◌, ◌≢◌, refl, sym, ◌∙◌, ap, Option, none, some, List, [], ◌∷◌, ◌++◌,
  arith, length,
}
use comlink.Common.Assoc.{Bytes}
use comlink.Common.Bytes.{take}
use comlink.Common.Result.{ok, err}
use comlink.Messages.{MessageId, Envelope}
use comlink.Log.File.{
  Codec, File, FileError, AppendIo, replaced, header_bytes, read_meta, open_or_create, append_file,
  truncate_file, lookup_file, range_file,
}
use comlink.Log.File.Frames.{Frame, IsFrame, frame_bytes}
use comlink.Log.File.Reopen.{IsCodec, Holds, open_or_create_lem}
use comlink.Log.File.Writes.{Appended, append_file-Appended, open_or_create-new}
use comlink.Log.File.Cut.{Truncated, truncate_file-Truncated}
use comlink.Log.File.Errors.{open_or_create_ends, open_or_create_torn}
use comlink.Tests.Samples.{bob, conv, bob_first}
use comlink.Tests.Stores.{encode, decode, decode-encode}

-- An envelope as byte strings: the payload, and then the parts of its ID, if it has one. A part that
-- may be nil is behind a 0 if it is there.
part : Option Bytes → Bytes
part none = []
part (some b) = 0 ∷ b

part_back : Bytes → Option Bytes
part_back [] = none
part_back (x ∷ b) = some b

part_back-part : (o : Option Bytes) → part_back (part o) ≡ o
unfolding part part_back
part_back-part none = refl
part_back-part (some b) = refl

id_strings : Option MessageId → List Bytes
unfolding part
id_strings none = []
id_strings (some id) = part id.conversation_id ∷ part id.sender ∷ id.vector_clock ∷ []

id_back : List Bytes → Option MessageId
unfolding part_back
id_back (a ∷ b ∷ v ∷ []) =
    some (record { conversation_id = part_back a; sender = part_back b; vector_clock = v })
id_back _ = none

id_back-id_strings : (o : Option MessageId) → id_back (id_strings o) ≡ o
unfolding id_back id_strings
id_back-id_strings none = refl
id_back-id_strings (some id) = rw (part_back-part id.conversation_id, part_back-part id.sender) refl

envelope_back : Option (List Bytes) → Option Envelope
unfolding id_back
envelope_back (some (payload ∷ rest)) = some (record { id = id_back rest; payload = payload })
envelope_back _ = none

envelope_back-id_strings :
    (env : Envelope) → envelope_back (some (env.payload ∷ id_strings env.id)) ≡ some env
unfolding envelope_back
envelope_back-id_strings env =
    ap (λ id. some (record { id = id; payload = env.payload })) (id_back-id_strings env.id)

abbrev wire : Envelope → Bytes
wire env = encode (env.payload ∷ id_strings env.id)

abbrev codec : Codec
codec = record {
  marshal_conv = λ b. some b;
  unmarshal_conv = λ b. some b;
  marshal = λ env. some (wire env);
  unmarshal = λ bytes. envelope_back (decode bytes);
  checksum = λ bytes. 5;
}

parses : (env : Envelope) → envelope_back (decode (wire env)) ≡ some env
parses env =
    ap envelope_back (decode-encode (env.payload ∷ id_strings env.id))
    ∙ envelope_back-id_strings env

codec_law : IsCodec codec
codec_law = record {
  conv_back = λ b bytes e. sym e;
  envelope_back = λ env bytes e. let same : wire env ≡ bytes = cc in rw (← same) (parses env);
  checksum_fits = λ bytes. omega arith;
}

new_file : (f : File) × (open_or_create codec conv [] none ≡ ok f) × Holds codec conv [] f
new_file = open_or_create-new codec conv conv refl (omega arith)

abbrev empty_file : File
empty_file = new_file.0

empty_file-Holds : Holds codec conv [] empty_file
empty_file-Holds = new_file.2

abbrev torn : Frame
torn = record { envelope = bob_first; seq = 1; payload = wire bob_first }

torn-IsFrame : IsFrame codec torn
unfolding encode id_strings
torn-IsFrame = record {
  parses = parses bob_first;
  seq_fits = omega arith;
  length_fits = omega arith;
  checksum_fits = omega arith;
}

open_or_create_lem_example :
    (f' : File) × (open_or_create codec conv
        (empty_file.data_file ++ take 3 (frame_bytes codec torn))
        empty_file.meta_file
      ≡ ok f')
    × Holds codec conv [] f'
    × (f'.data_file ≡ empty_file.data_file)
    × ((s : Bytes) (q : ℕ) → lookup_file f' s q ≡ lookup_file empty_file s q)
    × ((lo hi : ℕ) → range_file f' lo hi ≡ range_file empty_file lo hi)
open_or_create_lem_example =
    open_or_create_lem codec conv [] empty_file torn 3 codec_law empty_file-Holds torn-IsFrame
      (omega arith)

-- A write of the payload that fails after two bytes.
abbrev failing : AppendIo
failing = record {
  header_failed = none;
  payload_failed = some 2;
  sync_ok = true;
  rollback_ok = true;
}

small : length (wire bob_first) < 2 ^ 32
unfolding encode id_strings
small = omega arith

append_file-Appended_example :
    Appended codec conv [] torn failing empty_file
      (append_file codec failing empty_file bob_first 1)
append_file-Appended_example =
    append_file-Appended codec conv [] empty_file failing bob_first bob 1 (wire bob_first) codec_law
      empty_file-Holds refl refl (omega arith) small (omega arith)

truncate_file-Truncated_example :
    Truncated codec conv [] 3 replaced empty_file (truncate_file replaced empty_file 3)
truncate_file-Truncated_example =
    truncate_file-Truncated codec conv [] replaced empty_file 3 empty_file-Holds

open_or_create_ends_example :
    open_or_create codec conv (1 ∷ 2 ∷ 3 ∷ []) none ≢ err FileError.out_of_fuel
open_or_create_ends_example = open_or_create_ends codec conv (1 ∷ 2 ∷ 3 ∷ []) none

no_meta : read_meta none ≡ ok 0
unfolding read_meta
no_meta = refl

open_or_create_torn_example :
    open_or_create codec conv (take (suc 9) (header_bytes conv)) none ≡ err FileError.unreadable
open_or_create_torn_example =
    open_or_create_torn codec conv conv 9 0 none (omega arith) (omega arith) no_meta
