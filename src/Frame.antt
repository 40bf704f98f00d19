-- ===== src/Frame.antt =====
-- frame/frame.go: what the substrate sends inside the payload of an envelope. The messages are those
-- of proto/comlink/v1/substrate.proto; the protobuf library's wire form is a parameter.
pub mod RoundTrip
use comlink.Common.{ℕ, Bool, true, false, not, ◌&&◌, ◌||◌, Option, none, some, List, []}
use comlink.Common.Assoc.{Bytes}
use comlink.Common.Result.{Result, ok, err, ◌>>=◌}
use comlink.Messages.{ReplicaId}

-- The oneof of MembershipEvent. A target is a pointer, and may be nil.
pub data MembershipEvent : Type 0 where
  suspect_down : Option ReplicaId → MembershipEvent
  vote_out vote_out_ack vote_out_nack : Option ReplicaId → MembershipEvent
  vote_in : Option ReplicaId → Bytes → MembershipEvent
  vote_in_ack vote_in_nack : Option ReplicaId → MembershipEvent
  member_add : Option ReplicaId → Bytes → MembershipEvent

pub record Watermark : Type 0 where
  pub offset : ℕ
  pub snapshot_through_offset : ℕ

-- The oneof of ConvFrame; the oneof of a MembershipEvent may be unset.
pub data Body : Type 0 where
  app_body : Bytes → Body
  heartbeat_body : Body
  watermark_body : Watermark → Body
  membership_body : Option MembershipEvent → Body

-- `proto.Marshal` and `proto.Unmarshal` of a ConvFrame, whose oneof may be unset.
pub record FrameCodec : Type 0 where
  pub marshal : Option Body → Option Bytes
  pub unmarshal : Bytes → Option (Option Body)

pub data FrameError : Type 0 where
  marshal_failed unmarshal_failed empty_frame : FrameError

unfoldable pub marshal_body : FrameCodec → Body → Result FrameError Bytes
marshal_body c b = elim (c.marshal (some b)) [ none ↦ err marshal_failed | some bytes ↦ ok bytes ]

unfoldable pub marshal_app : FrameCodec → Bytes → Result FrameError Bytes
unfolding marshal_body
marshal_app c app = marshal_body c (app_body app)

unfoldable pub marshal_heartbeat : FrameCodec → Result FrameError Bytes
unfolding marshal_body
marshal_heartbeat c = marshal_body c heartbeat_body

unfoldable pub marshal_watermark : FrameCodec → ℕ → ℕ → Result FrameError Bytes
unfolding marshal_body
marshal_watermark c applied snapshot =
    marshal_body c
      (watermark_body (record { offset = applied; snapshot_through_offset = snapshot }))

-- `marshalMembership`, which each `Marshal` of an event calls with its event.
unfoldable pub marshal_membership : FrameCodec → MembershipEvent → Result FrameError Bytes
unfolding marshal_body
marshal_membership c ev = marshal_body c (membership_body (some ev))

unfoldable pub marshal_suspect_down : FrameCodec → Option ReplicaId → Result FrameError Bytes
unfolding marshal_membership
marshal_suspect_down c r = marshal_membership c (suspect_down r)

unfoldable pub marshal_vote_out : FrameCodec → Option ReplicaId → Result FrameError Bytes
unfolding marshal_membership
marshal_vote_out c r = marshal_membership c (vote_out r)

unfoldable pub marshal_vote_out_ack : FrameCodec → Option ReplicaId → Result FrameError Bytes
unfolding marshal_membership
marshal_vote_out_ack c r = marshal_membership c (vote_out_ack r)

unfoldable pub marshal_vote_out_nack : FrameCodec → Option ReplicaId → Result FrameError Bytes
unfolding marshal_membership
marshal_vote_out_nack c r = marshal_membership c (vote_out_nack r)

unfoldable pub marshal_vote_in : FrameCodec → Option ReplicaId → Bytes → Result FrameError Bytes
unfolding marshal_membership
marshal_vote_in c r addr = marshal_membership c (vote_in r addr)

unfoldable pub marshal_vote_in_ack : FrameCodec → Option ReplicaId → Result FrameError Bytes
unfolding marshal_membership
marshal_vote_in_ack c r = marshal_membership c (vote_in_ack r)

unfoldable pub marshal_vote_in_nack : FrameCodec → Option ReplicaId → Result FrameError Bytes
unfolding marshal_membership
marshal_vote_in_nack c r = marshal_membership c (vote_in_nack r)

unfoldable pub marshal_member_add : FrameCodec → Option ReplicaId → Bytes → Result FrameError Bytes
unfolding marshal_membership
marshal_member_add c r addr = marshal_membership c (member_add r addr)

-- A field of Go's `Decoded` that is nil is `none`.
pub record Decoded : Type 0 where
  pub app : Option Bytes
  pub heartbeat : Bool
  pub watermark : Option Watermark
  pub suspects : Option (Option ReplicaId)
  pub votes_out : Option (Option ReplicaId)
  pub acks_out : Option (Option ReplicaId)
  pub nacks_out : Option (Option ReplicaId)
  pub votes_in : Option (Option ReplicaId × Bytes)
  pub acks_in : Option (Option ReplicaId)
  pub nacks_in : Option (Option ReplicaId)
  pub adds : Option (Option ReplicaId × Bytes)

abbrev pub nothing_decoded : Decoded
nothing_decoded = record {
  app = none;
  heartbeat = false;
  watermark = none;
  suspects = none;
  votes_out = none;
  acks_out = none;
  nacks_out = none;
  votes_in = none;
  acks_in = none;
  nacks_in = none;
  adds = none;
}

abbrev is_set {ℓ} : {A : Type ℓ} → Option A → Bool
is_set none = false
is_set (some a) = true

unfoldable pub has_membership : Decoded → Bool
has_membership d =
    is_set d.suspects
    || is_set d.votes_out
    || is_set d.acks_out
    || is_set d.nacks_out
    || is_set d.votes_in
    || is_set d.acks_in
    || is_set d.nacks_in
    || is_set d.adds

unfoldable pub is_app : Decoded → Bool
unfolding has_membership
is_app d = is_set d.app || (not d.heartbeat && not (is_set d.watermark) && not (has_membership d))

unfoldable pub decode_membership : Option MembershipEvent → Decoded
decode_membership none = nothing_decoded
decode_membership (some (suspect_down r)) = record nothing_decoded { suspects = some r }
decode_membership (some (vote_out r)) = record nothing_decoded { votes_out = some r }
decode_membership (some (vote_out_ack r)) = record nothing_decoded { acks_out = some r }
decode_membership (some (vote_out_nack r)) = record nothing_decoded { nacks_out = some r }
decode_membership (some (vote_in r addr)) = record nothing_decoded { votes_in = some (r, addr) }
decode_membership (some (vote_in_ack r)) = record nothing_decoded { acks_in = some r }
decode_membership (some (vote_in_nack r)) = record nothing_decoded { nacks_in = some r }
decode_membership (some (member_add r addr)) = record nothing_decoded { adds = some (r, addr) }

-- The switch of `Unmarshal`.
unfoldable pub decode_body : Option Body → Result FrameError Decoded
unfolding decode_membership
decode_body none = err empty_frame
decode_body (some (app_body app)) = ok (record nothing_decoded { app = some app })
decode_body (some heartbeat_body) = ok (record nothing_decoded { heartbeat = true })
decode_body (some (watermark_body w)) = ok (record nothing_decoded { watermark = some w })
decode_body (some (membership_body ev)) = ok (decode_membership ev)

unfoldable pub unmarshal : FrameCodec → Bytes → Result FrameError Decoded
unfolding decode_body
unmarshal c data_bytes = elim (c.unmarshal data_bytes) [
  | none ↦ err unmarshal_failed
  | some body ↦ decode_body body
]
