-- ===== src/Frame/RoundTrip.antt =====
-- frame/frame.go: what is sent is what is read.
use comlink.Common.{ℕ, Option, some, ◌≡◌, ◌⊎◌, refl, inl, inr, Option-cases, true}
use comlink.Common.Assoc.{Bytes}
use comlink.Common.Result.{Result, ok, err}
use comlink.Messages.{ReplicaId}
use comlink.Frame.{
  marshal_failed, Body, FrameCodec, FrameError, Decoded, nothing_decoded, decode_body,
  decode_membership, unmarshal, marshal_body, marshal_app, marshal_heartbeat, marshal_watermark,
  marshal_membership, marshal_suspect_down, marshal_vote_out, marshal_vote_out_ack,
  marshal_vote_out_nack, marshal_vote_in, marshal_vote_in_ack, marshal_vote_in_nack,
  marshal_member_add,
}

-- What is documented of `proto.Marshal`: what it writes is read back.
abbrev pub IsFrameCodec : FrameCodec → Type 0
IsFrameCodec c =
    (body : Option Body) (bytes : Bytes)
    → c.marshal body ≡ some bytes
    → c.unmarshal bytes ≡ some body

-- What was sent is bytes that decode to `d`, or it could not be marshalled.
abbrev pub Arrives : FrameCodec → Result FrameError Bytes → Decoded → Type 0
Arrives c sent d =
    (sent ≡ err marshal_failed) ⊎ ((bytes : Bytes) × (sent ≡ ok bytes) × (unmarshal c bytes ≡ ok d))

marshal_body-Arrives :
    (c : FrameCodec) (b : Body) (d : Decoded)
    → IsFrameCodec c
    → decode_body (some b) ≡ ok d
    → Arrives c (marshal_body c b) d
unfolding marshal_body unmarshal
marshal_body-Arrives c b d law e = elim (Option-cases (c.marshal (some b))) [
  | inl q ↦ inl (rw (marshal_body, q) refl)
  | inr (bytes, q) ↦ inr (bytes, rw (marshal_body, q) refl, rw (unmarshal, law (some b) bytes q) e)
]

-- Each kind of frame arrives as a `Decoded` with exactly the field of its kind set.
abbrev pub AllArrive : FrameCodec → Type 0
AllArrive c =
    ((app : Bytes) → Arrives c (marshal_app c app) (record nothing_decoded { app = some app }))
    × Arrives c (marshal_heartbeat c) (record nothing_decoded { heartbeat = true })
    × ((a s : ℕ)
        → Arrives c (marshal_watermark c a s) (record nothing_decoded {
          watermark = some (record { offset = a; snapshot_through_offset = s });
        }))
    × ((r : Option ReplicaId)
        → Arrives c (marshal_suspect_down c r) (record nothing_decoded { suspects = some r })
          × Arrives c (marshal_vote_out c r) (record nothing_decoded { votes_out = some r })
          × Arrives c (marshal_vote_out_ack c r) (record nothing_decoded { acks_out = some r })
          × Arrives c (marshal_vote_out_nack c r) (record nothing_decoded { nacks_out = some r })
          × Arrives c (marshal_vote_in_ack c r) (record nothing_decoded { acks_in = some r })
          × Arrives c (marshal_vote_in_nack c r) (record nothing_decoded { nacks_in = some r }))
    × ((r : Option ReplicaId) (addr : Bytes)
        → Arrives c (marshal_vote_in c r addr)
            (record nothing_decoded { votes_in = some (r, addr) })
          × Arrives c (marshal_member_add c r addr)
              (record nothing_decoded { adds = some (r, addr) }))

-- With a coding that reads back what it writes, each frame that can be marshalled is decoded to a
-- `Decoded` with exactly the field of its kind set.
pub unmarshal-Arrives : (c : FrameCodec) → IsFrameCodec c → AllArrive c
unfolding marshal_app marshal_heartbeat marshal_watermark marshal_membership marshal_suspect_down
    marshal_vote_out marshal_vote_out_ack marshal_vote_out_nack marshal_vote_in marshal_vote_in_ack
    marshal_vote_in_nack marshal_member_add decode_body decode_membership
unmarshal-Arrives c law = (
  λ app. arrives _ _ refl,
  arrives _ _ refl,
  λ a s. arrives _ _ refl,
  λ r. (
    arrives _ _ refl,
    arrives _ _ refl,
    arrives _ _ refl,
    arrives _ _ refl,
    arrives _ _ refl,
    arrives _ _ refl,
  ),
  λ r addr. (arrives _ _ refl, arrives _ _ refl),
)
  where
    arrives :
        (b : Body) (d : Decoded) → decode_body (some b) ≡ ok d → Arrives c (marshal_body c b) d
    arrives b d e = marshal_body-Arrives c b d law e
