-- ===== src/Messages.antt =====
-- The protobuf messages of proto/comlink/v1 that psync handles, as
-- internal/pb/comlink/v1/comlink.pb.go declares them. An optional message field is a pointer that
-- may be nil; a getter on a nil message answers the zero value.
use comlink.Common.{ℕ, Option, none, some, List, []}
use comlink.Common.Assoc.{Bytes}

-- The bytes of a ReplicaID.
abbrev pub ReplicaId : Type 0
ReplicaId = Bytes

pub record MessageId : Type 0 where
  pub conversation_id : Option Bytes
  pub sender : Option ReplicaId
  pub vector_clock : List ℕ

pub record Envelope : Type 0 where
  pub id : Option MessageId
  pub payload : Bytes

-- `GetValue` on an optional ReplicaID.
abbrev pub value_of : Option ReplicaId → Bytes
value_of none = []
value_of (some r) = r

abbrev pub nil_id : MessageId
nil_id = record { conversation_id = none; sender = none; vector_clock = [] }

-- `env.GetId()` as its getters read it.
abbrev pub id_of : Envelope → MessageId
id_of env = elim env.id [ none ↦ nil_id | some id ↦ id ]

abbrev pub sender_of : Envelope → Bytes
sender_of env = value_of (id_of env).sender

abbrev pub vector_of : Envelope → List ℕ
vector_of env = (id_of env).vector_clock
