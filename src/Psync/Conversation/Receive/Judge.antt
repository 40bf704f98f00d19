-- ===== src/Psync/Conversation/Receive/Judge.antt =====
-- What `handleEnvelope` of psync/conversation.go has checked when it stores or defers an envelope.
use comlink.Common.{◌≡◌, Option, none, some, arith}
use comlink.Common.Assoc.{nat_key, bytes_key}
use comlink.Common.Result.{ok}
use comlink.Messages.{ReplicaId, Envelope, id_of}
use comlink.Psync.Conversation.{State}
use comlink.Psync.Conversation.Receive.{stores, judge_sender, judge}
use comlink.Psync.Graph.{NodeRef, Graph, insert}

judge_sender-insert :
    (st : State) (env : Envelope) (o : Option ReplicaId) (g : Graph) (ref : NodeRef)
    → judge_sender st env o ≡ stores g ref
    → insert st.membership st.graph env ≡ ok (g, ref)
unfolding judge_sender
judge_sender-insert st env none g ref e = cc
judge_sender-insert st env (some s) g ref e = ground arith

-- A stored envelope is one that `Insert` took.
pub judge-insert :
    (st : State) (env : Envelope) (g : Graph) (ref : NodeRef)
    → judge st env ≡ stores g ref
    → insert st.membership st.graph env ≡ ok (g, ref)
unfolding judge
judge-insert st env g ref e = ground (arith, judge_sender-insert st env (id_of env).sender g ref)
