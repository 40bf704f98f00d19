-- ===== src/Psync/Conversation/Send/Retransmit.antt =====
-- What psync/conversation.go sends: the broadcast of a message, and its retransmission on request.
use comlink.Common.{
  ℕ, zero, suc, ◌≡◌, refl, sym, ap, ◌∙◌, subst, ◌≢◌, ◌↔◌, false, Option, some, List, [], ◌∷◌, ◌++◌,
  arith, get_elem?,
}
use comlink.Common.Assoc.{Bytes, Bytes-discrete}
use comlink.Common.Result.{ok}
use comlink.Messages.{ReplicaId, Envelope, value_of, id_of}
use comlink.Log.{Entry, lookup_by_sender}
use comlink.Psync.Membership.{replica, is_frozen, active_replicas}
use comlink.Psync.Membership.Frozen.{active_replicas_iff}
use comlink.Psync.Conversation.{State, PsyncMessage, envelope}
use comlink.Psync.Conversation.Send.{broadcast_envelope, handle_send, handle_lost_request}
use comlink.Psync.Conversation.Send.Accepted.{CanSend, after_send, env, seq, handle_send_lem}

-- The frame for `p` is in the list.
abbrev pub IsSentTo : ReplicaId → PsyncMessage → List (ReplicaId × PsyncMessage) → Type 0
IsSentTo p msg out = (i : ℕ) × (get_elem? out i ≡ some (p, msg))

broadcast-found :
    (self : ReplicaId) (x : Envelope) (ps : List ReplicaId) (p : ReplicaId) (j : ℕ)
    → get_elem? ps j ≡ some p
    → p ≢ self
    → IsSentTo p (envelope x) (broadcast_envelope self x ps)
unfolding broadcast_envelope
broadcast-found self x [] p j e n = cc
broadcast-found self x (q ∷ ps) p zero e n =
    let same : q ≡ p = cc in
    elim (Bytes-discrete q self) [
      | yes h ↦ absurd (n (sym same ∙ h))
      | no h ↦ (0, ground (arith, h, same))
    ]
broadcast-found self x (q ∷ ps) p (suc j) e n =
    let (i, f) = broadcast-found self x ps p j e n in
    elim (Bytes-discrete q self) [
      | yes h ↦ (i, ground (arith, h, f))
      | no h ↦ (suc i, ground (arith, h, f))
    ]

first_or_later :
    (self : ReplicaId) (x : Envelope) (q : ReplicaId) (ps : List ReplicaId) (p : ReplicaId)
    (msg : PsyncMessage) (i : ℕ)
    → q ≢ self
    → get_elem? ((q, envelope x) ∷ broadcast_envelope self x ps) i ≡ some (p, msg)
    → ((k : ℕ)
        → get_elem? (broadcast_envelope self x ps) k ≡ some (p, msg)
        → ((j : ℕ) × (get_elem? ps j ≡ some p)) × (p ≢ self) × (msg ≡ envelope x))
    → ((j : ℕ) × (get_elem? (q ∷ ps) j ≡ some p)) × (p ≢ self) × (msg ≡ envelope x)
first_or_later self x q ps p msg zero h e rest =
    let same : q ≡ p = cc in ((0, ap some same), λ z. h (same ∙ z), cc)
first_or_later self x q ps p msg (suc i) h e rest =
    let ((j, f), n, m) = rest i e in ((suc j, f), n, m)

broadcast-listed :
    (self : ReplicaId) (x : Envelope) (ps : List ReplicaId) (p : ReplicaId) (msg : PsyncMessage)
    (i : ℕ)
    → get_elem? (broadcast_envelope self x ps) i ≡ some (p, msg)
    → ((j : ℕ) × (get_elem? ps j ≡ some p)) × (p ≢ self) × (msg ≡ envelope x)
unfolding broadcast_envelope
broadcast-listed self x [] p msg i e = cc
broadcast-listed self x (q ∷ ps) p msg i e = elim (Bytes-discrete q self) [
  | yes h ↦
      let e' : get_elem? (broadcast_envelope self x ps) i ≡ some (p, msg) = ground (arith, h) in
      let ((j, f), n, m) = broadcast-listed self x ps p msg i e' in ((suc j, f), n, m)
  | no h ↦
      let e' : get_elem? ((q, envelope x) ∷ broadcast_envelope self x ps) i ≡ some (p, msg) =
        ground (arith, h) in
      first_or_later self x q ps p msg i h e' (broadcast-listed self x ps p msg)
]

-- `broadcastEnvelope` to the active replicas sends the envelope, and nothing else, to exactly those of
-- them that are not the sender.
pub broadcast_envelope_iff :
    (st : State) (x : Envelope) (p : ReplicaId) (msg : PsyncMessage)
    → IsSentTo p msg (broadcast_envelope st.self x (active_replicas st.membership)) ↔ (
        ((i : ℕ) × (replica st.membership i ≡ some p) × (is_frozen st.membership i ≡ some false))
        × (p ≢ st.self)
        × (msg ≡ envelope x))
broadcast_envelope_iff st x p msg = (
  λ (i, e).
      let (active, n, m) = broadcast-listed st.self x (active_replicas st.membership) p msg i e in
      ((active_replicas_iff st.membership p).0 active, n, m),
  λ (active, n, m).
      let (j, e) = (active_replicas_iff st.membership p).1 active in
      subst (λ y. IsSentTo p y (broadcast_envelope st.self x (active_replicas st.membership)))
        (sym m) (broadcast-found st.self x (active_replicas st.membership) p j e n),
)

lost_request_found :
    (st : State) (missing : Option ReplicaId) (q : ℕ) (from : ReplicaId) (entry : Entry)
    → lookup_by_sender st.log (value_of missing) q ≡ ok entry
    → handle_lost_request st missing q from
      ≡ record st { sent = st.sent ++ (from, envelope entry.envelope) ∷ [] }
unfolding handle_lost_request
lost_request_found st missing q from entry e = rw (e, handle_lost_request) refl

-- What was sent is sent again. After a send, whoever asks for the sender's number of the message gets
-- exactly that message, and the request changes nothing else.
pub handle_send-handle_lost_request :
    (st : State) (payload : Bytes) (c : CanSend st) (from : ReplicaId)
    → (st' : State) × (handle_send st payload ≡ (st', ok (id_of (env st payload c))))
      × (handle_lost_request st' (some st.self) (seq st payload c) from
          ≡ record st' { sent = st'.sent ++ (from, envelope (env st payload c)) ∷ [] })
handle_send-handle_lost_request st payload c from =
    let (ps, l, e, _, _, found) = handle_send_lem st payload c in
    (
      after_send st payload c ps l,
      e,
      lost_request_found (after_send st payload c ps l) (some st.self) (seq st payload c) from _
          found,
    )
