-- ===== src/Psync/Conversation/Send/Accepted.antt =====
-- `handleSend` of psync/conversation.go succeeds: its own graph always takes the new message.
use comlink.Common.{
  ℕ, ◌+◌, ◌^◌, ◌≤◌, ◌<◌, ◌≡◌, refl, sym, ◌∙◌, subst, ◌≢◌, inl, inr, true, false, some, List, [],
  ◌∷◌, ◌++◌, arith, dec_lt, ℕ_discrete, Bool-cases, length, set, get_elem?-lt, get_elem?_total,
  length-set, lt→ltb,
}
use comlink.Common.Assoc.{Bytes, nat_key, bytes_key}
use comlink.Common.Result.{ok}
use comlink.Messages.{ReplicaId, MessageId, Envelope, id_of, vector_of}
use comlink.Psync.Membership.{len, replica, slot_of, active_replicas}
use comlink.Psync.Graph.{NodeRef, Node, has, insert, latest_seq, link}
use comlink.Psync.Graph.Insert.{Required, Required-cases, Accepts, Accepts-insert}
use comlink.Psync.Graph.Lookup.{fixed}
use comlink.Psync.Vector.{Vector, at, increment, dominates, u64}
use comlink.Psync.Vector.Compare.{Covers, Exceeds, at_beyond, dominates_iff, at-set_self, at-set_ne}
use comlink.Psync.Conversation.{State, current_view}
use comlink.Psync.Conversation.View.{current_view-counts, at-le-latest_seq}
use comlink.Psync.Conversation.Causal.{DeliversCausally, link-IsCausal}
use comlink.Psync.Graph.Latest.{has_iff_latest, has-le-latest_seq}
use comlink.Log.{Log, append, lookup_by_sender, next_offset}
use comlink.Log.Append.{IsSound, append_lem}
use comlink.Psync.Conversation.Send.{
  new_envelope, broadcast_envelope, finish_send, send_with, handle_send,
}

-- The state in which a conversation can send: it has its own slot, its deliveries are causal, its log
-- is open and sound, and neither its numbers nor its offsets are used up.
pub record CanSend (st : State) : Type 0 where
  pub causal : DeliversCausally st
  pub own_slot : slot_of st.membership st.self ≡ some st.self_slot
  pub sound : IsSound st.log
  pub open_log : st.log.closed ≡ false
  pub log_room : st.log.first_offset + length st.log.entries + 1 < 2 ^ 64
  pub seq_room : latest_seq st.graph st.self + 1 < 2 ^ 64

module _ (st : State) (payload : Bytes) (c : CanSend st) where
  open c use {causal}

  abbrev view : Vector
  view = current_view st.graph st.membership

  -- The number of the new message.
  abbrev pub seq : ℕ
  seq = latest_seq st.graph st.self + 1

  -- The vector of the new message.
  abbrev pub vc : Vector
  vc = set view st.self_slot (u64 (at view st.self_slot + 1))

  abbrev pub env : Envelope
  env = new_envelope st payload vc

  own : replica st.membership st.self_slot ≡ some st.self
  own = causal.view.found st.self st.self_slot c.own_slot

  counted : at view st.self_slot ≡ latest_seq st.graph st.self
  counted =
      (current_view-counts st.membership st.graph causal.view causal.closed).1 st.self_slot st.self
        own

  sized : length view ≡ len st.membership
  sized = (current_view-counts st.membership st.graph causal.view causal.closed).0

  in_range : st.self_slot < length view
  in_range = omega (arith, sized, get_elem?-lt st.membership.replicas st.self_slot own)

  incremented : increment view st.self_slot ≡ some vc
  unfolding increment
  incremented = rw (lt→ltb _ _ in_range) refl

  own_entry : at vc st.self_slot ≡ seq
  own_entry = omega (
    arith,
    at-set_self view st.self_slot (u64 (at view st.self_slot + 1)) in_range,
    counted,
    c.seq_room,
  )

  other_entry :
      (j : ℕ) (r : ReplicaId)
      → replica st.membership j ≡ some r
      → j ≢ st.self_slot
      → at vc j ≡ latest_seq st.graph r
  other_entry j r e n =
      at-set_ne view st.self_slot j _ (λ p. n (sym p))
      ∙ (current_view-counts st.membership st.graph causal.view causal.closed).1 j r e

  asks_stored :
      (i k : ℕ) (r : ReplicaId)
      → replica st.membership i ≡ some r
      → Required st.self_slot seq vc i k
      → has st.graph r k ≡ true
  asks_stored i k r e req = elim (Required-cases st.self_slot seq vc i k req) [
    | inl (slot, more, before) ↦
        let e' : replica st.membership st.self_slot ≡ some r =
          subst (λ x. replica st.membership x ≡ some r) slot e in
        let same : st.self ≡ r = cc (own, e') in
        (has_iff_latest st.membership st.graph r k causal.view causal.closed).1
          (omega (arith, more, before), rw (← same) (omega (arith, more, before)))
    | inr (other, named, k-named) ↦
        (has_iff_latest st.membership st.graph r k causal.view causal.closed).1
          (omega (arith, named, k-named), omega (arith, other_entry i r e other, k-named))
  ]

  new_number : has st.graph st.self seq ≡ false
  new_number = elim (Bool-cases (has st.graph st.self seq)) [
    | inr e ↦ e
    | inl e ↦ absurd (omega (arith, has-le-latest_seq st.graph st.self seq e))
  ]

  taken : Accepts st.membership st.graph env st.self st.self_slot seq
  taken = record {
    sent = refl;
    slotted = c.own_slot;
    in_vector =
        omega (arith, length-set view st.self_slot (u64 (at view st.self_slot + 1)), in_range);
    numbered = sym own_entry;
    positive = omega arith;
    fresh = new_number;
    era = omega (arith, length-set view st.self_slot (u64 (at view st.self_slot + 1)), sized);
    causal = asks_stored;
  }

  -- The state after the send, for the parents that `Insert` found and the log that `Append` left.
  abbrev pub after_send : List NodeRef → Log → State
  after_send ps l = record st {
    log = l;
    graph = link st.graph st.self seq st.self_slot env ps;
    delivered = st.delivered ++ env ∷ [];
    sent = st.sent ++ broadcast_envelope st.self env (active_replicas st.membership);
  }

  vc_self : vector_of env ≡ vc
  vc_self = refl

  -- No stored vector reaches beyond the members.
  node-le-view :
      (s : Bytes) (q : ℕ) (n : Node)
      → fixed st.graph s q ≡ some n
      → (j : ℕ) → at (vector_of n.envelope) j ≤ at view j
  node-le-view s q n e j = elim (dec_lt j (len st.membership)) [
    | no h ↦ omega (
      arith,
      at_beyond (vector_of n.envelope) j (omega (arith, h, (causal.closed.keyed s q n e).era)),
    )
    | yes h ↦
        let (r, f) = get_elem?_total st.membership.replicas j h in
        omega (
          arith,
          at-le-latest_seq st.membership st.graph s q n j r causal.view causal.closed e f,
          (current_view-counts st.membership st.graph causal.view causal.closed).1 j r f,
        )
  ]

  vc-dominates :
      (s : Bytes) (q : ℕ) (n : Node)
      → fixed st.graph s q ≡ some n
      → dominates vc (vector_of n.envelope) ≡ true
  vc-dominates s q n e = (dominates_iff vc (vector_of n.envelope)).1 (covers, exceeds)
    where
      covers : Covers vc (vector_of n.envelope)
      covers j = elim (ℕ_discrete j st.self_slot) [
        | yes p ↦ rw p (omega (arith, own_entry, counted, node-le-view s q n e st.self_slot))
        | no p ↦ omega (
          arith,
          at-set_self view st.self_slot (u64 (at view st.self_slot + 1)) in_range,
          at-set_ne view st.self_slot j (u64 (at view st.self_slot + 1)) (λ x. p (sym x)),
          node-le-view s q n e j,
        )
      ]

      exceeds : Exceeds vc (vector_of n.envelope)
      exceeds = (st.self_slot, omega (arith, own_entry, counted, node-le-view s q n e st.self_slot))

  send_with_ok :
      (ps : List NodeRef) (l : Log)
      → insert st.membership st.graph env
        ≡ ok (link st.graph st.self seq st.self_slot env ps, (st.self, seq))
      → append st.log env (at vc st.self_slot) ≡ ok (l, next_offset st.log)
      → send_with st payload vc ≡ (after_send ps l, ok (id_of env))
  unfolding finish_send send_with
  send_with_ok ps l e f = rw (f, e, send_with) refl

  sent_ok :
      (ps : List NodeRef) (l : Log)
      → insert st.membership st.graph env
        ≡ ok (link st.graph st.self seq st.self_slot env ps, (st.self, seq))
      → append st.log env (at vc st.self_slot) ≡ ok (l, next_offset st.log)
      → handle_send st payload ≡ (after_send ps l, ok (id_of env))
  unfolding handle_send
  sent_ok ps l e f = rw (incremented, handle_send) (send_with_ok ps l e f)

  -- A send succeeds. It takes the next number of its sender, the log finds the message under it, the
  -- message is delivered at home behind all that was delivered before, goes to every other active
  -- replica, and the deliveries stay causal.
  pub handle_send_lem :
      (ps : List NodeRef) × (l : Log) × (handle_send st payload ≡ (after_send ps l, ok (id_of env)))
      × DeliversCausally (after_send ps l)
      × IsSound l
      × (lookup_by_sender l st.self seq
          ≡ ok (record { offset = next_offset st.log; envelope = env }))
  handle_send_lem =
      let (ps, e) = Accepts-insert st.membership st.graph env st.self st.self_slot seq taken in
      let (l, f, sound, _, found, _) =
        append_lem st.log env st.self seq c.sound c.log_room c.open_log refl in
      (
        ps,
        l,
        sent_ok ps l e (rw own_entry f),
        link-IsCausal st.membership st.graph st.delivered env st.self st.self_slot seq ps causal
            taken,
        sound,
        found,
      )

  -- A send succeeds, and the vector of the message that it answers dominates the vector of every message
  -- that was in the graph before.
  pub send-follows :
      (st' : State) × (id : MessageId) × (handle_send st payload ≡ (st', ok id))
      × ((s : Bytes) (q : ℕ) (n : Node)
          → fixed st.graph s q ≡ some n
          → dominates id.vector_clock (vector_of n.envelope) ≡ true)
  send-follows =
      let (ps, l, e, _, _, _) = handle_send_lem in (after_send ps l, id_of env, e, vc-dominates)
