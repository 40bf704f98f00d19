-- ===== src/Psync/Conversation/Server/Steps.antt =====
-- Every branch of `HandleCall` and `HandleCast` of psync/conversation.go keeps deliveries causal.
use comlink.Common.{
  ℕ, ◌<◌, ◌≡◌, refl, ap, inl, inr, Bool, true, false, Option, none, some, List, [], ◌∷◌, arith,
  length, Option-cases, ite, get_elem?, get_elem?-lt,
}
use comlink.Common.Assoc.{Bytes, Bytes-discrete, bytes_key, get}
use comlink.Common.Result.{Result, ok, err, Result-cases}
use comlink.Messages.{ReplicaId, Envelope, value_of}
use comlink.Log.{Log, append, lookup_by_sender}
use comlink.Psync.Vector.{Vector, at, increment}
use comlink.Psync.Membership.{add, freeze, len, active_replicas}
use comlink.Psync.Membership.Slots.{add_lem}
use comlink.Psync.Membership.Frozen.{freeze_lem}
use comlink.Psync.Graph.{Graph, NodeRef, InsertError, insert}
use comlink.Psync.Stability.{wave_complete, stable_nodes}
use comlink.Psync.Conversation.{
  State, PsyncMessage, Set, current_view, envelope, lost_message_request, restart_message,
  restart_ack,
}
use comlink.Psync.Conversation.Receive.{request_message}
use comlink.Psync.Conversation.Causal.{DeliversCausally, handle_envelope-causal}
use comlink.Psync.Conversation.Send.{
  new_envelope, finish_send, send_with, handle_send, handle_lost_request, handle_request_missing,
  request_from_all,
}
use comlink.Psync.Conversation.Server.{
  Request, replay_log_request, send_request, mask_request, wave_complete_request,
  messages_in_wave_request, stable_message_ids_request, membership_request, freeze_member_request,
  add_member_request, has_seen_request, request_missing_request, masked_after, mask_with,
  freeze_with, add_with, handle_call, handle_cast, handle_restart_message,
}
use comlink.Psync.Conversation.Server.Replayed.{insert-IsCausal}
use comlink.Psync.Conversation.Server.Extended.{IsCausal-extend}

finish_send-causal :
    (st : State) (env : Envelope) (l : Log)
    → DeliversCausally st
    → (r : Result InsertError (Graph × NodeRef)) → insert st.membership st.graph env ≡ r
    → DeliversCausally (finish_send st env l r).0
unfolding finish_send
finish_send-causal st env l c (err e) h = c
finish_send-causal st env l c (ok (g, ref)) h =
    insert-IsCausal st.membership st.graph g st.delivered env ref c h

send_with-causal :
    (st : State) (payload : Bytes) (vc : Vector)
    → DeliversCausally st
    → DeliversCausally (send_with st payload vc).0
unfolding send_with
send_with-causal st payload vc c =
    let env = new_envelope st payload vc in
    elim (Result-cases (append st.log env (at vc st.self_slot))) [
      | inr (e, f) ↦ rw (f, send_with) c
      | inl ((l, off), f) ↦ rw (f, send_with) (finish_send-causal st env l c _ refl)
    ]

handle_send-causal :
    (st : State) (payload : Bytes)
    → DeliversCausally st
    → DeliversCausally (handle_send st payload).0
unfolding handle_send
handle_send-causal st payload c =
    elim (Option-cases (increment (current_view st.graph st.membership) st.self_slot)) [
      | inl f ↦ rw (f, handle_send) c
      | inr (vc, f) ↦ rw (f, handle_send) (send_with-causal st payload vc c)
    ]

add_with-causal :
    (st : State) (r : ReplicaId)
    → DeliversCausally st
    → DeliversCausally (add_with st (add st.membership r)).0
unfolding add_with
add_with-causal st r c = elim (add_lem st.membership r c.view) [
  | inl (i, _, e) ↦ rw (e, add_with) c
  | inr (m', e, w, newest, _, old) ↦
      rw (e, add_with)
        (IsCausal-extend st.membership m' st.graph st.delivered c (record {
          well_formed = w;
          kept = λ i h. (old i h).0;
          more = omega (arith, get_elem?-lt m'.replicas (len st.membership) newest);
        }))
]

freeze_with-causal :
    (st : State) (r : ReplicaId)
    → DeliversCausally st
    → DeliversCausally (freeze_with st (freeze st.membership r)).0
unfolding freeze_with
freeze_with-causal st r c = elim (freeze_lem st.membership r c.view) [
  | inl (_, e) ↦ rw (e, freeze_with) c
  | inr (i, _, inl (_, e)) ↦ rw (e, freeze_with) c
  | inr (i, _, inr (m', e, w, same, _, _)) ↦
      rw (e, freeze_with)
        (IsCausal-extend st.membership m' st.graph st.delivered c (record {
          well_formed = w;
          kept = λ j h. ap (λ rs. get_elem? rs j) same;
          more = omega (arith, ap (λ rs. length rs) same);
        }))
]

request_message-causal :
    (st : State) (s : ReplicaId) (q : ℕ) (p : ReplicaId)
    → DeliversCausally st
    → DeliversCausally (request_message s q p st)
unfolding request_message
request_message-causal st s q p c = c

-- What holds in both branches of a test holds of it.
ite_both {ℓ κ} :
    {P : Type ℓ} {A : Type 0} (C : A → Type κ) (d : Dec P) (a b : A) → C a → C b → C (ite d a b)
ite_both C (yes p) a b h k = h
ite_both C (no n) a b h k = k

request_from_all-causal :
    (s : ReplicaId) (q : ℕ) (ps : List ReplicaId) (st : State)
    → DeliversCausally st
    → DeliversCausally (request_from_all s q ps st)
unfolding request_from_all
request_from_all-causal s q [] st c = c
request_from_all-causal s q (p ∷ ps) st c = request_from_all-causal s q ps _ (
    ite_both DeliversCausally (Bytes-discrete p st.self) st (request_message s q p st) c
      (request_message-causal st s q p c))

handle_request_missing-causal :
    (st : State) (s : ReplicaId) (q : ℕ)
    → DeliversCausally st
    → DeliversCausally (handle_request_missing st s q)
unfolding handle_request_missing
handle_request_missing-causal st s q c =
    ite_both DeliversCausally (Bytes-discrete s st.self) _ (request_message s q s st)
      (request_from_all-causal s q (active_replicas st.membership) st c)
      (request_message-causal st s q s c)

handle_lost_request-causal :
    (st : State) (missing : Option ReplicaId) (q : ℕ) (from : ReplicaId)
    → DeliversCausally st
    → DeliversCausally (handle_lost_request st missing q from)
unfolding handle_lost_request
handle_lost_request-causal st missing q from c =
    elim (Result-cases (lookup_by_sender st.log (value_of missing) q)) [
      | inr (e, f) ↦ rw (f, handle_lost_request) c
      | inl (x, f) ↦ rw (f, handle_lost_request) c
    ]

handle_restart_message-causal :
    (st : State) (restarter : Option ReplicaId)
    → DeliversCausally st
    → DeliversCausally (handle_restart_message st restarter)
unfolding handle_restart_message
handle_restart_message-causal st none c = c
handle_restart_message-causal st (some r) c = c

masked_after-causal :
    (st : State) (stored : Bool) (new : Set Bytes)
    → DeliversCausally st
    → DeliversCausally (masked_after st stored new).0
unfolding masked_after
masked_after-causal st true new c = c
masked_after-causal st false new c = c

mask_with-causal :
    (st : State) (into : Bool) (r : ReplicaId) (stored : Bool)
    → DeliversCausally st
    → DeliversCausally (mask_with st into r stored).0
unfolding mask_with
mask_with-causal st true r stored c = elim (Option-cases (get r st.masked)) [
  | inl e ↦ rw (e, mask_with) c
  | inr (u, e) ↦ rw (e, mask_with) (masked_after-causal st stored _ c)
]
mask_with-causal st false r stored c = elim (Option-cases (get r st.masked)) [
  | inl e ↦ rw (e, mask_with) (masked_after-causal st stored _ c)
  | inr (u, e) ↦ rw (e, mask_with) c
]

-- A replay, whose envelopes the caller delivers later, is told apart.
abbrev pub is_replay : Request → Bool
is_replay (replay_log_request deliver) = true
is_replay r = false

pub handle_call-causal :
    (st : State) (req : Request)
    → is_replay req ≡ false
    → DeliversCausally st
    → DeliversCausally (handle_call st req).0
unfolding handle_call
handle_call-causal st (send_request payload) n c = handle_send-causal st payload c
handle_call-causal st (mask_request into r stored) n c = mask_with-causal st into r stored c
handle_call-causal st (replay_log_request deliver) n c = cc
handle_call-causal st (wave_complete_request w) n c =
    elim (Option-cases (wave_complete st.membership st.graph w)) [
      | inl e ↦ rw (e, handle_call) c
      | inr (b, e) ↦ rw (e, handle_call) c
    ]
handle_call-causal st (messages_in_wave_request w) n c = c
handle_call-causal st stable_message_ids_request n c =
    elim (Option-cases (stable_nodes st.membership st.graph)) [
      | inl e ↦ rw (e, handle_call) c
      | inr (refs, e) ↦ rw (e, handle_call) c
    ]
handle_call-causal st membership_request n c = c
handle_call-causal st (freeze_member_request r) n c = freeze_with-causal st r c
handle_call-causal st (add_member_request r) n c = add_with-causal st r c
handle_call-causal st (has_seen_request s q) n c = c
handle_call-causal st (request_missing_request s q) n c = handle_request_missing-causal st s q c

pub handle_cast-causal :
    (fuel : ℕ) (st : State) (from : ReplicaId) (msg : Option PsyncMessage)
    → length st.deferred < fuel
    → DeliversCausally st
    → (st' : State) × (handle_cast fuel st from msg ≡ some st') × DeliversCausally st'
unfolding handle_cast
handle_cast-causal fuel st from none h c = (st, refl, c)
handle_cast-causal fuel st from (some (envelope env)) h c =
    handle_envelope-causal fuel st env from h c
handle_cast-causal fuel st from (some (lost_message_request missing q)) h c =
    (handle_lost_request st missing q from, refl, handle_lost_request-causal st missing q from c)
handle_cast-causal fuel st from (some (restart_message restarter)) h c =
    (handle_restart_message st restarter, refl, handle_restart_message-causal st restarter c)
handle_cast-causal fuel st from (some (restart_ack responder ids)) h c = (st, refl, c)
