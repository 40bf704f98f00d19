-- ===== src/Psync/Conversation/Causal.antt =====
-- Causal delivery in psync/conversation.go: what a conversation hands to its application.
use mathlib.Core.Path.{subst₂}
use comlink.Psync.Graph.Invariant.{link-IsClosed}
use comlink.Common.{
  ℕ, ◌≤◌, ◌<◌, ◌≡◌, sym, ap, ◌∙◌, subst, ◌⊎◌, inl, inr, true, some, List, [], ◌∷◌, ◌++◌, length,
  get_elem?, get_elem?-lt, get_elem?-append_left, get_elem?-snoc, get_elem?-snoc_cases,
}
use comlink.Common.Assoc.{Bytes, nat_key, bytes_key}
use comlink.Messages.{ReplicaId, Envelope, value_of, sender_of, vector_of}
use comlink.Common.Assoc.{index_key}
use comlink.Psync.Conversation.{State}
use comlink.Psync.Conversation.Receive.{judge, accept, stores, handle_envelope}
use comlink.Psync.Conversation.Receive.Fuel.{handle_envelope-Answers}
use comlink.Psync.Conversation.Receive.Judge.{judge-insert}
use comlink.Psync.Membership.{Membership, len, replica, slot_of}
use comlink.Psync.Graph.{NodeRef, Graph, has, link}
use comlink.Psync.Graph.Invariant.{IsClosed}
use comlink.Psync.Graph.Insert.{Required, Accepts, insert-Accepts}
use comlink.Psync.Graph.Lookup.{fixed-has, has-fixed, has-link, has-link_self, fixed-link_cases}
use comlink.Psync.Membership.Slots.{IsWellFormed}
use comlink.Psync.Vector.{at}
use comlink.Psync.Conversation.Receive.Keeps.{Keeps, handle_envelope-keeps}

-- `env` is message number `q` of replica `s`, seen from the view `m`.
pub record IsMessage (m : Membership) (s : Bytes) (q : ℕ) (env : Envelope) : Type 0 where
  pub sent : sender_of env ≡ s
  pub slot : ℕ
  pub slotted : slot_of m s ≡ some slot
  pub numbered : at (vector_of env) slot ≡ q

-- Message `q` of `s` is the delivery at position `j`.
abbrev pub DeliveredAt : Membership → List Envelope → ℕ → Bytes → ℕ → Type 0
DeliveredAt m ds j s q = (env : Envelope) × (get_elem? ds j ≡ some env) × IsMessage m s q env

-- The deliveries are the messages of the graph, each once, and each behind all that it asks for.
pub record IsCausal (m : Membership) (g : Graph) (ds : List Envelope) : Type 0 where
  pub view : IsWellFormed m
  pub closed : IsClosed m g
  pub known :
      (j : ℕ) (env : Envelope)
      → get_elem? ds j ≡ some env
      → (s : Bytes) × (q : ℕ) × IsMessage m s q env × (length (vector_of env) ≤ len m)
  pub stored : (j : ℕ) (s : Bytes) (q : ℕ) → DeliveredAt m ds j s q → has g s q ≡ true
  pub complete : (s : Bytes) (q : ℕ) → has g s q ≡ true → (j : ℕ) × DeliveredAt m ds j s q
  pub once :
      (j j' : ℕ) (s : Bytes) (q : ℕ) → DeliveredAt m ds j s q → DeliveredAt m ds j' s q → j ≡ j'
  pub before :
      (j : ℕ) (s : Bytes) (q slot : ℕ) (env : Envelope)
      → get_elem? ds j ≡ some env
      → IsMessage m s q env
      → slot_of m s ≡ some slot
      → (i k : ℕ) (r : ReplicaId) → replica m i ≡ some r
      → Required slot q (vector_of env) i k
      → (j' : ℕ) × (j' < j) × DeliveredAt m ds j' r k

-- Every delivery is message `q` of some `s` only.
pub IsMessage-same :
    (m : Membership) (s s' : Bytes) (q q' : ℕ) (env : Envelope)
    → IsMessage m s q env
    → IsMessage m s' q' env
    → (s ≡ s') × (q ≡ q')
IsMessage-same m s s' q q' env a b =
    let same : s ≡ s' = cc (a.sent, b.sent) in
    let slot : a.slot ≡ b.slot = cc (a.slotted, b.slotted, same) in
    (same, cc (a.numbered, b.numbered, slot))

module _ (m : Membership) (g : Graph) (ds : List Envelope) (env : Envelope) (s : Bytes)
    (slot seq : ℕ) (ps : List NodeRef) (c : IsCausal m g ds) (a : Accepts m g env s slot seq) where
  abbrev g' : Graph
  g' = link g s seq slot env ps

  newest-IsMessage : IsMessage m s seq env
  newest-IsMessage = record {
    sent = ap value_of a.sent;
    slot = slot;
    slotted = a.slotted;
    numbered = sym a.numbered;
  }

  newest : DeliveredAt m (ds ++ env ∷ []) (length ds) s seq
  newest = (env, get_elem?-snoc ds env, newest-IsMessage)

  older :
      (j : ℕ) (r : Bytes) (k : ℕ) → DeliveredAt m ds j r k → DeliveredAt m (ds ++ env ∷ []) j r k
  older j r k (x, e, i) = (x, get_elem?-append_left ds (env ∷ []) j (get_elem?-lt ds j e) ∙ e, i)

  -- A delivery is an old one, or the new one.
  delivery_cases :
      (j : ℕ) (r : Bytes) (k : ℕ)
      → DeliveredAt m (ds ++ env ∷ []) j r k
      → DeliveredAt m ds j r k ⊎ ((j ≡ length ds) × (r ≡ s) × (k ≡ seq))
  delivery_cases j r k (x, e, i) = elim (get_elem?-snoc_cases ds env j e) [
    | inl f ↦ inl (x, f, i)
    | inr (p, f) ↦
        let same = IsMessage-same m r s k seq env (subst (IsMessage m r k) f i) newest-IsMessage in
        inr (p, same.0, same.1)
  ]

  not_before : (j : ℕ) → ¬ DeliveredAt m ds j s seq
  not_before j d = cc (c.stored j s seq d, a.fresh)

  complete_next :
      (r : Bytes) (k : ℕ) → has g' r k ≡ true → (j : ℕ) × DeliveredAt m (ds ++ env ∷ []) j r k
  complete_next r k h =
      let (n, e) = has-fixed g' r k h in
      elim (fixed-link_cases g s seq slot env ps r k n e) [
        | inl (p, q, _) ↦
            (length ds, subst₂ (λ x y. DeliveredAt m (ds ++ env ∷ []) (length ds) x y) p q newest)
        | inr old ↦ let (j, d) = c.complete r k (fixed-has g r k n old) in (j, older j r k d)
      ]

  once_next :
      (j j' : ℕ) (r : Bytes) (k : ℕ)
      → DeliveredAt m (ds ++ env ∷ []) j r k
      → DeliveredAt m (ds ++ env ∷ []) j' r k
      → j ≡ j'
  once_next j j' r k d d' = elim (delivery_cases j r k d) [
    | inl old ↦ elim (delivery_cases j' r k d') [
      | inl old' ↦ c.once j j' r k old old'
      | inr (_, p, q) ↦ absurd (not_before j (subst₂ (λ x y. DeliveredAt m ds j x y) p q old))
    ]
    | inr (p, q, t) ↦ elim (delivery_cases j' r k d') [
      | inl old' ↦ absurd (not_before j' (subst₂ (λ x y. DeliveredAt m ds j' x y) q t old'))
      | inr (p', _, _) ↦ p ∙ sym p'
    ]
  ]

  before_next :
      (j : ℕ) (r : Bytes) (q slot' : ℕ) (x : Envelope)
      → get_elem? (ds ++ env ∷ []) j ≡ some x
      → IsMessage m r q x
      → slot_of m r ≡ some slot'
      → (i k : ℕ) (t : ReplicaId) → replica m i ≡ some t
      → Required slot' q (vector_of x) i k
      → (j' : ℕ) × (j' < j) × DeliveredAt m (ds ++ env ∷ []) j' t k
  before_next j r q slot' x e msg at_slot i k t f req = elim (get_elem?-snoc_cases ds env j e) [
    | inl old ↦
        let (j', lt, d) = c.before j r q slot' x old msg at_slot i k t f req in
        (j', lt, older j' t k d)
    | inr (p, same) ↦
        let (r-s, q-seq) =
          IsMessage-same m r s q seq env (subst (IsMessage m r q) same msg) newest-IsMessage in
        let slots : slot' ≡ slot = cc (at_slot, a.slotted, r-s) in
        let (j', d) = c.complete t k (
          a.causal i k t f (
            subst (λ (v : Envelope). Required slot seq (vector_of v) i k) same
              (subst₂ (λ y z. Required y z (vector_of x) i k) slots q-seq req))) in
        (j', rw p (get_elem?-lt ds j' d.1), older j' t k d)
  ]

  -- Delivering what `Insert` takes keeps the deliveries causal.
  pub link-IsCausal : IsCausal m g' (ds ++ env ∷ [])
  link-IsCausal = record {
    view = c.view;
    closed = link-IsClosed m g env s slot seq ps c.closed a;
    known = λ j x e. elim (get_elem?-snoc_cases ds env j e) [
      | inl old ↦ c.known j x old
      | inr (_, same) ↦
          subst
            (λ (y : Envelope).
              (r : Bytes) × (q : ℕ) × IsMessage m r q y × (length (vector_of y) ≤ len m))
            (sym same) (s, seq, newest-IsMessage, a.era)
    ];
    stored = λ j r k d. elim (delivery_cases j r k d) [
      | inl old ↦ has-link g s seq slot env ps r k (c.stored j r k old)
      | inr (_, p, q) ↦ rw (p, q) (has-link_self g s seq slot env ps)
    ];
    complete = complete_next;
    once = once_next;
    before = before_next;
  }

-- The deliveries of a conversation are causal.
abbrev pub DeliversCausally : State → Type 0
DeliversCausally st = IsCausal st.membership st.graph st.delivered

accepted :
    (st : State) (env : Envelope) (g : Graph) (ref : NodeRef)
    → DeliversCausally st
    → judge st env ≡ stores g ref
    → DeliversCausally (accept st env g ref)
unfolding accept
accepted st env g ref c e =
    let (s, slot, seq, ps, a, p, q) =
      insert-Accepts st.membership st.graph g env ref (judge-insert st env g ref e) in
    rw q (link-IsCausal st.membership st.graph st.delivered env s slot seq ps c a)

-- Causal delivery. Let the deliveries of a conversation be exactly the messages of its graph, each
-- once and each behind every message that it asks for. Then so they are after any incoming envelope,
-- whatever envelopes it releases, whenever the call of `handleEnvelope` returns; and with more fuel
-- than there are deferred envelopes it returns.
pub handle_envelope-causal :
    (fuel : ℕ) (st : State) (env : Envelope) (from : ReplicaId)
    → length st.deferred < fuel
    → DeliversCausally st
    → (st' : State) × (handle_envelope fuel st env from ≡ some st') × DeliversCausally st'
handle_envelope-causal fuel st env from enough c =
    let (st', e, _) = handle_envelope-Answers fuel st env from enough in
    (st', e, handle_envelope-keeps DeliversCausally keeps fuel st st' env from c e)
  where
    keeps : Keeps DeliversCausally
    keeps = record { on_accept = accepted; on_bookkeeping = λ st d n o out c'. c' }
