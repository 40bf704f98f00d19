-- ===== src/Psync/Graph/Insert.antt =====
-- `Insert` of psync/graph.go branch by branch, and what it asks of the parents.
use comlink.Common.{
  ℕ, zero, suc, ◌+◌, ◌-◌, ◌≤◌, ◌<◌, ◌≡◌, refl, sym, subst, ◌≢◌, ◌⊎◌, inl, inr, true, false, Option,
  none, some, List, [], ◌∷◌, arith, ℕ_discrete, Bool-cases, Option-cases, length, get_elem?,
}
use comlink.Common.Assoc.{Bytes, nat_key, bytes_key}
use comlink.Common.Result.{ok}
use comlink.Messages.{ReplicaId, Envelope, id_of, vector_of}
use comlink.Psync.Membership.{Membership, len, replica, slot_of}
use native.Mathlib.Nat.{add-zero, zero-add}
use comlink.Psync.Vector.{Vector, at}
use comlink.Psync.Graph.{
  NodeRef, MissingParent, Graph, has, required, add_parent, collect_parents, link, insert_with,
  insert_at, insert_from, insert,
}

-- What a message asks of slot `i`, for the sender's slot and sequence number.
abbrev pub Required : ℕ → ℕ → Vector → ℕ → ℕ → Type 0
Required slot seq vc i k = required slot seq vc i ≡ some k

pub Required-own : (slot seq : ℕ) (vc : Vector) → 1 < seq → Required slot seq vc slot (seq - 1)
Required-own slot seq vc h = ground arith

pub Required-other :
    (slot seq : ℕ) (vc : Vector) (i : ℕ) → i ≢ slot → 0 < at vc i → Required slot seq vc i (at vc i)
Required-other slot seq vc i n h = ground arith

-- A message asks for its sender's message before it, or for the one that another slot names.
pub Required-cases :
    (slot seq : ℕ) (vc : Vector) (i k : ℕ)
    → Required slot seq vc i k
    → ((i ≡ slot) × (1 < seq) × (k ≡ seq - 1)) ⊎ ((i ≢ slot) × (0 < at vc i) × (k ≡ at vc i))
Required-cases slot seq vc i k h = elim (ℕ_discrete i slot) [
  | yes e ↦ inl (e, ground arith, ground arith)
  | no e ↦ inr (e, ground arith, ground arith)
]

add_parent-has :
    (g : Graph) (r : ReplicaId) (o : Option ℕ) (rest : List NodeRef × List MissingParent)
    → (add_parent g r o rest).1 ≡ []
    → (rest.1 ≡ []) × ((k : ℕ) → o ≡ some k → has g r k ≡ true)
add_parent-has g r none rest e = (e, λ k f. cc)
add_parent-has g r (some q) (ps, ms) e = elim (Bool-cases (has g r q)) [
  | inl h ↦ (ground arith, λ k f. ground arith)
  | inr h ↦ (ground arith, λ k f. ground arith)
]

add_parent-none :
    (g : Graph) (r : ReplicaId) (o : Option ℕ) (rest : List NodeRef × List MissingParent)
    → rest.1 ≡ []
    → ((k : ℕ) → o ≡ some k → has g r k ≡ true)
    → (add_parent g r o rest).1 ≡ []
add_parent-none g r none rest e h = e
add_parent-none g r (some q) (ps, ms) e h = ground (arith, h q refl)

collect_parents-has :
    (g : Graph) (slot seq : ℕ) (vc : Vector) (rs : List ReplicaId) (i : ℕ)
    → (collect_parents g slot seq vc rs i).1 ≡ []
    → (j k : ℕ) (r : ReplicaId) → get_elem? rs j ≡ some r
    → Required slot seq vc (i + j) k
    → has g r k ≡ true
unfolding collect_parents
collect_parents-has g slot seq vc [] i e j k r f q = cc
collect_parents-has g slot seq vc (s ∷ rs) i e zero k r f q =
    let here = add_parent-has g s (required slot seq vc i) _ e in
    let same : s ≡ r = cc in
    subst (λ t. has g t k ≡ true) same
      (here.1 k (subst (λ t. Required slot seq vc t k) (add-zero i) q))
collect_parents-has g slot seq vc (s ∷ rs) i e (suc j) k r f q =
    let here = add_parent-has g s (required slot seq vc i) _ e in
    collect_parents-has g slot seq vc rs (i + 1) here.0 j k r f
      (subst (λ t. Required slot seq vc t k) shift q)
  where
    shift : i + suc j ≡ i + 1 + j
    shift = omega arith

collect_parents_complete :
    (g : Graph) (slot seq : ℕ) (vc : Vector) (rs : List ReplicaId) (i : ℕ)
    → ((j k : ℕ) (r : ReplicaId)
        → get_elem? rs j ≡ some r
        → Required slot seq vc (i + j) k
        → has g r k ≡ true)
    → (collect_parents g slot seq vc rs i).1 ≡ []
unfolding collect_parents
collect_parents_complete g slot seq vc [] i h = refl
collect_parents_complete g slot seq vc (r ∷ rs) i h =
    add_parent-none g r (required slot seq vc i) _
      (collect_parents_complete g slot seq vc rs (i + 1)
        (λ j k t f q. h (suc j) k t f (subst (λ n. Required slot seq vc n k) (shift j) q)))
      (λ k q. h 0 k r refl (subst (λ n. Required slot seq vc n k) (sym (add-zero i)) q))
  where
    shift : (j : ℕ) → i + 1 + j ≡ i + suc j
    shift j = omega arith

-- The conditions under which `Insert` stores a message of `s` in slot `slot` as number `seq`.
pub record Accepts (m : Membership) (g : Graph) (env : Envelope) (s : Bytes) (slot seq : ℕ)
    : Type 0 where
  pub sent : (id_of env).sender ≡ some s
  pub slotted : slot_of m s ≡ some slot
  pub in_vector : slot < length (vector_of env)
  pub numbered : seq ≡ at (vector_of env) slot
  pub positive : 0 < seq
  pub fresh : has g s seq ≡ false
  pub era : length (vector_of env) ≤ len m
  pub causal :
      (i k : ℕ) (r : ReplicaId)
      → replica m i ≡ some r
      → Required slot seq (vector_of env) i k
      → has g r k ≡ true

insert_with-ok :
    (g g' : Graph) (s : Bytes) (seq slot : ℕ) (env : Envelope)
    (found : List NodeRef × List MissingParent) (ref : NodeRef)
    → insert_with g s seq slot env found ≡ ok (g', ref)
    → (found.1 ≡ []) × (ref ≡ (s, seq)) × (g' ≡ link g s seq slot env found.0)
unfolding insert_with
insert_with-ok g g' s seq slot env (ps, []) ref e = (refl, cc, cc)
insert_with-ok g g' s seq slot env (ps, m ∷ ms) ref e = cc

insert_at-ok :
    (m : Membership) (g g' : Graph) (s : Bytes) (seq slot : ℕ) (env : Envelope) (ref : NodeRef)
    → insert_at m g s seq slot env ≡ ok (g', ref)
    → (0 < seq)
      × (has g s seq ≡ false)
      × (length (vector_of env) ≤ len m)
      × (insert_with g s seq slot env (collect_parents g slot seq (vector_of env) m.replicas 0)
          ≡ ok (g', ref))
unfolding insert_at
insert_at-ok m g g' s seq slot env ref e = ground arith

insert_from-ok :
    (m : Membership) (g g' : Graph) (env : Envelope) (o : Option ReplicaId) (ref : NodeRef)
    → insert_from m g env o ≡ ok (g', ref)
    → (s : Bytes) × (slot : ℕ) × (o ≡ some s)
      × (slot_of m s ≡ some slot)
      × (slot < length (vector_of env))
      × (insert_at m g s (at (vector_of env) slot) slot env ≡ ok (g', ref))
unfolding insert_from
insert_from-ok m g g' env none ref e = cc
insert_from-ok m g g' env (some s) ref e = elim (Option-cases (slot_of m s)) [
  | inl n ↦ ground arith
  | inr (slot, n) ↦ (s, slot, refl, n, ground arith, ground arith)
]

-- `Insert` succeeds only under the conditions, and then it links the node under the sender's key.
pub insert-Accepts :
    (m : Membership) (g g' : Graph) (env : Envelope) (ref : NodeRef)
    → insert m g env ≡ ok (g', ref)
    → (s : Bytes) × (slot : ℕ) × (seq : ℕ) × (ps : List NodeRef) × Accepts m g env s slot seq
      × (ref ≡ (s, seq))
      × (g' ≡ link g s seq slot env ps)
unfolding insert
insert-Accepts m g g' env ref e =
    let (s, slot, sent, slotted, inside, e') = insert_from-ok m g g' env _ ref e in
    let seq = at (vector_of env) slot in
    let (pos, fresh, era, e'') = insert_at-ok m g g' s seq slot env ref e' in
    let found = collect_parents g slot seq (vector_of env) m.replicas 0 in
    let (none_missing, named, linked) = insert_with-ok g g' s seq slot env found ref e'' in
    (
      s,
      slot,
      seq,
      found.0,
      record {
        sent = sent;
        slotted = slotted;
        in_vector = inside;
        numbered = refl;
        positive = pos;
        fresh = fresh;
        era = era;
        causal = λ i k r f q.
            collect_parents-has g slot seq (vector_of env) m.replicas 0 none_missing i k r f
              (subst (λ t. Required slot seq (vector_of env) t k) (sym (zero-add i)) q);
      },
      named,
      linked,
    )

insert_with-nil :
    (g : Graph) (s : Bytes) (seq slot : ℕ) (env : Envelope)
    (found : List NodeRef × List MissingParent)
    → found.1 ≡ []
    → insert_with g s seq slot env found ≡ ok (link g s seq slot env found.0, (s, seq))
unfolding insert_with
insert_with-nil g s seq slot env (ps, []) e = refl
insert_with-nil g s seq slot env (ps, m ∷ ms) e = cc

-- Under the conditions `Insert` succeeds.
pub Accepts-insert :
    (m : Membership) (g : Graph) (env : Envelope) (s : Bytes) (slot seq : ℕ)
    → Accepts m g env s slot seq
    → (ps : List NodeRef) × (insert m g env ≡ ok (link g s seq slot env ps, (s, seq)))
unfolding insert insert_from insert_at
Accepts-insert m g env s slot seq a = (
  found.0,
  ground (
    arith,
    a.sent,
    a.slotted,
    a.in_vector,
    a.numbered,
    a.positive,
    a.fresh,
    a.era,
    insert_with-nil g s seq slot env found complete,
  ),
)
  where
    found : List NodeRef × List MissingParent
    found = collect_parents g slot seq (vector_of env) m.replicas 0

    complete : found.1 ≡ []
    complete = collect_parents_complete g slot seq (vector_of env) m.replicas 0 (λ j k r f q.
        a.causal j k r f (subst (λ t. Required slot seq (vector_of env) t k) (zero-add j) q))
