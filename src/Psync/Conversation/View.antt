-- ===== src/Psync/Conversation/View.antt =====
-- `currentView` of psync/conversation.go: in a closed graph it counts each sender's messages.
use comlink.Common.{
  ℕ, zero, suc, ◌≤◌, max, ◌≡◌, refl, ◌∙◌, subst, ◌≢◌, ◌⊎◌, inl, inr, Option, none, some, List, [],
  ◌∷◌, arith, dec_lt, ℕ_discrete, ◌==◌, if◌then◌else◌, length, get_elem?, replicate,
  length-replicate,
}
use comlink.Common.Assoc.{Bytes, nat_key, bytes_key}
use comlink.Messages.{ReplicaId, vector_of}
use comlink.Psync.Membership.{Membership, len, replica}
use comlink.Psync.Vector.{Vector, at}
use comlink.Psync.Vector.Compare.{at-max_vector, length-max_vector}
use comlink.Psync.Graph.{Node, Graph, lookup, latest_seq}
use comlink.Psync.Graph.Lookup.{stable, fixed, fixed-has, has-fixed}
use comlink.Psync.Graph.Invariant.{IsClosed, IsKeyed}
use comlink.Psync.Graph.Insert.{Required-other}
use comlink.Psync.Graph.Latest.{has-le-latest_seq, has-latest_seq}
use comlink.Psync.Membership.Slots.{IsWellFormed}
use comlink.Psync.Conversation.{vector_at, join_latest, view_from, current_view}

-- No stored vector names a message that the graph lacks.
pub at-le-latest_seq :
    (m : Membership) (g : Graph) (s : Bytes) (q : ℕ) (n : Node) (j : ℕ) (r : ReplicaId)
    → IsWellFormed m
    → IsClosed m g
    → fixed g s q ≡ some n
    → replica m j ≡ some r
    → at (vector_of n.envelope) j ≤ latest_seq g r
at-le-latest_seq m g s q n j r w v e f = elim (ℕ_discrete j n.sender_slot) [
  | yes p ↦ own p
  | no p ↦ other p
]
  where
    key : IsKeyed m s q n
    key = v.keyed s q n e

    own : j ≡ n.sender_slot → at (vector_of n.envelope) j ≤ latest_seq g r
    own p =
        let f' : replica m n.sender_slot ≡ some r = subst (λ i. replica m i ≡ some r) p f in
        let same : s ≡ r = cc (w.found s n.sender_slot key.slotted, f') in
        rw (p, key.numbered, ← same) (has-le-latest_seq g s q (fixed-has g s q n e))

    other : j ≢ n.sender_slot → at (vector_of n.envelope) j ≤ latest_seq g r
    other p = elim (dec_lt 0 (at (vector_of n.envelope) j)) [
      | no z ↦ omega arith
      | yes z ↦ has-le-latest_seq g r (at (vector_of n.envelope) j) (
          v.causal s q n j (at (vector_of n.envelope) j) r e f
            (Required-other n.sender_slot q (vector_of n.envelope) j p z))
    ]

-- What `r` adds to the view.
abbrev contribution : Graph → ReplicaId → Vector
contribution g r = if latest_seq g r == 0 then [] else vector_at (lookup g r (latest_seq g r))

at-join_latest :
    (g : Graph) (r : ReplicaId) (out : Vector) (j : ℕ)
    → at (join_latest g r out) j ≡ max (at out j) (at (contribution g r) j)
unfolding join_latest
at-join_latest g r out j =
    ground (arith, at-max_vector out (vector_at (lookup g r (latest_seq g r))) j)

length-join_latest :
    (g : Graph) (r : ReplicaId) (out : Vector)
    → length (contribution g r) ≤ length out
    → length (join_latest g r out) ≡ length out
unfolding join_latest
length-join_latest g r out h =
    ground (arith, length-max_vector out (vector_at (lookup g r (latest_seq g r))))

view_from-bound :
    (g : Graph) (j b : ℕ) (rs : List ReplicaId) (out : Vector)
    → at out j ≤ b
    → ((r : ReplicaId) → at (contribution g r) j ≤ b)
    → at (view_from g rs out) j ≤ b
unfolding view_from
view_from-bound g j b [] out h k = h
view_from-bound g j b (r ∷ rs) out h k =
    view_from-bound g j b rs (join_latest g r out) (omega (arith, at-join_latest g r out j, k r)) k

view_from-grows :
    (g : Graph) (j : ℕ) (rs : List ReplicaId) (out : Vector) → at out j ≤ at (view_from g rs out) j
unfolding view_from
view_from-grows g j [] out = omega arith
view_from-grows g j (r ∷ rs) out =
    omega (arith, at-join_latest g r out j, view_from-grows g j rs (join_latest g r out))

view_from-joins :
    (g : Graph) (j i : ℕ) (rs : List ReplicaId) (out : Vector) (r : ReplicaId)
    → get_elem? rs i ≡ some r
    → at (contribution g r) j ≤ at (view_from g rs out) j
unfolding view_from
view_from-joins g j i [] out r e = cc
view_from-joins g j zero (s ∷ rs) out r e =
    let same : s ≡ r = cc in
    rw (← same)
      (omega (arith, at-join_latest g s out j, view_from-grows g j rs (join_latest g s out)))
view_from-joins g j (suc i) (s ∷ rs) out r e = view_from-joins g j i rs (join_latest g s out) r e

length-view_from :
    (g : Graph) (rs : List ReplicaId) (out : Vector)
    → ((r : ReplicaId) → length (contribution g r) ≤ length out)
    → length (view_from g rs out) ≡ length out
unfolding view_from
length-view_from g [] out h = refl
length-view_from g (r ∷ rs) out h =
    let e = length-join_latest g r out (h r) in
    length-view_from g rs (join_latest g r out) (λ s. omega (arith, e, h s)) ∙ e

vector_at-fixed :
    (o : Option Node) (n : Node) → stable o ≡ some n → vector_at o ≡ vector_of n.envelope
vector_at-fixed none n e = cc
vector_at-fixed (some n') n e = ground arith

-- A contribution is empty, or the vector of a stored node with the sender's greatest number.
contribution_cases :
    (g : Graph) (r : ReplicaId)
    → ((latest_seq g r ≡ 0) × (contribution g r ≡ []))
      ⊎ ((n : Node) × (fixed g r (latest_seq g r) ≡ some n)
          × (contribution g r ≡ vector_of n.envelope))
contribution_cases g r = elim (ℕ_discrete (latest_seq g r) 0) [
  | yes e ↦ inl (e, ground arith)
  | no e ↦
      let (n, f) = has-fixed g r (latest_seq g r) (has-latest_seq g r (omega arith)) in
      inr (n, f, ground (arith, vector_at-fixed (lookup g r (latest_seq g r)) n f))
]

at-zeros : (n j : ℕ) → at (replicate n 0) j ≡ 0
at-zeros zero j = refl
at-zeros (suc n) zero = refl
at-zeros (suc n) (suc j) = at-zeros n j

-- In a closed graph the current view has a slot for each member, and counts there the messages of
-- that member: its entry is `LatestSeq`.
pub current_view-counts :
    (m : Membership) (g : Graph)
    → IsWellFormed m
    → IsClosed m g
    → (length (current_view g m) ≡ len m)
      × ((j : ℕ) (r : ReplicaId) → replica m j ≡ some r → at (current_view g m) j ≡ latest_seq g r)
unfolding current_view
current_view-counts m g w v = (size, counts)
  where
    zeros : Vector
    zeros = replicate (len m) 0

    short : (r : ReplicaId) → length (contribution g r) ≤ length zeros
    short r = elim (contribution_cases g r) [
      | inl (_, e) ↦ rw e (omega arith)
      | inr (n, f, e) ↦
          rw e (omega (arith, (v.keyed r _ n f).era, length-replicate {A = ℕ} (len m) 0))
    ]

    size : length (view_from g m.replicas zeros) ≡ len m
    size = length-view_from g m.replicas zeros short ∙ length-replicate {A = ℕ} (len m) 0

    below :
        (j : ℕ) (r s : ReplicaId) → replica m j ≡ some r → at (contribution g s) j ≤ latest_seq g r
    below j r s f = elim (contribution_cases g s) [
      | inl (_, e) ↦ rw e (omega arith)
      | inr (n, h, e) ↦ rw e (at-le-latest_seq m g s _ n j r w v h f)
    ]

    above :
        (j : ℕ) (r : ReplicaId) → replica m j ≡ some r → latest_seq g r ≤ at (contribution g r) j
    above j r f = elim (contribution_cases g r) [
      | inl (e, _) ↦ omega (arith, e)
      | inr (n, h, e) ↦
          let key = v.keyed r _ n h in
          let slot : n.sender_slot ≡ j = cc (key.slotted, w.indexed r j f) in
          rw (e, ← slot) (omega (arith, key.numbered))
    ]

    counts :
        (j : ℕ) (r : ReplicaId)
        → replica m j ≡ some r
        → at (view_from g m.replicas zeros) j ≡ latest_seq g r
    counts j r f = omega (
      arith,
      view_from-bound g j (latest_seq g r) m.replicas zeros (omega (arith, at-zeros (len m) j))
          (λ s. below j r s f),
      view_from-joins g j j m.replicas zeros r f,
      above j r f,
    )
