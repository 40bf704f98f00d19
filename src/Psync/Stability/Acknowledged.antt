-- ===== src/Psync/Stability/Acknowledged.antt =====
-- What psync/stability.go calls stable: acknowledged by every other active participant.
use comlink.Common.{
  ℕ, zero, suc, ◌+◌, ◌≤◌, ◌<◌, ◌≡◌, refl, ap, ◌∙◌, subst, ◌≢◌, ◌↔◌, Bool, true, false, Option, none,
  some, List, [], ◌∷◌, arith, ℕ_discrete, length, get_elem?, get_elem?_total,
}
use comlink.Messages.{ReplicaId}
use comlink.Psync.Vector.{Vector, at}
use comlink.Psync.Membership.{Membership, is_frozen, replica}
use comlink.Psync.Membership.Slots.{IsWellFormed}
use comlink.Psync.Graph.{Node, Graph}
use comlink.Psync.Stability.{
  latest_vector, acknowledges, acknowledges_at, go_on, if_active, stable_from, is_stable,
}

at-some : (v : Vector) (i k : ℕ) → get_elem? v i ≡ some k → at v i ≡ k
at-some [] i k e = cc
at-some (x ∷ v) zero k e = cc
at-some (x ∷ v) (suc i) k e = at-some v i k e

at-none : (v : Vector) (i : ℕ) → get_elem? v i ≡ none → at v i ≡ 0
at-none [] i e = refl
at-none (x ∷ v) zero e = cc
at-none (x ∷ v) (suc i) e = at-none v i e

acknowledges_at-le :
    (n : Node) (v : Vector) (o : Option ℕ)
    → get_elem? v n.sender_slot ≡ o
    → acknowledges_at n o ≡ some true
    → n.sender_seq ≤ at v n.sender_slot
unfolding acknowledges_at
acknowledges_at-le n v none f e = cc
acknowledges_at-le n v (some k) f e = rw (at-some v n.sender_slot k f) (ground arith)

le-acknowledges_at :
    (n : Node) (v : Vector) (o : Option ℕ)
    → get_elem? v n.sender_slot ≡ o
    → 0 < n.sender_seq
    → n.sender_seq ≤ at v n.sender_slot
    → acknowledges_at n o ≡ some true
unfolding acknowledges_at
le-acknowledges_at n v none f p h = absurd (omega (arith, at-none v n.sender_slot f, p, h))
le-acknowledges_at n v (some k) f p h =
    let same = at-some v n.sender_slot k f in ground (arith, h, same)

acknowledges-le :
    (n : Node) (v : Vector) → acknowledges n v ≡ some true → n.sender_seq ≤ at v n.sender_slot
unfolding acknowledges
acknowledges-le n [] e = cc
acknowledges-le n (x ∷ v) e = acknowledges_at-le n (x ∷ v) _ refl e

le-acknowledges :
    (n : Node) (v : Vector)
    → 0 < n.sender_seq
    → n.sender_seq ≤ at v n.sender_slot
    → acknowledges n v ≡ some true
unfolding acknowledges
le-acknowledges n [] p h = absurd (omega (arith, p, h))
le-acknowledges n (x ∷ v) p h = le-acknowledges_at n (x ∷ v) _ refl p h

-- Every active replica from slot `i` on, but the sender, has a latest vector that covers the node.
abbrev IsCovered : Membership → Graph → Node → ℕ → List ReplicaId → Type 0
IsCovered m g n i rs =
    (j slot : ℕ) (r : ReplicaId)
    → get_elem? rs j ≡ some r
    → slot ≡ i + j
    → slot ≢ n.sender_slot
    → is_frozen m slot ≡ some false
    → n.sender_seq ≤ at (latest_vector g r) n.sender_slot

if_active-true :
    (flag test rest : Option Bool)
    → if_active flag test rest ≡ some true
    → (rest ≡ some true) × (flag ≡ some false → test ≡ some true)
unfolding if_active go_on
if_active-true none test rest e = cc
if_active-true (some true) test rest e = (e, λ f. cc)
if_active-true (some false) none rest e = cc
if_active-true (some false) (some false) rest e = cc
if_active-true (some false) (some true) rest e = (e, λ f. refl)

true-if_active :
    (b : Bool) (test rest : Option Bool)
    → rest ≡ some true
    → (b ≡ false → test ≡ some true)
    → if_active (some b) test rest ≡ some true
unfolding if_active go_on
true-if_active true test rest e h = e
true-if_active false test rest e h = rw (h refl) e

stable_from_one :
    (m : Membership) (g : Graph) (n : Node) (i : ℕ) (r : ReplicaId) (rs : List ReplicaId)
    → stable_from m g n i (r ∷ rs) ≡ some true
    → (stable_from m g n (i + 1) rs ≡ some true)
      × (i ≢ n.sender_slot
          → is_frozen m i ≡ some false
          → n.sender_seq ≤ at (latest_vector g r) n.sender_slot)
unfolding stable_from
stable_from_one m g n i r rs e = elim (ℕ_discrete i n.sender_slot) [
  | yes p ↦ (ground arith, λ x. absurd (x p))
  | no p ↦
      let (rest, test) = if_active-true (is_frozen m i) _ _ (ground (arith, p)) in
      (rest, λ x f. acknowledges-le n (latest_vector g r) (test f))
]

stable_from-IsCovered :
    (m : Membership) (g : Graph) (n : Node) (i : ℕ) (rs : List ReplicaId)
    → stable_from m g n i rs ≡ some true
    → IsCovered m g n i rs
stable_from-IsCovered m g n i [] e j slot r f p other active = cc
stable_from-IsCovered m g n i (s ∷ rs) e zero slot r f p other active =
    let same : s ≡ r = cc in
    let here : slot ≡ i = omega (arith, p) in
    rw (← same) (
      (stable_from_one m g n i s rs e).1 (λ z. other (here ∙ z))
        (subst (λ z. is_frozen m z ≡ some false) here active))
stable_from-IsCovered m g n i (s ∷ rs) e (suc j) slot r f p other active =
    stable_from-IsCovered m g n (i + 1) rs (stable_from_one m g n i s rs e).0 j slot r f
      (omega (arith, p)) other active

covered-stable_from :
    (m : Membership) (g : Graph) (n : Node) (i : ℕ) (rs : List ReplicaId)
    → 0 < n.sender_seq
    → i + length rs ≤ length m.frozen
    → IsCovered m g n i rs
    → stable_from m g n i rs ≡ some true
unfolding stable_from
covered-stable_from m g n i [] p h c = refl
covered-stable_from m g n i (r ∷ rs) p h c =
    let rest =
      covered-stable_from m g n (i + 1) rs p (omega (arith, h))
        (λ j slot r f q. c (suc j) slot r f (omega (arith, q))) in
    let (b, e) = get_elem?_total m.frozen i (omega (arith, h)) in
    elim (ℕ_discrete i n.sender_slot) [
      | yes q ↦ ground (arith, q, rest)
      | no q ↦
          let one : if_active (is_frozen m i) (acknowledges n (latest_vector g r))
                (stable_from m g n (i + 1) rs)
              ≡ some true =
            rw e (
              true-if_active b (acknowledges n (latest_vector g r)) _ rest (λ z.
                le-acknowledges n (latest_vector g r) p
                  (c 0 i r refl (omega arith) q (e ∙ ap some z)))) in
          ground (arith, q, one)
    ]

-- In a well-formed view a stored message is stable exactly when every other active participant has a
-- latest message whose vector covers it: the test neither panics nor misses anyone.
pub is_stable_iff :
    (m : Membership) (g : Graph) (n : Node)
    → IsWellFormed m
    → 0 < n.sender_seq
    → (is_stable m g (some n) ≡ some true) ↔ (
        (slot : ℕ) (r : ReplicaId)
        → replica m slot ≡ some r
        → slot ≢ n.sender_slot
        → is_frozen m slot ≡ some false
        → n.sender_seq ≤ at (latest_vector g r) n.sender_slot)
unfolding is_stable
is_stable_iff m g n w p = (
  λ e slot r f. stable_from-IsCovered m g n 0 m.replicas e slot slot r f (omega arith),
  λ c. covered-stable_from m g n 0 m.replicas p (omega (arith, w.flags)) (λ j slot r f q.
      c slot r (subst (λ z. get_elem? m.replicas z ≡ some r) (omega (arith, q)) f)),
)
