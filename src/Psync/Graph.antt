-- ===== src/Psync/Graph.antt =====
-- psync/graph.go: the context graph of one conversation. A `*Node` is the key (sender, seq) under
-- which `bySender` keeps the node: nodes are never removed or replaced, so the key names one node.
-- The membership view, which the graph shares with the conversation, is an argument.
pub mod Lookup
pub mod Insert
pub mod Invariant
pub mod Latest
use comlink.Common.{
  ℕ, ◌+◌, ◌-◌, Bool, true, false, Option, none, some, List, [], ◌∷◌, ◌++◌, ltb, leb, ◌==◌,
  if◌then◌else◌, length,
}
use comlink.Common.Assoc.{Bytes, nat_key, bytes_key, Assoc, get, put}
use comlink.Common.Result.{Result, ok, err}
use comlink.Messages.{ReplicaId, Envelope, id_of, vector_of}
use comlink.Psync.Membership.{Membership, len, slot_of}
use comlink.Psync.Vector.{Vector, at}

abbrev pub NodeRef : Type 0
NodeRef = Bytes × ℕ

pub record Node : Type 0 where
  pub envelope : Envelope
  pub sender_seq : ℕ
  pub sender_slot : ℕ
  pub wave : ℕ
  pub parents : List NodeRef
  pub children : List NodeRef

pub record MissingParent : Type 0 where
  pub sender : ReplicaId
  pub seq : ℕ

pub record Graph : Type 0 where
  pub by_sender : Assoc Bytes (Assoc ℕ Node)
  pub by_wave : Assoc ℕ (List NodeRef)
  pub count : ℕ

pub data InsertError : Type 0 where
  missing_parents : List MissingParent → InsertError
  already_present : NodeRef → InsertError
  unknown_sender malformed_vector : InsertError

unfoldable pub new_graph : Graph
new_graph = record { by_sender = []; by_wave = []; count = 0 }

abbrev pub size : Graph → ℕ
size g = g.count

pub lookup_in : Option (Assoc ℕ Node) → ℕ → Option Node
lookup_in none q = none
lookup_in (some by_seq) q = get q by_seq

pub find : Assoc Bytes (Assoc ℕ Node) → Bytes → ℕ → Option Node
unfolding lookup_in get
find m s q = lookup_in (get s m) q

unfoldable pub lookup : Graph → Bytes → ℕ → Option Node
unfolding find
lookup g s q = find g.by_sender s q

unfoldable pub has : Graph → Bytes → ℕ → Bool
unfolding lookup
has g s q = elim (lookup g s q) [ none ↦ false | some n ↦ true ]

-- `waveOf`: the largest entry, by the loop with its variable `m`.
wave_from : ℕ → Vector → ℕ
wave_from m [] = m
wave_from m (x ∷ v) = wave_from (if ltb m x then x else m) v

unfoldable pub wave_of : Vector → ℕ
unfolding wave_from
wave_of v = wave_from 0 v

-- The predecessor that slot `i` of a message asks for, if it asks for one.
abbrev pub required : ℕ → ℕ → Vector → ℕ → Option ℕ
required sender_slot sender_seq vc i =
    if i == sender_slot
    then if leb sender_seq 1 then none else some (sender_seq - 1)
    else if at vc i == 0
    then none
    else some (at vc i)

-- One round of the parent loop: what slot `i`, held by `r`, adds to `parents` and to `missing`.
abbrev add_parent :
    Graph
    → ReplicaId
    → Option ℕ
    → List NodeRef × List MissingParent
    → List NodeRef × List MissingParent
add_parent g r none rest = rest
add_parent g r (some q) (parents, missing) =
    if has g r q
    then ((r, q) ∷ parents, missing)
    else (parents, record { sender = r; seq = q } ∷ missing)

-- The loop over the slots from `i` on, whose replicas are given.
collect_parents : Graph → ℕ → ℕ → Vector → List ReplicaId → ℕ → List NodeRef × List MissingParent
collect_parents g slot seq vc [] i = ([], [])
collect_parents g slot seq vc (r ∷ rs) i =
    add_parent g r (required slot seq vc i) (collect_parents g slot seq vc rs (i + 1))

-- `bySender[s][q] = n`, with an inner map made where there is none.
pub set_node : Assoc Bytes (Assoc ℕ Node) → Bytes → ℕ → Node → Assoc Bytes (Assoc ℕ Node)
unfolding put get
set_node m s q n = elim (get s m) [
  | none ↦ put s (put q n []) m
  | some by_seq ↦ put s (put q n by_seq) m
]

-- `p.Children = append(p.Children, n)`.
pub add_child : Assoc Bytes (Assoc ℕ Node) → NodeRef → NodeRef → Assoc Bytes (Assoc ℕ Node)
unfolding set_node find
add_child m (s, q) n = elim (find m s q) [
  | none ↦ m
  | some p ↦ set_node m s q (record p { children = p.children ++ n ∷ [] })
]

pub add_children : Assoc Bytes (Assoc ℕ Node) → List NodeRef → NodeRef → Assoc Bytes (Assoc ℕ Node)
add_children m [] n = m
add_children m (p ∷ ps) n = add_children (add_child m p n) ps n

unfoldable pub messages_at : Option (List NodeRef) → List NodeRef
messages_at none = []
messages_at (some ns) = ns

unfoldable pub messages_in_wave : Graph → ℕ → List NodeRef
unfolding messages_at get
messages_in_wave g w = messages_at (get w g.by_wave)

-- The graph with the node stored, its parents told, and its wave extended.
pub link : Graph → Bytes → ℕ → ℕ → Envelope → List NodeRef → Graph
unfolding set_node add_child add_children messages_in_wave wave_of put
link g s seq slot env parents =
    let wave = wave_of (vector_of env) in
    record {
      by_sender = set_node (add_children g.by_sender parents (s, seq)) s seq (record {
        envelope = env;
        sender_seq = seq;
        sender_slot = slot;
        wave = wave;
        parents = parents;
        children = [];
      });
      by_wave = put wave (messages_in_wave g wave ++ (s, seq) ∷ []) g.by_wave;
      count = g.count + 1;
    }

-- The last part of `Insert`: derive the parents, and store the node if none is missing.
insert_with :
    Graph
    → Bytes
    → ℕ
    → ℕ
    → Envelope
    → List NodeRef × List MissingParent
    → Result InsertError (Graph × NodeRef)
unfolding link
insert_with g s seq slot env (parents, []) = ok (link g s seq slot env parents, (s, seq))
insert_with g s seq slot env (parents, m ∷ ms) = err (missing_parents (m ∷ ms))

-- `Insert` from where the sender's slot and sequence number are known.
insert_at : Membership → Graph → Bytes → ℕ → ℕ → Envelope → Result InsertError (Graph × NodeRef)
unfolding has collect_parents insert_with
insert_at m g s seq slot env =
    if seq == 0
    then err malformed_vector
    else if has g s seq
    then err (already_present (s, seq))
    else if ltb (len m) (length (vector_of env))
    then if leb seq 1
      then err malformed_vector
      else err (missing_parents (record { sender = s; seq = seq - 1 } ∷ []))
    else insert_with g s seq slot env (collect_parents g slot seq (vector_of env) m.replicas 0)

insert_from :
    Membership → Graph → Envelope → Option ReplicaId → Result InsertError (Graph × NodeRef)
unfolding slot_of insert_at
insert_from m g env none = err malformed_vector
insert_from m g env (some s) = elim (slot_of m s) [
  | none ↦ err unknown_sender
  | some slot ↦
      if ltb slot (length (vector_of env))
      then insert_at m g s (at (vector_of env) slot) slot env
      else err malformed_vector
]

-- An error leaves the graph as it was.
unfoldable pub insert : Membership → Graph → Envelope → Result InsertError (Graph × NodeRef)
unfolding insert_from
insert m g env = insert_from m g env (id_of env).sender

-- `LatestSeq`: the greatest key of the sender's map, by the loop with its variable `max`.
greatest_from : ℕ → Assoc ℕ Node → ℕ
greatest_from top [] = top
greatest_from top ((q, n) ∷ rest) = greatest_from (if ltb top q then q else top) rest

latest_in : Option (Assoc ℕ Node) → ℕ
unfolding greatest_from
latest_in none = 0
latest_in (some by_seq) = greatest_from 0 by_seq

unfoldable pub latest_seq : Graph → Bytes → ℕ
unfolding latest_in get
latest_seq g s = latest_in (get s g.by_sender)

-- `Leaves`: the nodes with no children. Go ranges over the maps in no fixed order.
leaves_of : Bytes → Assoc ℕ Node → List NodeRef
leaves_of s [] = []
leaves_of s ((q, n) ∷ rest) =
    let more = leaves_of s rest in elim n.children [ [] ↦ (s, q) ∷ more | c ∷ cs ↦ more ]

leaves_from : Assoc Bytes (Assoc ℕ Node) → List NodeRef
unfolding leaves_of
leaves_from [] = []
leaves_from ((s, by_seq) ∷ rest) = leaves_of s by_seq ++ leaves_from rest

unfoldable pub leaves : Graph → List NodeRef
unfolding leaves_from
leaves g = leaves_from g.by_sender
