-- ===== src/Psync/Graph/Lookup.antt =====
-- What psync/graph.go finds after `Insert` has linked a node: its stable fields, those other than
-- `Children`.
use comlink.Common.{
  ℕ, ◌≡◌, refl, ◌∙◌, ◌⊎◌, inl, inr, ite, if_pos, if_neg, true, Option, none, some, List, [], ◌∷◌,
  ◌++◌, arith, ℕ_discrete, Option-cases,
}
use comlink.Common.Assoc.{Bytes, Bytes-discrete, nat_key, bytes_key, Assoc, get, put, get-put}
use comlink.Messages.{Envelope, vector_of}
use comlink.Psync.Graph.{
  NodeRef, Node, Graph, lookup_in, find, lookup, has, set_node, add_child, add_children, link,
  wave_of,
}

-- The fields of a node that do not change after `Insert` returns.
abbrev pub stable : Option Node → Option Node
stable none = none
stable (some n) = some (record n { children = [] })

abbrev pub fixed : Graph → Bytes → ℕ → Option Node
fixed g s q = stable (lookup g s q)

pub find-set_node :
    (m : Assoc Bytes (Assoc ℕ Node)) (s s' : Bytes) (q q' : ℕ) (n : Node)
    → find (set_node m s q n) s' q'
      ≡ ite (Bytes-discrete s s') (ite (ℕ_discrete q q') (some n) (find m s' q')) (find m s' q')
unfolding find lookup_in set_node
find-set_node m s s' q q' n = elim (Option-cases (get s m)) [
  | inl e ↦ ground (arith, get-put s s' (put q n []) m, get-put q q' n [])
  | inr (by_seq, e) ↦ ground (arith, get-put s s' (put q n by_seq) m, get-put q q' n by_seq)
]

pub find-add_child :
    (m : Assoc Bytes (Assoc ℕ Node)) (p n : NodeRef) (s : Bytes) (q : ℕ)
    → stable (find (add_child m p n) s q) ≡ stable (find m s q)
unfolding add_child
find-add_child m (s', q') n s q = elim (Option-cases (find m s' q')) [
  | inl e ↦ ground arith
  | inr (p, e) ↦
      ground (arith, find-set_node m s' s q' q (record p { children = p.children ++ n ∷ [] }))
]

pub find-add_children :
    (m : Assoc Bytes (Assoc ℕ Node)) (ps : List NodeRef) (n : NodeRef) (s : Bytes) (q : ℕ)
    → stable (find (add_children m ps n) s q) ≡ stable (find m s q)
unfolding add_children
find-add_children m [] n s q = refl
find-add_children m (p ∷ ps) n s q =
    find-add_children (add_child m p n) ps n s q ∙ find-add_child m p n s q

-- The stable part of the node that `Insert` stores.
abbrev pub new_node : ℕ → ℕ → Envelope → List NodeRef → Node
new_node seq slot env ps = record {
  envelope = env;
  sender_seq = seq;
  sender_slot = slot;
  wave = wave_of (vector_of env);
  parents = ps;
  children = [];
}

-- After `link` the new key finds the new node, and every other key what it found before.
pub fixed-link :
    (g : Graph) (s : Bytes) (seq slot : ℕ) (env : Envelope) (ps : List NodeRef) (s' : Bytes) (q : ℕ)
    → fixed (link g s seq slot env ps) s' q
      ≡ ite
          (Bytes-discrete s s')
          (ite (ℕ_discrete seq q) (some (new_node seq slot env ps)) (fixed g s' q))
          (fixed g s' q)
unfolding lookup link
fixed-link g s seq slot env ps s' q = ground (
  arith,
  find-set_node (add_children g.by_sender ps (s, seq)) s s' seq q (new_node seq slot env ps),
  find-add_children g.by_sender ps (s, seq) s' q,
)

pub has-fixed :
    (g : Graph) (s : Bytes) (q : ℕ) → has g s q ≡ true → (n : Node) × (fixed g s q ≡ some n)
unfolding has
has-fixed g s q h = elim (Option-cases (lookup g s q)) [
  | inl e ↦ ground arith
  | inr (n, e) ↦ (record n { children = [] }, rw e refl)
]

pub fixed-has : (g : Graph) (s : Bytes) (q : ℕ) (n : Node) → fixed g s q ≡ some n → has g s q ≡ true
unfolding has
fixed-has g s q n h = elim (Option-cases (lookup g s q)) [
  | inl e ↦ ground arith
  | inr (n', e) ↦ ground arith
]

pub has-link :
    (g : Graph) (s : Bytes) (seq slot : ℕ) (env : Envelope) (ps : List NodeRef) (s' : Bytes) (q : ℕ)
    → has g s' q ≡ true
    → has (link g s seq slot env ps) s' q ≡ true
has-link g s seq slot env ps s' q h =
    let (n, e) = has-fixed g s' q h in
    elim (Bytes-discrete s s') [
      | no p ↦ fixed-has _ s' q n (fixed-link g s seq slot env ps s' q ∙ rw (if_neg _ p) e)
      | yes p ↦ elim (ℕ_discrete seq q) [
        | no r ↦
            fixed-has _ s' q n
              (fixed-link g s seq slot env ps s' q ∙ rw (if_pos _ p) (rw (if_neg _ r) e))
        | yes r ↦
            fixed-has _ s' q (new_node seq slot env ps)
              (fixed-link g s seq slot env ps s' q ∙ rw (if_pos _ p) (rw (if_pos _ r) refl))
      ]
    ]

pub has-link_self :
    (g : Graph) (s : Bytes) (seq slot : ℕ) (env : Envelope) (ps : List NodeRef)
    → has (link g s seq slot env ps) s seq ≡ true
has-link_self g s seq slot env ps =
    fixed-has _ s seq (new_node seq slot env ps)
      (fixed-link g s seq slot env ps s seq ∙ rw (if_pos _ refl) (rw (if_pos _ refl) refl))

-- What the linked graph has is the new node, or what the graph had.
pub fixed-link_cases :
    (g : Graph) (s : Bytes) (seq slot : ℕ) (env : Envelope) (ps : List NodeRef) (s' : Bytes) (q : ℕ)
    (n : Node)
    → fixed (link g s seq slot env ps) s' q ≡ some n
    → ((s ≡ s') × (seq ≡ q) × (n ≡ new_node seq slot env ps)) ⊎ (fixed g s' q ≡ some n)
fixed-link_cases g s seq slot env ps s' q n e = elim (Bytes-discrete s s') [
  | no p ↦ inr (ground (arith, fixed-link g s seq slot env ps s' q))
  | yes p ↦ elim (ℕ_discrete seq q) [
    | no r ↦ inr (ground (arith, fixed-link g s seq slot env ps s' q))
    | yes r ↦ inl (p, r, ground (arith, fixed-link g s seq slot env ps s' q))
  ]
]
