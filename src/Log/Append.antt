-- ===== src/Log/Append.antt =====
-- Appends to log/memory.go are found again, and disturb no other entry.
use comlink.Common.{
  ℕ, ◌+◌, ◌-◌, ◌^◌, ◌≤◌, ◌<◌, ◌≡◌, sym, ◌∙◌, subst, ◌≢◌, ◌⊎◌, inl, inr, false, none, some, [], ◌∷◌,
  ◌++◌, arith, Option-cases, length, get_elem?, length-append, get_elem?_total,
  get_elem?-append_left, get_elem?-snoc, get_elem?-snoc_cases,
}
use comlink.Common.Assoc.{get-put_self, get-put_ne, Bytes, nat_key, bytes_key, get, put, get-put}
use comlink.Common.Result.{ok, err}
use comlink.Messages.{Envelope, id_of}
use comlink.Common.Assoc.{IndexKey, IndexKey-discrete, index_key, IsMap, put-IsMap}
use comlink.Log.{Entry, Log, not_found, new_log, next_offset, append_from, append, lookup_by_sender}

-- Offsets do not overflow, entries lie at consecutive offsets from `firstOffset`, and the index
-- points at entries.
pub record IsSound (l : Log) : Type 0 where
  pub bounded : l.first_offset + length l.entries < 2 ^ 64
  pub unique : IsMap l.index
  pub numbered :
      (i : ℕ) (e : Entry) → get_elem? l.entries i ≡ some e → e.offset ≡ l.first_offset + i
  pub indexed :
      (k : IndexKey) (off : ℕ)
      → get k l.index ≡ some off
      → (l.first_offset ≤ off) × (off < l.first_offset + length l.entries)

pub new_log-IsSound : (conv : Bytes) → IsSound (new_log conv)
unfolding new_log get
new_log-IsSound conv = record {
  bounded = omega arith;
  unique = tt;
  numbered = λ i e h. cc;
  indexed = λ k off h. cc;
}

-- The log with the entry that `Append` adds.
abbrev appended : Log → Envelope → Bytes → ℕ → Log
appended l env s seq = record l {
  entries = l.entries ++ record { offset = next_offset l; envelope = env } ∷ [];
  index = put (s, seq) (next_offset l) l.index;
}

appended-IsSound :
    (l : Log) (env : Envelope) (s : Bytes) (seq : ℕ)
    → IsSound l
    → l.first_offset + length l.entries + 1 < 2 ^ 64
    → IsSound (appended l env s seq)
appended-IsSound l env s seq v room = record {
  bounded = omega (arith, grows);
  unique = put-IsMap (s, seq) (next_offset l) l.index v.unique;
  numbered = λ i e h. elim (get_elem?-snoc_cases l.entries entry i h) [
    | inl p ↦ v.numbered i e p
    | inr p ↦ rw (p.1, p.0) at_end
  ];
  indexed = λ k off h. elim (IndexKey-discrete (s, seq) k) [
    | yes p ↦
        let q : off ≡ next_offset l = ground (arith, get-put (s, seq) k (next_offset l) l.index) in
        omega (arith, q, grows, at_end)
    | no p ↦
        let q : get k l.index ≡ some off =
          ground (arith, get-put (s, seq) k (next_offset l) l.index) in
        let (lo, hi) = v.indexed k off q in (lo, omega (arith, hi, grows))
  ];
}
  where
    entry : Entry
    entry = record { offset = next_offset l; envelope = env }

    grows : length (l.entries ++ entry ∷ []) ≡ length l.entries + 1
    grows = length-append l.entries (entry ∷ [])

    at_end : next_offset l ≡ l.first_offset + length l.entries
    at_end = omega arith

-- What `LookupBySender` answers, for a key that the index has or lacks.
pub lookup_found :
    (l : Log) (s : Bytes) (q off : ℕ) (e : Entry)
    → IsSound l
    → l.closed ≡ false
    → get (s, q) l.index ≡ some off
    → get_elem? l.entries (off - l.first_offset) ≡ some e
    → lookup_by_sender l s q ≡ ok e
unfolding lookup_by_sender
lookup_found l s q off e v open_log h f = ground (arith, (v.indexed (s, q) off h).0)

pub lookup_none :
    (l : Log) (s : Bytes) (q : ℕ)
    → l.closed ≡ false
    → get (s, q) l.index ≡ none
    → lookup_by_sender l s q ≡ err not_found
unfolding lookup_by_sender
lookup_none l s q open_log h = ground arith

-- In a sound open log a lookup finds nothing, or the entry at the offset that the index names.
pub lookup_cases :
    (l : Log) (k : IndexKey)
    → IsSound l
    → l.closed ≡ false
    → ((get k l.index ≡ none) × (lookup_by_sender l k.0 k.1 ≡ err not_found))
      ⊎ ((off : ℕ) × (e : Entry) × (get k l.index ≡ some off)
          × (get_elem? l.entries (off - l.first_offset) ≡ some e)
          × (e.offset ≡ off)
          × (lookup_by_sender l k.0 k.1 ≡ ok e))
lookup_cases l k v open_log = elim (Option-cases (get k l.index)) [
  | inl e ↦ inl (e, lookup_none l k.0 k.1 open_log e)
  | inr (off, e) ↦
      let (lo, hi) = v.indexed k off e in
      let (x, f) = get_elem?_total l.entries (off - l.first_offset) (omega arith) in
      inr (
        off,
        x,
        e,
        f,
        omega (arith, v.numbered (off - l.first_offset) x f, lo),
        lookup_found l k.0 k.1 off x v open_log e f,
      )
]

lookup_kept :
    (l : Log) (env : Envelope) (s : Bytes) (seq : ℕ)
    → IsSound l
    → l.first_offset + length l.entries + 1 < 2 ^ 64
    → l.closed ≡ false
    → (k : IndexKey) → k ≢ (s, seq)
    → lookup_by_sender (appended l env s seq) k.0 k.1 ≡ lookup_by_sender l k.0 k.1
lookup_kept l env s seq v room open_log k other = elim (lookup_cases l k v open_log) [
  | inl (e, f) ↦ lookup_none l' k.0 k.1 open_log (same ∙ e) ∙ sym f
  | inr (off, x, e, f, _, found) ↦
      let (lo, hi) = v.indexed k off e in
      lookup_found l' k.0 k.1 off x (appended-IsSound l env s seq v room) open_log (same ∙ e)
        (get_elem?-append_left l.entries _ (off - l.first_offset) (omega arith) ∙ f)
      ∙ sym found
]
  where
    l' : Log
    l' = appended l env s seq

    same : get k l'.index ≡ get k l.index
    same = get-put_ne (s, seq) k (next_offset l) l.index (λ e. other (sym e))

-- `Append` to an open log answers the next offset and stores the envelope there: the sender's number
-- finds it again, all other lookups answer as before, and the log stays sound.
pub append_lem :
    (l : Log) (env : Envelope) (s : Bytes) (seq : ℕ)
    → IsSound l
    → l.first_offset + length l.entries + 1 < 2 ^ 64
    → l.closed ≡ false
    → (id_of env).sender ≡ some s
    → (l' : Log) × (append l env seq ≡ ok (l', next_offset l))
      × IsSound l'
      × (next_offset l' ≡ next_offset l + 1)
      × (lookup_by_sender l' s seq ≡ ok (record { offset = next_offset l; envelope = env }))
      × ((k : IndexKey) → k ≢ (s, seq) → lookup_by_sender l' k.0 k.1 ≡ lookup_by_sender l k.0 k.1)
unfolding append append_from
append_lem l env s seq v room open_log sent = (
  appended l env s seq,
  ground arith,
  appended-IsSound l env s seq v room,
  omega (arith, length-append l.entries (entry ∷ [])),
  lookup_found (appended l env s seq) s seq (next_offset l) entry
      (appended-IsSound l env s seq v room) open_log (get-put_self (s, seq) (next_offset l) l.index)
      (subst (λ n. get_elem? (l.entries ++ entry ∷ []) n ≡ some entry) (omega arith)
        (get_elem?-snoc l.entries entry)),
  lookup_kept l env s seq v room open_log,
)
  where
    entry : Entry
    entry = record { offset = next_offset l; envelope = env }
