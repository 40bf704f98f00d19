-- ===== src/Psync/Mask/Synced.antt =====
-- The mask of psync/mask.go and its copy in storage agree.
use comlink.Common.{
  ℕ, zero, suc, ◌≡◌, refl, sym, ap, ◌∙◌, subst, ◌≢◌, ◌↔◌, ◌⊎◌, inl, inr, Bool, true, false, Option,
  none, some, List, [], ◌∷◌, arith, get_elem?, Option-cases,
}
use comlink.Common.Assoc.{
  Assoc, Bytes, Bytes-discrete, bytes_key, get, put, delete, get-put, get-put_self, get-put_ne,
  get-delete,
}
use comlink.Common.Result.{Result, ok, err}
use comlink.Messages.{ReplicaId}
use comlink.Stable.{
  Storage, StorageError, not_found, invalid_key, storage_closed, failed, IsDurable,
}
use comlink.Psync.Mask.{
  MaskLibrary, IsIn, IsMaskLibrary, MaskError, unmarshal_failed, Mask, masked_from, keys, is_masked,
  decoded, loaded, key_or_default, load_mask, stored, encoded, persist, settle, maskout, maskin,
}

-- `r` is in the map.
abbrev IsHeld : Bytes → Assoc Bytes (Unit {0}) → Type 0
IsHeld r m = get r m ≡ some tt

masked_from_iff :
    (rs : List Bytes) (m : Assoc Bytes (Unit {0})) (r : Bytes)
    → IsHeld r (masked_from rs m) ↔ (IsIn r rs ⊎ IsHeld r m)
unfolding masked_from
masked_from_iff [] m r = (λ e. inr e, λ c. elim c [ inr e ↦ e | inl (i, e) ↦ cc ])
masked_from_iff (s ∷ rs) m r = (
  λ e. elim ((masked_from_iff rs (put s tt m) r).0 e) [
    | inl (i, f) ↦ inl (suc i, f)
    | inr f ↦ elim (Bytes-discrete s r) [
      | yes p ↦ inl (0, ap some p)
      | no n ↦ inr (sym (get-put_ne s r tt m n) ∙ f)
    ]
  ],
  λ c. (masked_from_iff rs (put s tt m) r).1 (elim c [
    | inl (zero, f) ↦
        let same : s ≡ r = cc in
        inr (subst (λ x. get x (put s tt m) ≡ some tt) same (get-put_self s tt m))
    | inl (suc i, f) ↦ inl (i, f)
    | inr f ↦ elim (Bytes-discrete s r) [
      | yes p ↦ inr (subst (λ x. get x (put s tt m) ≡ some tt) p (get-put_self s tt m))
      | no n ↦ inr (get-put_ne s r tt m n ∙ f)
    ]
  ]),
)

keys-IsHeld :
    (m : Assoc Bytes (Unit {0})) (r : Bytes) (i : ℕ) → get_elem? (keys m) i ≡ some r → IsHeld r m
unfolding keys get
keys-IsHeld [] r i e = cc
keys-IsHeld ((k, u) ∷ m) r zero e = let same : k ≡ r = cc in ground (arith, same)
keys-IsHeld ((k, u) ∷ m) r (suc i) e = elim (Bytes-discrete k r) [
  | yes p ↦ ground (arith, p)
  | no n ↦ ground (arith, n, keys-IsHeld m r i e)
]

held-keys : (m : Assoc Bytes (Unit {0})) (r : Bytes) → IsHeld r m → IsIn r (keys m)
unfolding keys get
held-keys [] r e = cc
held-keys ((k, u) ∷ m) r e = elim (Bytes-discrete k r) [
  | yes p ↦ (0, ap some p)
  | no n ↦ let (i, f) = held-keys m r (ground (arith, n)) in (suc i, f)
]

-- Two masks that hold the same replicas mask the same ones.
is_masked-same :
    {S : Type 0} (a b : Mask S) (r : Bytes)
    → IsHeld r a.masked ↔ IsHeld r b.masked
    → is_masked a r ≡ is_masked b r
unfolding is_masked
is_masked-same a b r h = elim (Option-cases (get r a.masked)) [
  | inr (u, e) ↦ ground (arith, e, h.0 e)
  | inl e ↦ elim (Option-cases (get r b.masked)) [
    | inl f ↦ ground (arith, e, f)
    | inr (u, f) ↦ let z : none ≡ some tt = sym e ∙ h.1 f in cc
  ]
]

module _ {S : Type 0} ⦃st : Storage S⦄ (lib : MaskLibrary) (law : IsMaskLibrary lib)
    (durable : IsDurable S) where
  -- Loading the storage `s` gives a mask of the replicas that `m` masks.
  abbrev pub Loads : S → Mask S → Type 0
  Loads s m =
      (m' : Mask S) × (load_mask lib s m.key ≡ ok m')
      × ((r : ReplicaId) → is_masked m' r ≡ is_masked m r)

  -- The mask in memory and the one in its storage agree.
  unfoldable pub IsSynced : Mask S → Type 0
  IsSynced m = Loads m.storage m

  -- What `LoadMask` makes of the value that a mask is written as.
  written-Loads :
      (m : Mask S) (s : S) (d : Bytes)
      → key_or_default m.key ≡ m.key
      → lib.marshal (lib.sort (keys m.masked)) ≡ some d
      → st.fetch s m.key ≡ ok d
      → Loads s m
  unfolding load_mask loaded decoded get
  written-Loads m s d named f fetched =
      let rs = lib.sort (keys m.masked) in
      let m' : Mask S = record { storage = s; key = m.key; masked = masked_from rs [] } in
      let opened : load_mask lib s m.key ≡ ok m' =
        rw (named, fetched, law.unmarshal-marshal rs d f, load_mask) refl in
      (
        m',
        opened,
        λ r. is_masked-same m' m r (
          λ h. elim ((masked_from_iff rs [] r).0 h) [
            | inr x ↦ cc
            | inl x ↦ let (i, y) = (law.sorted (keys m.masked) r).0 x in keys-IsHeld m.masked r i y
          ],
          λ h.
              (masked_from_iff rs [] r).1
                (inl ((law.sorted (keys m.masked) r).1 (held-keys m.masked r h))),
        ),
      )

  loaded-same :
      (s s' : S) (key : Bytes) (o : Result StorageError Bytes) (m1 : Mask S)
      → loaded lib s key o ≡ ok m1
      → (m2 : Mask S) × (loaded lib s' key o ≡ ok m2) × (m2.masked ≡ m1.masked)
  unfolding loaded decoded
  loaded-same s s' key (err not_found) m1 e =
      (record { storage = s'; key = key; masked = [] }, refl, cc e)
  loaded-same s s' key (err invalid_key) m1 e = cc e
  loaded-same s s' key (err storage_closed) m1 e = cc e
  loaded-same s s' key (err failed) m1 e = cc e
  loaded-same s s' key (ok d) m1 e = elim (Option-cases (lib.unmarshal d)) [
    | inl q ↦ let z : loaded lib s key (ok d) ≡ err unmarshal_failed = rw q refl in cc (z, e)
    | inr (rs, q) ↦
        let z : loaded lib s key (ok d)
            ≡ ok (record { storage = s; key = key; masked = masked_from rs [] }) =
          rw q refl in
        let same : ok (record { storage = s; key = key; masked = masked_from rs [] }) ≡ ok m1 =
          sym z ∙ e in
        (record { storage = s'; key = key; masked = masked_from rs [] }, rw q refl, masked_of same)
  ]
    where
      masked_of :
          {a b : Mask S} → Path (Result MaskError (Mask S)) (ok a) (ok b) → a.masked ≡ b.masked
      masked_of {a} {b} h = let x : a ≡ b = cc h in ap (λ (m : Mask S). m.masked) x

  -- A storage with the same value under the key loads the same mask.
  Loads-same :
      (s s' : S) (m : Mask S)
      → key_or_default m.key ≡ m.key
      → st.fetch s' m.key ≡ st.fetch s m.key
      → Loads s m
      → Loads s' m
  unfolding load_mask is_masked
  Loads-same s s' m named same (m1, e, h) =
      let z : load_mask lib s m.key ≡ loaded lib s m.key (st.fetch s m.key) =
        rw (load_mask, named) refl in
      let (m2, p, q) = loaded-same s s' m.key (st.fetch s m.key) m1 (sym z ∙ e) in
      (
        m2,
        rw (load_mask, named, same) p,
        λ r. ap (λ x. elim (get r x) [ none ↦ false | some u ↦ true ]) q ∙ h r,
      )

  -- What `persistLocked` leaves of the mask `old` when it writes `new`.
  Persisted : Mask S → Mask S → S × Option MaskError → Type 0
  Persisted old new (s, none) = Loads s new
  Persisted old new (s, some e) = Loads s old ⊎ Loads s new

  stored-Persisted :
      (old new : Mask S) (d : Bytes)
      → old.storage ≡ new.storage
      → old.key ≡ new.key
      → key_or_default new.key ≡ new.key
      → lib.marshal (lib.sort (keys new.masked)) ≡ some d
      → IsSynced old
      → (o : Option StorageError) → (st.store new.storage new.key d).1 ≡ o
      → Persisted old new (stored lib ((st.store new.storage new.key d).0, o))
  unfolding Persisted stored IsSynced
  stored-Persisted old new d p q named f sync none e =
      written-Loads new (st.store new.storage new.key d).0 d named f
        (durable.fetch-store new.storage new.key d e)
  stored-Persisted old new d p q named f sync (some x) e =
      elim (durable.fetch-store_failed new.storage new.key d x e) [
        | inr g ↦ inr (written-Loads new (st.store new.storage new.key d).0 d named f g)
        | inl g ↦ inl (
            Loads-same old.storage (st.store new.storage new.key d).0 old (rw q named) (rw (q, p) g)
              sync)
      ]

  persist-Persisted :
      (old new : Mask S)
      → old.storage ≡ new.storage
      → old.key ≡ new.key
      → key_or_default new.key ≡ new.key
      → IsSynced old
      → Persisted old new (persist lib new)
  unfolding persist encoded Persisted IsSynced
  persist-Persisted old new p q named sync =
      elim (Option-cases (lib.marshal (lib.sort (keys new.masked)))) [
        | inl f ↦ rw (persist, f) (inl (subst (λ s. Loads s old) p sync))
        | inr (d, f) ↦ rw (persist, f) (stored-Persisted old new d p q named f sync _ refl)
      ]

  -- The mask after a change of `r` to `b`. Without an error, it is done and durable. With one, nobody
  -- has changed in memory, and the storage holds the old mask or the one that was wanted.
  pub Outcome : Mask S → ReplicaId → Bool → Mask S × Option MaskError → Type 0
  unfolding IsSynced
  Outcome m r b (m', none) =
      IsSynced m'
      × (is_masked m' r ≡ b)
      × ((x : ReplicaId) → r ≢ x → is_masked m' x ≡ is_masked m x)
  Outcome m r b (m', some e) =
      ((x : ReplicaId) → is_masked m' x ≡ is_masked m x)
      × ((m'' : Mask S) × (load_mask lib m'.storage m'.key ≡ ok m'')
          × (((x : ReplicaId) → is_masked m'' x ≡ is_masked m x)
              ⊎ ((is_masked m'' r ≡ b)
                  × ((x : ReplicaId) → r ≢ x → is_masked m'' x ≡ is_masked m x))))

  settle-Outcome :
      (m : Mask S) (r : ReplicaId) (b : Bool) (new back : Assoc Bytes (Unit {0}))
      → (is_masked (record m { masked = new }) r ≡ b)
      → ((x : ReplicaId) → r ≢ x → is_masked (record m { masked = new }) x ≡ is_masked m x)
      → ((x : ReplicaId) → is_masked (record m { masked = back }) x ≡ is_masked m x)
      → (o : S × Option MaskError) → Persisted m (record m { masked = new }) o
      → Outcome m r b (settle lib (record m { masked = new }) back o)
  unfolding settle Outcome Persisted IsSynced is_masked
  settle-Outcome m r b new back wanted others undone (s, none) p = (p, wanted, others)
  settle-Outcome m r b new back wanted others undone (s, some e) (inl (m', l, h)) =
      (undone, (m', l, inl h))
  settle-Outcome m r b new back wanted others undone (s, some e) (inr (m', l, h)) =
      (undone, (m', l, inr (h r ∙ wanted, λ x n. h x ∙ others x n)))

  -- A mask that agrees with its storage. `Maskout` without an error masks the replica and no other, in
  -- memory and in storage. With an error it leaves the mask in memory as it was, and the storage holds
  -- that mask still, or the one with the replica masked.
  pub maskout_lem :
      (m : Mask S) (r : ReplicaId)
      → key_or_default m.key ≡ m.key
      → IsSynced m
      → Outcome m r true (maskout lib m r)
  unfolding maskout Outcome is_masked
  maskout_lem m r named sync = elim (Option-cases (get r m.masked)) [
    | inr (u, e) ↦ rw (e, maskout) (sync, ground (arith, e), λ x n. refl)
    | inl e ↦
        rw (e, maskout)
          (settle-Outcome m r true (put r tt m.masked) (delete r (put r tt m.masked))
            (ground (arith, get-put_self r tt m.masked))
            (λ x n. ground (arith, get-put_ne r x tt m.masked n))
            (λ x. ground (arith, e, get-delete r x (put r tt m.masked), get-put r x tt m.masked)) _
            (persist-Persisted m (record m { masked = put r tt m.masked }) refl refl named sync))
  ]

  -- `Maskin` does the same for a replica that is to be heard again.
  maskin_lem :
      (m : Mask S) (r : ReplicaId)
      → key_or_default m.key ≡ m.key
      → IsSynced m
      → Outcome m r false (maskin lib m r)
  unfolding maskin Outcome is_masked
  maskin_lem m r named sync = elim (Option-cases (get r m.masked)) [
    | inl e ↦ rw (e, maskin) (sync, ground (arith, e), λ x n. refl)
    | inr (u, e) ↦
        rw (e, maskin)
          (settle-Outcome m r false (delete r m.masked) (put r tt (delete r m.masked))
            (ground (arith, get-delete r r m.masked))
            (λ x n. ground (arith, n, get-delete r x m.masked))
            (λ x. ground (arith, e, get-delete r x m.masked, get-put r x tt (delete r m.masked))) _
            (persist-Persisted m (record m { masked = delete r m.masked }) refl refl named sync))
  ]
