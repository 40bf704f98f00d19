-- ===== src/Order/Total/Drain.antt =====
-- What a drain of order/total.go emits, and that it ends.
use comlink.Common.{
  ℕ, zero, suc, ◌+◌, ◌-◌, ◌≤◌, ◌<◌, ◌≡◌, refl, sym, ◌∙◌, subst, ◌↔◌, ◌⊎◌, inl, inr, Bool, true,
  false, none, some, List, [], ◌∷◌, ◌++◌, arith, get_elem?, Option-cases, append_assoc, append-nil,
}
use comlink.Common.Assoc.{Assoc, Bytes, bytes_key, get}
use comlink.Messages.{ReplicaId, Envelope}
use comlink.Psync.Membership.{Membership, replica, is_frozen}
use comlink.Psync.Graph.{Graph, messages_in_wave}
use comlink.Psync.Stability.{wave_complete}
use comlink.Psync.Stability.Waves.{greatest_wave, wave_complete-le}
use comlink.Order.Total.{
  Total, past, continuation_from, continuation_property, envelopes_of_wave, Drained, drained,
  panicked, ready, emit_wave, drain_complete_waves,
}

-- The latest wave of `r` is known and past `wave`.
abbrev pub IsPast : Assoc Bytes ℕ → ℕ → ReplicaId → Type 0
IsPast latest wave r = (w : ℕ) × (get r latest ≡ some w) × (wave < w)

past_iff :
    (latest : Assoc Bytes ℕ) (wave : ℕ) (r : ReplicaId)
    → (past wave (get r latest) ≡ true) ↔ IsPast latest wave r
unfolding past
past_iff latest wave r = elim (Option-cases (get r latest)) [
  | inl e ↦ (λ h. ground (arith, e), λ (w, f, h). cc)
  | inr (w, e) ↦ (
    λ h. (w, e, ground (arith, e)),
    λ (w', f, h). let same : w ≡ w' = cc in ground (arith, e, same, h),
  )
]

-- Every replica in an unfrozen slot is past `wave`.
abbrev ArePast : Assoc Bytes ℕ → ℕ → List ReplicaId → List Bool → Type 0
ArePast latest wave rs fs =
    (i : ℕ) (r : ReplicaId)
    → get_elem? rs i ≡ some r
    → get_elem? fs i ≡ some false
    → IsPast latest wave r

skip_slot :
    (latest : Assoc Bytes ℕ) (wave : ℕ) (s : ReplicaId) (rs : List ReplicaId) (fs : List Bool)
    → ArePast latest wave rs fs
    → ArePast latest wave (s ∷ rs) (true ∷ fs)
skip_slot latest wave s rs fs h zero r e f = cc
skip_slot latest wave s rs fs h (suc i) r e f = h i r e f

take_slot :
    (latest : Assoc Bytes ℕ) (wave : ℕ) (s : ReplicaId) (rs : List ReplicaId) (fs : List Bool)
    → IsPast latest wave s
    → ArePast latest wave rs fs
    → ArePast latest wave (s ∷ rs) (false ∷ fs)
take_slot latest wave s rs fs p h zero r e f =
    let same : s ≡ r = cc in subst (IsPast latest wave) same p
take_slot latest wave s rs fs p h (suc i) r e f = h i r e f

continuation_from_iff :
    (latest : Assoc Bytes ℕ) (wave : ℕ) (rs : List ReplicaId) (fs : List Bool)
    → (continuation_from latest wave rs fs ≡ true) ↔ ArePast latest wave rs fs
unfolding continuation_from
continuation_from_iff latest wave [] fs = (λ h i r e f. cc, λ h. refl)
continuation_from_iff latest wave (s ∷ rs) [] = (λ h i r e f. cc, λ h. refl)
continuation_from_iff latest wave (s ∷ rs) (true ∷ fs) =
    let (rest, back) = continuation_from_iff latest wave rs fs in
    (λ h. skip_slot latest wave s rs fs (rest h), λ h. back (λ i r e f. h (suc i) r e f))
continuation_from_iff latest wave (s ∷ rs) (false ∷ fs) =
    let (rest, back) = continuation_from_iff latest wave rs fs in
    (
      λ h.
          take_slot latest wave s rs fs ((past_iff latest wave s).0 (ground (arith, h)))
            (rest (ground (arith, h))),
      λ h.
          let here = (past_iff latest wave s).1 (h 0 s refl refl) in
          let more = back (λ i r e f. h (suc i) r e f) in ground (arith, here, more),
    )

-- The gate of a wave is open exactly when every active replica is known to have sent in a later wave.
continuation_property_iff :
    (m : Membership) (t : Total) (wave : ℕ)
    → (continuation_property m t wave ≡ true) ↔ (
        (slot : ℕ) (r : ReplicaId)
        → replica m slot ≡ some r
        → is_frozen m slot ≡ some false
        → IsPast t.latest_wave wave r)
unfolding continuation_property
continuation_property_iff m t wave = continuation_from_iff t.latest_wave wave m.replicas m.frozen

module _ (sort : List Envelope → List Envelope) (m : Membership) (g : Graph) where
  -- The `n` waves from `w` on, each sorted.
  pub batches : ℕ → ℕ → List Envelope
  batches w zero = []
  batches w (suc n) = sort (envelopes_of_wave g (messages_in_wave g w)) ++ batches (w + 1) n

  -- The test of wave `w` was passed.
  abbrev IsOpen : Total → ℕ → Type 0
  IsOpen t w = (wave_complete m g w ≡ some true) × (continuation_property m t w ≡ true)

  -- A drain emits `n` waves, all open, and stops where the next one is not.
  pub record IsDrain (t t' : Total) : Type 0 where
    pub count : ℕ
    pub next : t'.next_wave ≡ t.next_wave + count
    pub emitted : t'.apply ≡ t.apply ++ batches t.next_wave count
    pub opened : (i : ℕ) → i < count → IsOpen t (t.next_wave + i)
    pub same : t'.latest_wave ≡ t.latest_wave
    pub stops : ready sort m g t' ≡ some false

  ready-IsOpen : (t : Total) → ready sort m g t ≡ some true → IsOpen t t.next_wave
  unfolding ready
  ready-IsOpen t e = elim (Option-cases (wave_complete m g t.next_wave)) [
    | inl f ↦ let z : ready sort m g t ≡ none = rw (f, ready) refl in cc
    | inr (false, f) ↦ let z : ready sort m g t ≡ some false = rw (f, ready) refl in cc
    | inr (true, f) ↦
        let z : ready sort m g t ≡ some (continuation_property m t t.next_wave) =
          rw (f, ready) refl in
        (f, cc)
  ]

  none_emitted : (t : Total) → ready sort m g t ≡ some false → IsDrain t t
  unfolding batches
  none_emitted t e = record {
    count = 0;
    next = omega arith;
    emitted = sym (append-nil t.apply);
    opened = λ i h. elim h [ ];
    same = refl;
    stops = e;
  }

  one_emitted :
      (t t' : Total) → IsOpen t t.next_wave → IsDrain (emit_wave sort m g t) t' → IsDrain t t'
  unfolding emit_wave batches continuation_property
  one_emitted t t' here d = record {
    count = suc d.count;
    next = omega (arith, d.next);
    emitted =
        d.emitted
        ∙ append_assoc t.apply (sort (envelopes_of_wave g (messages_in_wave g t.next_wave)))
            (batches (t.next_wave + 1) d.count);
    opened = later;
    same = d.same;
    stops = d.stops;
  }
    where
      later : (i : ℕ) → i < suc d.count → IsOpen t (t.next_wave + i)
      later zero h = subst (IsOpen t) (omega arith) here
      later (suc i) h = subst (IsOpen t) (omega arith) (d.opened i (omega (arith, h)))

  not_ready : (t : Total) → ready sort m g t ≡ none → wave_complete m g t.next_wave ≡ none
  unfolding ready
  not_ready t e = elim (Option-cases (wave_complete m g t.next_wave)) [
    | inl f ↦ f
    | inr (false, f) ↦ let z : ready sort m g t ≡ some false = rw (f, ready) refl in cc
    | inr (true, f) ↦
        let z : ready sort m g t ≡ some (continuation_property m t t.next_wave) =
          rw (f, ready) refl in
        cc
  ]

  -- Either the test of some wave panics, or the drain is done.
  abbrev pub IsEnded : Total → Drained → Type 0
  IsEnded t r =
      ((w : ℕ) × (wave_complete m g w ≡ none) × (r ≡ panicked))
      ⊎ ((t' : Total) × (r ≡ drained t') × IsDrain t t')

  emit_wave-IsEnded :
      (t : Total) (r : Drained)
      → IsOpen t t.next_wave
      → IsEnded (emit_wave sort m g t) r
      → IsEnded t r
  emit_wave-IsEnded t r here e = elim e [
    | inl p ↦ inl p
    | inr (t', e', d) ↦ inr (t', e', one_emitted t t' here d)
  ]

  emit_wave-room :
      (fuel : ℕ) (t : Total)
      → t.next_wave ≤ greatest_wave g.by_wave
      → greatest_wave g.by_wave + 1 - t.next_wave < suc fuel
      → greatest_wave g.by_wave + 1 - (emit_wave sort m g t).next_wave < fuel
  unfolding emit_wave
  emit_wave-room fuel t h k = omega (arith, h, k)

  -- `drainCompleteWaves` ends, with more fuel than there are wave numbers from the next one to the
  -- greatest. Unless the test of a wave panics, it emits the waves from the next one on, each sorted, as
  -- far as they are complete and their gate is open, and stops at the first that is not.
  pub drain_complete_waves_lem :
      (fuel : ℕ) (t : Total)
      → greatest_wave g.by_wave + 1 - t.next_wave < fuel
      → IsEnded t (drain_complete_waves sort m g fuel t)
  unfolding drain_complete_waves
  drain_complete_waves_lem zero t h = elim h [ ]
  drain_complete_waves_lem (suc fuel) t h = elim (Option-cases (ready sort m g t)) [
    | inl e ↦ inl (t.next_wave, not_ready t e, rw (e, drain_complete_waves) refl)
    | inr (false, e) ↦ inr (t, rw (e, drain_complete_waves) refl, none_emitted t e)
    | inr (true, e) ↦
        let here = ready-IsOpen t e in
        let room = emit_wave-room fuel t (wave_complete-le m g t.next_wave here.0) h in
        let next : drain_complete_waves sort m g (suc fuel) t
            ≡ drain_complete_waves sort m g fuel (emit_wave sort m g t) =
          rw (e, drain_complete_waves) refl in
        subst (IsEnded t) (sym next)
          (emit_wave-IsEnded t _ here (drain_complete_waves_lem fuel (emit_wave sort m g t) room))
  ]
