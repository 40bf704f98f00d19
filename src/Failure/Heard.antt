-- ===== src/Failure/Heard.antt =====
-- Ticks of failure/failure.go behind a message from a replica.
use comlink.Common.{
  ℕ, ◌+◌, ◌<◌, ◌≡◌, refl, ◌∙◌, ◌≢◌, inl, inr, false, Option, none, some, List, [], ◌∷◌, arith,
  dec_le, Bool-cases, All,
}
use comlink.Common.Assoc.{Bytes-discrete, bytes_key, get, put, get-put_self, get-put_ne, get-delete}
use comlink.Messages.{ReplicaId}
use comlink.Failure.{
  Detector, note_received, is_suspected, check_heard, check_member, check_members, tick,
}

-- The replica `r` was last heard at `heard`, is not suspected, and is so after `within` at the earliest.
record IsHeard (heard within : ℕ) (r : ReplicaId) (d : Detector) : Type 0 where
  last : get r d.last_received ≡ some heard
  trusted : is_suspected d r ≡ false
  interval : d.cfg.suspicion_interval ≡ within

module _ (heard within : ℕ) (r : ReplicaId) where
  check_heard-IsHeard :
      (now : ℕ) (x : ReplicaId) (o : Option ℕ) (d : Detector)
      → now < heard + within
      → get x d.last_received ≡ o
      → IsHeard heard within r d
      → IsHeard heard within r (check_heard now x o d).0
  unfolding check_heard is_suspected
  check_heard-IsHeard now x none d soon e v = record {
    last = get-put_ne x r now d.last_received (λ p. cc (p, e, v.last)) ∙ v.last;
    trusted = v.trusted;
    interval = v.interval;
  }
  check_heard-IsHeard now x (some last) d soon e v =
      elim (dec_le (last + d.cfg.suspicion_interval) now) [
        | no gt ↦
            let same : check_heard now x (some last) d ≡ (d, []) = ground (arith, gt) in rw same v
        | yes le ↦
            let other : x ≢ r = λ p.
              let same : last ≡ heard = cc (p, e, v.last) in
              absurd (omega (arith, le, same, v.interval, soon)) in
            let step : check_heard now x (some last) d
                ≡ (record d { suspected = put x tt d.suspected }, x ∷ []) =
              ground (arith, le) in
            rw step (record {
              last = v.last;
              trusted = rw (is_suspected, get-put_ne x r tt d.suspected other) v.trusted;
              interval = v.interval;
            })
      ]

  check_member-IsHeard :
      (now : ℕ) (x : ReplicaId) (d : Detector)
      → now < heard + within
      → IsHeard heard within r d
      → IsHeard heard within r (check_member now x d).0
  unfolding check_member
  check_member-IsHeard now x d soon v = elim (Bytes-discrete x d.cfg.self) [
    | yes p ↦ let same : check_member now x d ≡ (d, []) = ground (arith, p) in rw same v
    | no n ↦ elim (Bool-cases (is_suspected d x)) [
      | inl s ↦ let same : check_member now x d ≡ (d, []) = ground (arith, n, s) in rw same v
      | inr s ↦
          let same : check_member now x d ≡ check_heard now x (get x d.last_received) d =
            ground (arith, n, s) in
          rw same (check_heard-IsHeard now x (get x d.last_received) d soon refl v)
    ]
  ]

  check_members-IsHeard :
      (now : ℕ) (xs : List ReplicaId) (d : Detector)
      → now < heard + within
      → IsHeard heard within r d
      → IsHeard heard within r (check_members now xs d).0
  unfolding check_members
  check_members-IsHeard now [] d soon v = v
  check_members-IsHeard now (x ∷ xs) d soon v =
      check_members-IsHeard now xs (check_member now x d).0 soon
        (check_member-IsHeard now x d soon v)

  tick-IsHeard :
      (now : ℕ) (d : Detector)
      → now < heard + within
      → IsHeard heard within r d
      → IsHeard heard within r (tick now d).0
  unfolding tick is_suspected
  tick-IsHeard now d soon v =
      check_members-IsHeard now d.members _ soon
        (record { last = v.last; trusted = v.trusted; interval = v.interval })

-- The ticks at the given times, one after the other.
pub ticks : List ℕ → Detector → Detector
ticks [] d = d
ticks (now ∷ times) d = ticks times (tick now d).0

ticks-IsHeard :
    (heard within : ℕ) (r : ReplicaId) (times : List ℕ) (d : Detector)
    → All (λ now. now < heard + within) times
    → IsHeard heard within r d
    → IsHeard heard within r (ticks times d)
unfolding ticks
ticks-IsHeard heard within r [] d soon v = v
ticks-IsHeard heard within r (now ∷ times) d soon v =
    ticks-IsHeard heard within r times (tick now d).0 soon.1
      (tick-IsHeard heard within r now d soon.0 v)

note_received-IsHeard :
    (now : ℕ) (d : Detector) (r : ReplicaId)
    → IsHeard now d.cfg.suspicion_interval r (note_received now r d)
unfolding note_received is_suspected
note_received-IsHeard now d r = record {
  last = get-put_self r now d.last_received;
  trusted = ground (arith, get-delete r r d.suspected);
  interval = refl;
}

-- A replica that is heard at `now` is not suspected after any number of ticks, each of them sooner than
-- the suspicion interval later.
pub note_received-ticks :
    (now : ℕ) (times : List ℕ) (d : Detector) (r : ReplicaId)
    → All (λ later. later < now + d.cfg.suspicion_interval) times
    → is_suspected (ticks times (note_received now r d)) r ≡ false
note_received-ticks now times d r soon =
    (ticks-IsHeard now d.cfg.suspicion_interval r times (note_received now r d) soon
      (note_received-IsHeard now d r)).trusted
