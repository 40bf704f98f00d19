-- ===== src/Failure/Suspicion.antt =====
-- Whom the failure detector of failure/failure.go suspects.
use comlink.Common.{
  ℕ, zero, suc, ◌+◌, ◌≤◌, ◌<◌, ◌≡◌, refl, sym, ap, ◌∙◌, subst, ◌≢◌, ◌⊎◌, ◌↔◌, inl, inr, true,
  Option, none, some, List, [], ◌∷◌, arith, dec_le, get_elem?, Bool-cases, leb, if◌then◌else◌,
}
use comlink.Common.Assoc.{Bytes-discrete, bytes_key, get, put, get-put_self, get-put_ne}
use comlink.Messages.{ReplicaId}
use comlink.Failure.{Detector, is_suspected, check_heard, check_member, check_members, tick}

-- `r` has been silent for the suspicion interval at `now`.
abbrev pub IsSilent : ℕ → Detector → ReplicaId → Type 0
IsSilent now d r =
    (last : ℕ) × (get r d.last_received ≡ some last) × (last + d.cfg.suspicion_interval ≤ now)

-- What one round of the loop does about `x`.
record IsRound (now : ℕ) (x : ReplicaId) (d d' : Detector) : Type 0 where
  config : d'.cfg ≡ d.cfg
  silent : (r : ReplicaId) → IsSilent now d' r ↔ IsSilent now d r
  suspects :
      (r : ReplicaId)
      → (is_suspected d' r ≡ true)
        ↔ ((is_suspected d r ≡ true) ⊎ ((x ≡ r) × (x ≢ d.cfg.self) × IsSilent now d x))

same-IsRound :
    (now : ℕ) (x : ReplicaId) (d : Detector)
    → ((x ≢ d.cfg.self) → IsSilent now d x → is_suspected d x ≡ true)
    → IsRound now x d d
same-IsRound now x d h = record {
  config = refl;
  silent = λ r. (λ s. s, λ s. s);
  suspects = λ r. (
    λ e. inl e,
    λ c. elim c [ inl e ↦ e | inr (p, n, s) ↦ subst (λ y. is_suspected d y ≡ true) p (h n s) ],
  );
}

new_reading :
    (now : ℕ) (x : ReplicaId) (d : Detector)
    → 0 < d.cfg.suspicion_interval
    → get x d.last_received ≡ none
    → IsRound now x d (record d { last_received = put x now d.last_received })
unfolding is_suspected
new_reading now x d pos h = record {
  config = refl;
  silent = λ r. elim (Bytes-discrete x r) [
    | yes p ↦ (
      λ (last, e, le).
          let z : some now ≡ some last =
            sym (get-put_self x now d.last_received)
            ∙ subst (λ y. get y (put x now d.last_received) ≡ some last) (sym p) e in
          let same : now ≡ last = cc in absurd (omega (arith, same, le, pos)),
      λ (last, e, le). cc,
    )
    | no p ↦ (
      λ (last, e, le). (last, sym (get-put_ne x r now d.last_received p) ∙ e, le),
      λ (last, e, le). (last, get-put_ne x r now d.last_received p ∙ e, le),
    )
  ];
  suspects = λ r. (λ e. inl e, λ c. elim c [ inl e ↦ e | inr (p, n, (last, e, le)) ↦ cc ]);
}

new_suspicion :
    (now : ℕ) (x : ReplicaId) (d : Detector)
    → x ≢ d.cfg.self
    → IsSilent now d x
    → IsRound now x d (record d { suspected = put x tt d.suspected })
unfolding is_suspected
new_suspicion now x d n h = record {
  config = refl;
  silent = λ r. (λ s. s, λ s. s);
  suspects = λ r. elim (Bytes-discrete x r) [
    | yes p ↦
        (λ e. inr (p, n, h), λ c. rw (← p) (rw (get-put_self x tt d.suspected, is_suspected) refl))
    | no p ↦ (
      λ e. inl (ground (arith, get-put_ne x r tt d.suspected p)),
      λ c. elim c [
        | inl e ↦ ground (arith, get-put_ne x r tt d.suspected p)
        | inr (q, _, _) ↦ absurd (p q)
      ],
    )
  ];
}

check_heard_lem :
    (now : ℕ) (x : ReplicaId) (d : Detector) (o : Option ℕ)
    → get x d.last_received ≡ o
    → 0 < d.cfg.suspicion_interval
    → x ≢ d.cfg.self
    → IsRound now x d (check_heard now x o d).0
unfolding check_heard
check_heard_lem now x d none h pos n = new_reading now x d pos h
check_heard_lem now x d (some last) h pos n = elim (dec_le (last + d.cfg.suspicion_interval) now) [
  | yes le ↦
      let e : check_heard now x (some last) d
          ≡ (record d { suspected = put x tt d.suspected }, x ∷ []) =
        ground (arith, le) in
      rw e (new_suspicion now x d n (last, h, le))
  | no gt ↦
      let e : check_heard now x (some last) d ≡ (d, []) = ground (arith, gt) in
      rw e (
        same-IsRound now x d
          (λ _ (last', h', le). let same : last ≡ last' = cc in absurd (gt (rw same le))))
]

check_member_lem :
    (now : ℕ) (x : ReplicaId) (d : Detector)
    → 0 < d.cfg.suspicion_interval
    → IsRound now x d (check_member now x d).0
unfolding check_member
check_member_lem now x d pos = elim (Bytes-discrete x d.cfg.self) [
  | yes p ↦
      let e : check_member now x d ≡ (d, []) = ground (arith, p) in
      rw e (same-IsRound now x d (λ n. absurd (n p)))
  | no n ↦ elim (Bool-cases (is_suspected d x)) [
    | inl s ↦
        let e : check_member now x d ≡ (d, []) = ground (arith, n, s) in
        rw e (same-IsRound now x d (λ _ _. s))
    | inr s ↦
        let e : check_member now x d ≡ check_heard now x (get x d.last_received) d =
          ground (arith, n, s) in
        rw e (check_heard_lem now x d (get x d.last_received) refl pos n)
  ]
]

-- `r` stands in the list.
abbrev pub IsListed : ReplicaId → List ReplicaId → Type 0
IsListed r rs = (i : ℕ) × (get_elem? rs i ≡ some r)

-- Who is suspected once the loop has gone over `rs`.
abbrev IsDue : ℕ → List ReplicaId → Detector → ReplicaId → Type 0
IsDue now rs d r = IsListed r rs × (r ≢ d.cfg.self) × IsSilent now d r

check_members-step :
    (now : ℕ) (x : ReplicaId) (rs : List ReplicaId) (d d1 d2 : Detector) (r : ReplicaId)
    → IsRound now x d d1
    → (is_suspected d2 r ≡ true) ↔ ((is_suspected d1 r ≡ true) ⊎ IsDue now rs d1 r)
    → (is_suspected d2 r ≡ true) ↔ ((is_suspected d r ≡ true) ⊎ IsDue now (x ∷ rs) d r)
check_members-step now x rs d d1 d2 r one rest = (
  λ e. elim (rest.0 e) [
    | inl e1 ↦ elim ((one.suspects r).0 e1) [
      | inl e0 ↦ inl e0
      | inr (p, n, s) ↦ inr ((0, ap some p), λ q. n (p ∙ q), subst (IsSilent now d) p s)
    ]
    | inr ((i, f), n, s) ↦ inr ((suc i, f), λ q. n (q ∙ sym same), (one.silent r).0 s)
  ],
  λ c. rest.1 (elim c [
    | inl e0 ↦ inl ((one.suspects r).1 (inl e0))
    | inr ((zero, f), n, s) ↦
        let p : x ≡ r = cc in
        inl ((one.suspects r).1 (inr (p, λ q. n (sym p ∙ q), subst (IsSilent now d) (sym p) s)))
    | inr ((suc i, f), n, s) ↦ inr ((i, f), λ q. n (q ∙ same), (one.silent r).1 s)
  ]),
)
  where
    same : d1.cfg.self ≡ d.cfg.self
    same = ap (λ c. c.self) one.config

check_members_lem :
    (now : ℕ) (rs : List ReplicaId) (d : Detector)
    → 0 < d.cfg.suspicion_interval
    → (r : ReplicaId)
    → (is_suspected (check_members now rs d).0 r ≡ true)
      ↔ ((is_suspected d r ≡ true) ⊎ IsDue now rs d r)
unfolding check_members
check_members_lem now [] d pos r = (λ e. inl e, λ c. elim c [ inl e ↦ e | inr ((i, e), _, _) ↦ cc ])
check_members_lem now (x ∷ rs) d pos r =
    let d1 : Detector = (check_member now x d).0 in
    let one = check_member_lem now x d pos in
    check_members-step now x rs d d1 (check_members now rs d1).0 r one
      (check_members_lem now rs d1 (subst (λ c. 0 < c.suspicion_interval) (sym one.config) pos) r)

-- After a tick exactly those replicas are suspected that were so before, and those members other than
-- oneself whose last message is at least the suspicion interval old.
pub tick_iff :
    (now : ℕ) (d : Detector)
    → 0 < d.cfg.suspicion_interval
    → (r : ReplicaId)
    → (is_suspected (tick now d).0 r ≡ true)
      ↔ ((is_suspected d r ≡ true) ⊎ (IsListed r d.members × (r ≢ d.cfg.self) × IsSilent now d r))
unfolding tick is_suspected
tick_iff now d pos r =
    check_members_lem now d.members
      (record d {
        now = now;
        last_sent = if leb (d.last_sent + d.cfg.quiet_interval) now then now else d.last_sent;
      })
      pos r
