-- ===== src/Manager/Elections.antt =====
-- What the sessions of membership/voteout.go hold, and what it takes to remove a replica.
use comlink.Common.{
  ℕ, suc, ◌+◌, ◌-◌, ◌<◌, ◌≡◌, ◌≢◌, refl, sym, ◌∙◌, subst, ◌⊎◌, inl, true, false, some, List, [],
  ◌∷◌, ◌++◌, arith, length, get_elem?, get_elem?-lt, get_elem?-append_left, All,
}
use comlink.Common.Assoc.{
  IndexKey-discrete, Bytes-discrete, bytes_key, index_key, get, put, get-put_ne, get-put_self,
  IsMap, put-IsMap,
}
use comlink.Failure.{without}
use comlink.Frame.{FrameCodec}
use comlink.Messages.{ReplicaId}
use comlink.Manager.{
  Manager, Names, VoteOutSession, Task, Section, is_member, count_out, remove_out, read_frame,
}
use comlink.Manager.Kept.{Core, core}
use comlink.Manager.Runs.{Event, backs, joins, listing, frame_events}
use comlink.Manager.VoteOut.{new_vote_out_session, ack_out, nack_out}

abbrev pub Happened : List Event → Event → Type 0
Happened trace e = (i : ℕ) × (get_elem? trace i ≡ some e)

pub Happened-append_left : (xs ys : List Event) (e : Event) → Happened xs e → Happened (xs ++ ys) e
Happened-append_left xs ys e (i, h) = (i, get_elem?-append_left xs ys i (get_elem?-lt xs i h) ∙ h)

pub Happened-append_right : (xs ys : List Event) (e : Event) → Happened ys e → Happened (xs ++ ys) e
Happened-append_right [] ys e h = h
Happened-append_right (x ∷ xs) ys e h = let (i, p) = Happened-append_right xs ys e h in (suc i, p)

-- `r` has voted for the removal of `t`, as far as the replica `self` can know: it is `self`, or its
-- vote was delivered.
abbrev pub Backer : List Event → ReplicaId → ReplicaId → ReplicaId → Type 0
Backer trace self t r = (r ≡ self) ⊎ Happened trace (backs r t)

-- Enough replicas have voted for the removal of `t`: different ones, and as many as are a strict majority
-- of those who were listed at some time of the run, without one. Like the code, this compares the two
-- numbers, and does not ask whether those who voted were listed.
pub record IsElected (trace : List Event) (self t : ReplicaId) : Type 0 where
  pub electorate : List ReplicaId
  pub backers : Names
  pub were_listed : Happened trace (listing electorate)
  pub distinct : IsMap backers
  pub backed : (r : ReplicaId) (u : Unit) → get r backers ≡ some u → Backer trace self t r
  pub majority : length electorate - 1 < length backers + length backers

-- The session of `t` counts votes that were cast.
pub record IsTallied (trace : List Event) (self t : ReplicaId) (s : VoteOutSession) : Type 0 where
  pub started : Happened trace (listing s.members_at_start)
  pub distinct : IsMap s.acked_by
  pub backed : (r : ReplicaId) (u : Unit) → get r s.acked_by ≡ some u → Backer trace self t r

abbrev pub Fine : List Event → ReplicaId → ReplicaId → VoteOutSession → Type 0
Fine trace self t s = IsTallied trace self t s × (t ≢ self)

-- The replica lists itself, and each session counts votes that were cast.
pub record IsGood (trace : List Event) (k : Core) : Type 0 where
  pub listed : is_member k.members k.self ≡ true
  pub fine :
      (t : ReplicaId) (n : ℕ) (s : VoteOutSession)
      → get (t, n) k.out_sessions ≡ some s
      → Fine trace k.self t s

-- The events are in the trace.
abbrev pub Holds : List Event → List Event → Type 0
Holds trace events = (e : Event) → Happened events e → Happened trace e

-- What must have been for a goroutine to have the task before it.
abbrev pub IsDue : FrameCodec → List Event → ReplicaId → Task → Type 0
IsDue c trace self (count_out t n true r) = Happened trace (backs r t)
IsDue c trace self (remove_out t n) = (t ≢ self) × IsElected trace self t
IsDue c trace self (read_frame payload sender) = Holds trace (frame_events c payload sender)
IsDue c trace self _ = Unit

-- How the members `ms` of the replica `self` may change to `ms'`: not at all, by the loss of one whose
-- removal enough have voted for, or by one more whose `MemberAdd` was delivered.
abbrev pub Changed : List Event → ReplicaId → List ReplicaId → List ReplicaId → Type 0
Changed trace self ms ms' =
    (ms' ≡ ms)
    ⊎ ((t : ReplicaId) × (ms' ≡ without t ms) × (t ≢ self) × IsElected trace self t)
    ⊎ ((t : ReplicaId) × (ms' ≡ ms ++ t ∷ [])
        × (t ≢ self)
        × (is_member ms t ≡ false)
        × Happened trace (joins t))

-- A part of a goroutine keeps all this.
pub record Keeps (c : FrameCodec) (trace : List Event) (k : Core) (out : Section) : Type 0 where
  pub good : IsGood trace (core out.0)
  pub same_self : (core out.0).self ≡ k.self
  pub changed : Changed trace k.self k.members (core out.0).members
  pub due : All (IsDue c trace k.self) out.1

pub ack_out-IsTallied :
    (trace : List Event) (self t r : ReplicaId) (s : VoteOutSession)
    → Backer trace self t r
    → IsTallied trace self t s
    → IsTallied trace self t (ack_out r s)
unfolding ack_out
ack_out-IsTallied trace self t r s b v = record {
  started = v.started;
  distinct = put-IsMap r tt s.acked_by v.distinct;
  backed = λ r' u h. elim (Bytes-discrete r r') [
    | yes p ↦ subst (Backer trace self t) p b
    | no p ↦ v.backed r' u (sym (get-put_ne r r' tt s.acked_by p) ∙ h)
  ];
}

pub nack_out-IsTallied :
    (trace : List Event) (self t r : ReplicaId) (s : VoteOutSession)
    → IsTallied trace self t s
    → IsTallied trace self t (nack_out r s)
unfolding nack_out
nack_out-IsTallied trace self t r s v = record {
  started = v.started;
  distinct = v.distinct;
  backed = v.backed;
}

pub new_vote_out_session-IsTallied :
    (trace : List Event) (self t : ReplicaId) (members : List ReplicaId)
    → Happened trace (listing members)
    → IsTallied trace self t (new_vote_out_session t members)
unfolding new_vote_out_session get
new_vote_out_session-IsTallied trace self t members h = record {
  started = h;
  distinct = tt;
  backed = λ r u e. cc;
}

pub is_member-without :
    (t r : ReplicaId) (ms : List ReplicaId) → t ≢ r → is_member (without t ms) r ≡ is_member ms r
unfolding is_member without
is_member-without t r [] h = refl
is_member-without t r (m ∷ ms) h = ground (arith, is_member-without t r ms h)

-- A session that is stored.
pub put-IsGood :
    (trace : List Event) (k : Core) (t : ReplicaId) (n : ℕ) (s : VoteOutSession)
    → IsGood trace k
    → Fine trace k.self t s
    → IsGood trace (record k { out_sessions = put (t, n) s k.out_sessions })
put-IsGood trace k t n s g v = record {
  listed = g.listed;
  fine = λ t' n' s' h. elim (IndexKey-discrete (t, n) (t', n')) [
    | no p ↦ g.fine t' n' s' (sym (get-put_ne (t, n) (t', n') s k.out_sessions p) ∙ h)
    | yes p ↦
        let h' : get (t, n) (put (t, n) s k.out_sessions) ≡ some s' =
          subst (λ x. get x (put (t, n) s k.out_sessions) ≡ some s') (sym p) h in
        let stored = get-put_self (t, n) s k.out_sessions in
        let same : s ≡ s' = cc (h', stored) in
        subst (λ x. Fine trace k.self x.0 s') p (subst (Fine trace k.self t) same v)
  ];
}

-- A part that leaves the core alone.
pub kept-Keeps :
    (c : FrameCodec) (trace : List Event) (m : Manager) (out : Section)
    → IsGood trace (core m)
    → core out.0 ≡ core m
    → All (IsDue c trace m.self) out.1
    → Keeps c trace (core m) out
unfolding core
kept-Keeps c trace m out g e due = record {
  good = subst (IsGood trace) (sym e) g;
  same_self = subst (λ k. k.self ≡ m.self) (sym e) refl;
  changed = subst (λ k. Changed trace m.self m.members k.members) (sym e) (inl refl);
  due = due;
}
