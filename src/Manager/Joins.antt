-- ===== src/Manager/Joins.antt =====
-- The parts of the votes of membership/votein.go leave the removal votes alone.
use comlink.Common.{
  ℕ, ◌≡◌, refl, inl, inr, true, false, Bool, Option, some, none, List, by_if, by_ite, not,
  Option-cases, length, ltb,
}
use comlink.Common.Assoc.{Bytes, Bytes-discrete, bytes_key, index_key, get}
use comlink.Common.Result.{Result, ok, err, Result-cases}
use comlink.Frame.{FrameCodec, FrameError, marshal_member_add}
use comlink.Messages.{ReplicaId}
use comlink.Manager.{is_member, in_majority, Manager, VoteError}
use comlink.Manager.Elections.{IsGood, Keeps, kept-Keeps}
use comlink.Manager.Kept.{core, async_send-core, effects-core, change_in-core}
use comlink.Manager.Runs.{Event}
use comlink.Manager.Sections.{OnOk, same-Keeps}
use comlink.Psync.Membership.{Membership}
use comlink.Manager.VoteIn.{
  vote_in, begin_vote_in, tally_in, cancel_vote_in, check_vote_in, commit_vote_in, count_vote_in,
  broadcast_vote_in, mark_in_vote, needed_in,
}

pub tally_in-Keeps :
    (c : FrameCodec) (trace : List Event) (b : Bool) (o : Option ReplicaId) (sender : ReplicaId)
    (m : Manager)
    → IsGood trace (core m)
    → Keeps c trace (core m) (m, tally_in b o sender m)
unfolding tally_in
tally_in-Keeps c trace b none sender m g = same-Keeps c trace m g
tally_in-Keeps c trace b (some t) sender m g = elim (Option-cases (get t m.vote_ins)) [
  | inl q ↦ rw (tally_in, q) (same-Keeps c trace m g)
  | inr (n, q) ↦ rw (tally_in, q) (kept-Keeps c trace m _ g refl (tt, tt))
]

pub cancel_vote_in-Keeps :
    (c : FrameCodec) (trace : List Event) (t : ReplicaId) (e : VoteError) (m : Manager)
    → IsGood trace (core m)
    → Keeps c trace (core m) (cancel_vote_in t e m)
unfolding cancel_vote_in core
cancel_vote_in-Keeps c trace t e m g = elim (Option-cases (get t m.vote_ins)) [
  | inl q ↦ rw (cancel_vote_in, q) (same-Keeps c trace m g)
  | inr (n, q) ↦ rw (cancel_vote_in, q) (kept-Keeps c trace m _ g refl (tt, tt))
]

pub check_vote_in-Keeps :
    (c : FrameCodec) (trace : List Event) (t : ReplicaId) (n : ℕ) (m : Manager)
    → IsGood trace (core m)
    → Keeps c trace (core m) (check_vote_in t n m)
unfolding check_vote_in core
check_vote_in-Keeps c trace t n m g = elim (Option-cases (get (t, n) m.in_sessions)) [
  | inl q ↦ rw (check_vote_in, q) (same-Keeps c trace m g)
  | inr (s, q) ↦
      rw (check_vote_in, q)
        (by_if (Keeps c trace (core m)) (ltb 0 (length s.nacked_by)) _ _
          (λ p. kept-Keeps c trace m _ g refl (tt, tt))
          λ p.
            by_if (Keeps c trace (core m)) s.committed _ _ (λ p. same-Keeps c trace m g)
              λ p.
                by_if (Keeps c trace (core m)) (ltb (length s.acked_by) (needed_in s)) _ _
                  (λ p. same-Keeps c trace m g) λ p. kept-Keeps c trace m _ g refl (tt, tt))
]

pub commit_vote_in-Keeps :
    (c : FrameCodec) (trace : List Event) (t : ReplicaId) (n : ℕ) (m : Manager)
    → IsGood trace (core m)
    → Keeps c trace (core m) (commit_vote_in c t n m)
unfolding commit_vote_in core
commit_vote_in-Keeps c trace t n m g = elim (Option-cases (get (t, n) m.in_sessions)) [
  | inl q ↦ rw (commit_vote_in, q) (same-Keeps c trace m g)
  | inr (s, q) ↦ elim (Result-cases (marshal_member_add c (some t) s.addr)) [
    | inr (x, h) ↦ rw (commit_vote_in, q, h) (kept-Keeps c trace m _ g refl (tt, tt))
    | inl (bytes, h) ↦
        rw (commit_vote_in, q, h) (kept-Keeps c trace m _ g (async_send-core (ok bytes) m) tt)
  ]
]

pub broadcast_vote_in-Keeps :
    (c : FrameCodec) (trace : List Event) (flag : Bool) (t : ReplicaId) (n : ℕ)
    (r : Result FrameError Bytes) (m : Manager)
    → IsGood trace (core m)
    → Keeps c trace (core m) (broadcast_vote_in flag t n r m)
unfolding broadcast_vote_in
broadcast_vote_in-Keeps c trace flag t n (err e) m g = kept-Keeps c trace m _ g refl (tt, tt)
broadcast_vote_in-Keeps c trace true t n (ok b) m g =
    kept-Keeps c trace m _ g (effects-core _ m) (tt, (tt, tt))
broadcast_vote_in-Keeps c trace false t n (ok b) m g = kept-Keeps c trace m _ g refl (tt, tt)

pub count_vote_in-Keeps :
    (c : FrameCodec) (trace : List Event) (t : ReplicaId) (n : ℕ) (b : Bool) (r : ReplicaId)
    (m : Manager)
    → IsGood trace (core m)
    → Keeps c trace (core m) (count_vote_in t n b r m)
unfolding count_vote_in
count_vote_in-Keeps c trace t n b r m g =
    kept-Keeps c trace m _ g (change_in-core t n (mark_in_vote b r) m) (tt, tt)

pub view-core : (x : Membership) (m : Manager) → core (record m { view = x }) ≡ core m
unfolding core
view-core x m = refl

begin_vote_in-Keeps :
    (c : FrameCodec) (trace : List Event) (t : ReplicaId) (addr : Bytes) (o : Option ℕ)
    (m : Manager)
    → IsGood trace (core m)
    → OnOk (Keeps c trace (core m)) (begin_vote_in t addr o m)
unfolding begin_vote_in core
begin_vote_in-Keeps c trace t addr (some n) m g = tt
begin_vote_in-Keeps c trace t addr none m g = kept-Keeps c trace m _ g refl (tt, tt)

pub vote_in-Keeps :
    (c : FrameCodec) (trace : List Event) (t : ReplicaId) (addr : Bytes) (m : Manager)
    → IsGood trace (core m)
    → OnOk (Keeps c trace (core m)) (vote_in t addr m)
unfolding vote_in
vote_in-Keeps c trace t addr m g =
    by_ite (OnOk (Keeps c trace (core m))) (Bytes-discrete t m.self) _ _ (λ p. tt)
      λ ne.
        by_if (OnOk (Keeps c trace (core m))) (is_member m.members t) _ _ (λ p. tt)
          λ p.
            by_if (OnOk (Keeps c trace (core m))) (not (in_majority m)) _ _ (λ p. tt)
              λ p. begin_vote_in-Keeps c trace t addr (get t m.vote_ins) m g
