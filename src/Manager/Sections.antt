-- ===== src/Manager/Sections.antt =====
-- The parts of a removal vote of membership/voteout.go, as what they keep and what they leave to do.
use comlink.Common.{
  ℕ, ◌≡◌, ◌≢◌, refl, sym, subst, inl, inr, true, false, not, Bool, Option, some, none, List, [],
  by_if, by_ite, Option-cases, All,
}
use comlink.Common.Assoc.{Bytes-discrete, bytes_key, index_key, get, put}
use comlink.Common.Result.{Result, ok, err}
use comlink.Frame.{FrameCodec}
use comlink.Messages.{ReplicaId}
use comlink.Manager.{Manager, VoteOutSession, VoteError, Task, Section, is_member, in_majority}
use comlink.Manager.Elections.{
  Happened, Backer, Fine, IsGood, IsDue, Keeps, ack_out-IsTallied, nack_out-IsTallied,
  new_vote_out_session-IsTallied, put-IsGood, kept-Keeps,
}
use comlink.Manager.Kept.{Core, core, async_send-core}
use comlink.Manager.Runs.{Event, backs, listing}
use comlink.Manager.VoteOut.{
  new_vote_out_session, open_vote_out, change_out, ack_out, mark_out, finish_vote_out,
  begin_vote_out, vote_out, join_vote_out, handle_vote_out, cast_vote_out, count_vote_out,
}

-- A part that does nothing.
pub same-Keeps :
    (c : FrameCodec) (trace : List Event) (m : Manager)
    → IsGood trace (core m)
    → Keeps c trace (core m) (m, [])
same-Keeps c trace m g = kept-Keeps c trace m (m, []) g refl tt

stored-Keeps :
    (c : FrameCodec) (trace : List Event) (t : ReplicaId) (n : ℕ) (s : VoteOutSession)
    (m m' : Manager) (tasks : List Task)
    → IsGood trace (core m)
    → core m' ≡ record (core m) { out_sessions = put (t, n) s m.out_sessions }
    → Fine trace m.self t s
    → All (IsDue c trace m.self) tasks
    → Keeps c trace (core m) (m', tasks)
unfolding core
stored-Keeps c trace t n s m m' tasks g e v due = record {
  good = subst (IsGood trace) (sym e) (put-IsGood trace (core m) t n s g v);
  same_self = subst (λ (k : Core). k.self ≡ m.self) (sym e) refl;
  changed = inl (subst (λ (k : Core). k.members ≡ m.members) (sym e) refl);
  due = due;
}

open_vote_out-Keeps :
    (c : FrameCodec) (trace : List Event) (t : ReplicaId) (s : VoteOutSession) (m : Manager)
    (tasks : List Task)
    → IsGood trace (core m)
    → Fine trace m.self t s
    → All (IsDue c trace m.self) tasks
    → Keeps c trace (core m) (open_vote_out t s m, tasks)
unfolding open_vote_out core
open_vote_out-Keeps c trace t s m tasks g v due =
    stored-Keeps c trace t m.next_session s m (open_vote_out t s m) tasks g refl v due

change_out-Keeps :
    (c : FrameCodec) (trace : List Event) (t : ReplicaId) (n : ℕ)
    (f : VoteOutSession → VoteOutSession) (m : Manager) (tasks : List Task)
    → IsGood trace (core m)
    → ((s : VoteOutSession) → Fine trace m.self t s → Fine trace m.self t (f s))
    → All (IsDue c trace m.self) tasks
    → Keeps c trace (core m) (change_out t n f m, tasks)
unfolding change_out core
change_out-Keeps c trace t n f m tasks g h due = elim (Option-cases (get (t, n) m.out_sessions)) [
  | inl q ↦ rw (change_out, q) (kept-Keeps c trace m (m, tasks) g refl due)
  | inr (s, q) ↦
      rw (change_out, q)
        (stored-Keeps c trace t n (f s) m
          (record m { out_sessions = put (t, n) (f s) m.out_sessions }) tasks g refl
          (h s (g.fine t n s q)) due)
]

ack_out-Fine :
    (trace : List Event) (self t r : ReplicaId) (s : VoteOutSession)
    → Backer trace self t r
    → Fine trace self t s
    → Fine trace self t (ack_out r s)
ack_out-Fine trace self t r s b (v, ne) = (ack_out-IsTallied trace self t r s b v, ne)

mark_out-Fine :
    (trace : List Event) (self t r : ReplicaId) (b : Bool) (s : VoteOutSession)
    → (b ≡ true → Backer trace self t r)
    → Fine trace self t s
    → Fine trace self t (mark_out b r s)
unfolding mark_out
mark_out-Fine trace self t r true s b (v, ne) = (ack_out-IsTallied trace self t r s (b refl) v, ne)
mark_out-Fine trace self t r false s b (v, ne) = (nack_out-IsTallied trace self t r s v, ne)

new_vote_out_session-Fine :
    (trace : List Event) (t r : ReplicaId) (m : Manager)
    → Happened trace (listing m.members)
    → t ≢ m.self
    → Backer trace m.self t r
    → Fine trace m.self t (ack_out r (new_vote_out_session t m.members))
new_vote_out_session-Fine trace t r m l ne b =
    ack_out-Fine trace m.self t r (new_vote_out_session t m.members) b
      (new_vote_out_session-IsTallied trace m.self t m.members l, ne)

abbrev pub OnOk {ℓ} : (Section → Type ℓ) → Result VoteError Section → Type ℓ
OnOk P (err e) = Unit
OnOk P (ok out) = P out

begin_vote_out-Keeps :
    (c : FrameCodec) (trace : List Event) (t : ReplicaId) (o : Option ℕ) (m : Manager)
    → IsGood trace (core m)
    → Happened trace (listing m.members)
    → t ≢ m.self
    → OnOk (Keeps c trace (core m)) (begin_vote_out t o m)
unfolding begin_vote_out
begin_vote_out-Keeps c trace t (some n) m g l ne = tt
begin_vote_out-Keeps c trace t none m g l ne =
    open_vote_out-Keeps c trace t _ m _ g
      (new_vote_out_session-Fine trace t m.self m l ne (inl refl)) (tt, tt)

pub vote_out-Keeps :
    (c : FrameCodec) (trace : List Event) (t : ReplicaId) (m : Manager)
    → IsGood trace (core m)
    → Happened trace (listing m.members)
    → OnOk (Keeps c trace (core m)) (vote_out t m)
unfolding vote_out
vote_out-Keeps c trace t m g l =
    by_ite (OnOk (Keeps c trace (core m))) (Bytes-discrete t m.self) _ _ (λ p. tt)
      λ ne.
        by_if (OnOk (Keeps c trace (core m))) (not (is_member m.members t)) _ _ (λ p. tt)
          λ p.
            by_if (OnOk (Keeps c trace (core m))) (not (in_majority m)) _ _ (λ p. tt)
              λ p. begin_vote_out-Keeps c trace t (get t m.vote_outs) m g l ne

join_vote_out-Keeps :
    (c : FrameCodec) (trace : List Event) (t sender : ReplicaId) (o : Option ℕ) (m : Manager)
    → IsGood trace (core m)
    → Happened trace (listing m.members)
    → t ≢ m.self
    → Happened trace (backs sender t)
    → Keeps c trace (core m) (join_vote_out t sender o m)
unfolding join_vote_out
join_vote_out-Keeps c trace t sender none m g l ne b =
    open_vote_out-Keeps c trace t _ m _ g (new_vote_out_session-Fine trace t sender m l ne (inr b))
      (tt, tt)
join_vote_out-Keeps c trace t sender (some n) m g l ne b =
    change_out-Keeps c trace t n (ack_out sender) m _ g
      (λ s v. ack_out-Fine trace m.self t sender s (inr b) v) (tt, tt)

pub handle_vote_out-Keeps :
    (c : FrameCodec) (trace : List Event) (o : Option ReplicaId) (sender : ReplicaId) (m : Manager)
    → IsGood trace (core m)
    → Happened trace (listing m.members)
    → ((t : ReplicaId) → o ≡ some t → Happened trace (backs sender t))
    → Keeps c trace (core m) (handle_vote_out c o sender m)
unfolding handle_vote_out
handle_vote_out-Keeps c trace none sender m g l b = same-Keeps c trace m g
handle_vote_out-Keeps c trace (some t) sender m g l b =
    by_ite (Keeps c trace (core m)) (Bytes-discrete t m.self) _ _
      (λ p. kept-Keeps c trace m (_, []) g (async_send-core _ m) tt)
      λ ne.
        by_ite (Keeps c trace (core m)) (Bytes-discrete sender m.self) _ _
          (λ p. same-Keeps c trace m g)
          λ p.
            by_if (Keeps c trace (core m)) (not (is_member m.members t)) _ _
              (λ p. same-Keeps c trace m g)
              λ p. join_vote_out-Keeps c trace t sender (get t m.vote_outs) m g l ne (b t refl)

pub cast_vote_out-Keeps :
    (c : FrameCodec) (trace : List Event) (t : ReplicaId) (n : ℕ) (b : Bool) (m : Manager)
    → IsGood trace (core m)
    → Keeps c trace (core m) (cast_vote_out t n b m)
unfolding cast_vote_out
cast_vote_out-Keeps c trace t n b m g =
    change_out-Keeps c trace t n (mark_out b m.self) m _ g
      (λ s v. mark_out-Fine trace m.self t m.self b s (λ e. inl refl) v) (tt, (tt, tt))

pub count_vote_out-Keeps :
    (c : FrameCodec) (trace : List Event) (t : ReplicaId) (n : ℕ) (b : Bool) (r : ReplicaId)
    (m : Manager)
    → IsGood trace (core m)
    → IsDue c trace m.self (Task.count_out t n b r)
    → Keeps c trace (core m) (count_vote_out t n b r m)
unfolding count_vote_out
count_vote_out-Keeps c trace t n true r m g d =
    change_out-Keeps c trace t n (mark_out true r) m _ g
      (λ s v. mark_out-Fine trace m.self t r true s (λ e. inr d) v) (tt, tt)
count_vote_out-Keeps c trace t n false r m g d =
    change_out-Keeps c trace t n (mark_out false r) m _ g
      (λ s v. mark_out-Fine trace m.self t r false s (λ e. cc) v) (tt, tt)

pub finish_vote_out-Keeps :
    (c : FrameCodec) (trace : List Event) (t : ReplicaId) (n : ℕ) (o : Option VoteError)
    (m : Manager)
    → IsGood trace (core m)
    → Keeps c trace (core m) (finish_vote_out t n o m, [])
unfolding finish_vote_out core
finish_vote_out-Keeps c trace t n o m g = elim (Option-cases (get (t, n) m.out_sessions)) [
  | inl q ↦ rw (finish_vote_out, q) (same-Keeps c trace m g)
  | inr (s, q) ↦ elim (Option-cases s.outcome) [
    | inr (o', p) ↦ rw (finish_vote_out, q, p) (same-Keeps c trace m g)
    | inl p ↦
        let (v, ne) = g.fine t n s q in
        rw (finish_vote_out, q, p)
          (stored-Keeps c trace t n (record s { outcome = some o }) m _ [] g refl
            (record { started = v.started; distinct = v.distinct; backed = v.backed }, ne) tt)
  ]
]
