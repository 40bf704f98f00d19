-- ===== src/Manager/Decisions.antt =====
-- The decision on a removal of membership/voteout.go, and the changes of the list that follow a vote.
use comlink.Common.{
  ℕ, ◌+◌, ◌-◌, ◌/◌, ◌<◌, ◌≡◌, ◌≢◌, refl, ◌∙◌, inl, inr, true, false, Bool, Option, some, none, List,
  [], ◌∷◌, ◌++◌, arith, by_if, by_ite, Option-cases, Bool-cases, All, length, ltb,
}
use comlink.Common.Assoc.{Bytes, Bytes-discrete, bytes_key, index_key, get}
use comlink.Common.Result.{Result, ok, err}
use comlink.Frame.{FrameCodec, FrameError}
use comlink.Messages.{ReplicaId}
use comlink.Manager.{Manager, VoteOutSession, VoteError, is_member}
use comlink.Manager.Elections.{
  Happened, IsElected, IsTallied, IsGood, IsDue, Keeps, is_member-without, kept-Keeps,
}
use comlink.Manager.Kept.{core, effects-core}
use comlink.Manager.Runs.{Event, backs, joins}
use comlink.Manager.Sections.{same-Keeps}
use comlink.Manager.VoteOut.{
  cancel_vote_out, check_vote_out, apply_removal, broadcast_vote_out, tally_out, needed_out,
}
use comlink.Manager.VoteIn.{apply_member_add, handle_member_add, ends_vote_in}

half_lt : (a b : ℕ) → ltb a (b / 2 + 1) ≡ false → b < a + a
half_lt a b h = ground (arith, h)

IsTallied-IsElected :
    (trace : List Event) (self t : ReplicaId) (s : VoteOutSession)
    → IsTallied trace self t s
    → ltb (length s.acked_by) (needed_out s) ≡ false
    → IsElected trace self t
IsTallied-IsElected trace self t s v h = record {
  electorate = s.members_at_start;
  backers = s.acked_by;
  were_listed = v.started;
  distinct = v.distinct;
  backed = v.backed;
  majority = half_lt (length s.acked_by) (length s.members_at_start - 1) h;
}

pub check_vote_out-Keeps :
    (c : FrameCodec) (trace : List Event) (t : ReplicaId) (n : ℕ) (m : Manager)
    → IsGood trace (core m)
    → Keeps c trace (core m) (m, check_vote_out t n m)
unfolding check_vote_out core
check_vote_out-Keeps c trace t n m g =
    kept-Keeps c trace m _ g refl (elim (Option-cases (get (t, n) m.out_sessions)) [
      | inl q ↦ rw (check_vote_out, q) tt
      | inr (s, q) ↦
          let (v, ne) = g.fine t n s q in
          rw (check_vote_out, q)
            (by_if (All (IsDue c trace m.self)) (ltb 0 (length s.nacked_by)) _ _ (λ p. (tt, tt))
              λ p.
                by_if (All (IsDue c trace m.self)) (ltb (length s.acked_by) (needed_out s)) _ _
                  (λ p. tt) λ p. ((ne, IsTallied-IsElected trace m.self t s v p), tt))
    ])

pub cancel_vote_out-Keeps :
    (c : FrameCodec) (trace : List Event) (t : ReplicaId) (e : VoteError) (m : Manager)
    → IsGood trace (core m)
    → Keeps c trace (core m) (cancel_vote_out t e m)
unfolding cancel_vote_out core
cancel_vote_out-Keeps c trace t e m g = elim (Option-cases (get t m.vote_outs)) [
  | inl q ↦ rw (cancel_vote_out, q) (same-Keeps c trace m g)
  | inr (n, q) ↦ rw (cancel_vote_out, q) (kept-Keeps c trace m _ g refl (tt, tt))
]

pub broadcast_vote_out-Keeps :
    (c : FrameCodec) (trace : List Event) (flag : Bool) (t : ReplicaId) (n : ℕ)
    (r : Result FrameError Bytes) (m : Manager)
    → IsGood trace (core m)
    → Keeps c trace (core m) (broadcast_vote_out flag t n r m)
unfolding broadcast_vote_out
broadcast_vote_out-Keeps c trace flag t n (err e) m g = kept-Keeps c trace m _ g refl (tt, tt)
broadcast_vote_out-Keeps c trace true t n (ok b) m g =
    kept-Keeps c trace m _ g (effects-core _ m) (tt, (tt, tt))
broadcast_vote_out-Keeps c trace false t n (ok b) m g = kept-Keeps c trace m _ g refl (tt, tt)

pub apply_removal-Keeps :
    (c : FrameCodec) (trace : List Event) (t : ReplicaId) (n : ℕ) (m : Manager)
    → IsGood trace (core m)
    → (t ≢ m.self) × IsElected trace m.self t
    → Keeps c trace (core m) (apply_removal t n m)
unfolding apply_removal core
apply_removal-Keeps c trace t n m g (ne, elected) = record {
  good = record { listed = is_member-without t m.self m.members ne ∙ g.listed; fine = g.fine };
  same_self = refl;
  changed = inr (inl (t, refl, ne, elected));
  due = (tt, (tt, (tt, (tt, (tt, (tt, (tt, tt)))))));
}

pub tally_out-Keeps :
    (c : FrameCodec) (trace : List Event) (b : Bool) (o : Option ReplicaId) (sender : ReplicaId)
    (m : Manager)
    → IsGood trace (core m)
    → ((t : ReplicaId) → b ≡ true → o ≡ some t → Happened trace (backs sender t))
    → Keeps c trace (core m) (m, tally_out b o sender m)
unfolding tally_out
tally_out-Keeps c trace b none sender m g h = same-Keeps c trace m g
tally_out-Keeps c trace true (some t) sender m g h = elim (Option-cases (get t m.vote_outs)) [
  | inl q ↦ rw (tally_out, q) (same-Keeps c trace m g)
  | inr (n, q) ↦ rw (tally_out, q) (kept-Keeps c trace m _ g refl (h t refl refl, tt))
]
tally_out-Keeps c trace false (some t) sender m g h = elim (Option-cases (get t m.vote_outs)) [
  | inl q ↦ rw (tally_out, q) (same-Keeps c trace m g)
  | inr (n, q) ↦ rw (tally_out, q) (kept-Keeps c trace m _ g refl (tt, tt))
]

is_member-append :
    (r : ReplicaId) (ms ns : List ReplicaId) → is_member ms r ≡ true → is_member (ms ++ ns) r ≡ true
unfolding is_member
is_member-append r [] ns h = cc
is_member-append r (m ∷ ms) ns h = ground (arith, is_member-append r ms ns)

ends_vote_in-IsDue :
    (c : FrameCodec) (trace : List Event) (self t : ReplicaId) (o : Option ℕ)
    → All (IsDue c trace self) (ends_vote_in t o)
ends_vote_in-IsDue c trace self t none = tt
ends_vote_in-IsDue c trace self t (some n) = (tt, tt)

apply_member_add-Keeps :
    (c : FrameCodec) (trace : List Event) (t : ReplicaId) (addr : Bytes) (m : Manager)
    → IsGood trace (core m)
    → t ≢ m.self
    → Happened trace (joins t)
    → Keeps c trace (core m) (apply_member_add t addr m)
unfolding apply_member_add core
apply_member_add-Keeps c trace t addr m g ne b = elim (Bool-cases (is_member m.members t)) [
  | inl p ↦ rw (apply_member_add, p) (same-Keeps c trace m g)
  | inr p ↦
      rw (apply_member_add, p)
        (record {
          good = record {
            listed = is_member-append m.self m.members (t ∷ []) g.listed;
            fine = g.fine;
          };
          same_self = refl;
          changed = inr (inr (t, refl, ne, p, b));
          due = (tt, (tt, (tt, ends_vote_in-IsDue c trace m.self t (get t m.vote_ins))));
        })
]

pub handle_member_add-Keeps :
    (c : FrameCodec) (trace : List Event) (o : Option ReplicaId) (addr : Bytes) (m : Manager)
    → IsGood trace (core m)
    → ((t : ReplicaId) → o ≡ some t → Happened trace (joins t))
    → Keeps c trace (core m) (handle_member_add o addr m)
unfolding handle_member_add
handle_member_add-Keeps c trace none addr m g b = same-Keeps c trace m g
handle_member_add-Keeps c trace (some t) addr m g b =
    by_ite (Keeps c trace (core m)) (Bytes-discrete t m.self) _ _ (λ p. same-Keeps c trace m g)
      λ ne. apply_member_add-Keeps c trace t addr m g ne (b t refl)
