-- ===== src/Manager/Tasks.antt =====
-- What each part of a goroutine of membership/ keeps.
use comlink.Common.{
  ℕ, ◌≡◌, refl, ◌∙◌, ap, inl, inr, true, false, Bool, some, List, [], ◌∷◌, ◌++◌, by_if, by_if_set,
}
use comlink.Common.Assoc.{Bytes, bytes_key, index_key, get}
use comlink.Common.Result.{Result-cases}
use comlink.Frame.{FrameCodec, Decoded, unmarshal, marshal_vote_out, marshal_vote_in}
use comlink.Failure.{is_suspected}
use comlink.Messages.{ReplicaId}
use comlink.Manager.{
  Manager, Task, Section, clear_suspicion, note_heard, unsuspect, read_frame, note_vote_sent,
  trim_log, send_vote_out, check_out, remove_out, judge_out, cast_out, reply_out, count_out,
  cancel_out, freeze_out, unwatch, forget_mark, tell_removed, finish_out, send_vote_in, check_in,
  commit_in, count_in, cancel_in, grow_view, watch, tell_added, finish_in,
}
use comlink.Manager.Decisions.{
  check_vote_out-Keeps, cancel_vote_out-Keeps, broadcast_vote_out-Keeps, apply_removal-Keeps,
  tally_out-Keeps, handle_member_add-Keeps,
}
use comlink.Manager.Elections.{
  Happened, Happened-append_left, Happened-append_right, IsGood, IsDue, Keeps, Holds, kept-Keeps,
}
use comlink.Manager.Joins.{
  tally_in-Keeps, cancel_vote_in-Keeps, check_vote_in-Keeps, commit_vote_in-Keeps,
  broadcast_vote_in-Keeps, count_vote_in-Keeps, view-core,
}
use comlink.Manager.Kept.{
  core, handle_suspect_down-core, handle_watermark-core, handle_vote_in-core, effects-core, fd-core,
  suspects-core, tracker-core, maybe_trim-core, reply_vote_out-core, finish_vote_in-core,
}
use comlink.Manager.Pump.{dispatch, dispatch_votes, dispatch_frame, run_task}
use comlink.Manager.Runs.{Event, backs, joins, listing, events_of, backs_of, joins_of, frame_events}
use comlink.Manager.Sections.{
  same-Keeps, handle_vote_out-Keeps, cast_vote_out-Keeps, count_vote_out-Keeps,
  finish_vote_out-Keeps,
}
use comlink.Manager.VoteIn.{addr_of}

backs_of-votes_out :
    (d : Decoded) (sender t : ReplicaId)
    → d.votes_out ≡ some (some t)
    → Happened (events_of d sender) (backs sender t)
backs_of-votes_out d sender t e = rw e (0, refl)

backs_of-acks_out :
    (d : Decoded) (sender t : ReplicaId)
    → d.acks_out ≡ some (some t)
    → Happened (events_of d sender) (backs sender t)
backs_of-acks_out d sender t e =
    Happened-append_left (backs_of sender d.votes_out ++ backs_of sender d.acks_out)
      (joins_of d.adds) (backs sender t)
      (Happened-append_right (backs_of sender d.votes_out) (backs_of sender d.acks_out)
        (backs sender t) (rw e (0, refl)))

joins_of-adds :
    (d : Decoded) (sender t : ReplicaId) (addr : Bytes)
    → d.adds ≡ some (some t, addr)
    → Happened (events_of d sender) (joins t)
joins_of-adds d sender t addr e =
    Happened-append_right (backs_of sender d.votes_out ++ backs_of sender d.acks_out)
      (joins_of d.adds) (joins t) (rw e (0, refl))

dispatch_votes-Keeps :
    (c : FrameCodec) (trace : List Event) (d : Decoded) (sender : ReplicaId) (m : Manager)
    → IsGood trace (core m)
    → Happened trace (listing m.members)
    → Holds trace (events_of d sender)
    → Keeps c trace (core m) (dispatch_votes c d sender m)
unfolding dispatch_votes
dispatch_votes-Keeps c trace d sender m g l h =
    by_if_set Good d.suspects _ _
      (λ t e. kept-Keeps c trace m (_, []) g (handle_suspect_down-core t sender m) tt)
      λ e.
        by_if_set Good d.watermark _ _
          (λ w e. kept-Keeps c trace m (_, []) g (handle_watermark-core w sender m) tt)
          λ e.
            by_if_set Good d.votes_out _ _
              (λ o e.
                handle_vote_out-Keeps c trace o sender m g l
                  (λ t q. h (backs sender t) (backs_of-votes_out d sender t (e ∙ ap some q))))
              λ e.
                by_if_set Good d.acks_out _ _
                  (λ o e.
                    tally_out-Keeps c trace true o sender m g
                      (λ t b q. h (backs sender t) (backs_of-acks_out d sender t (e ∙ ap some q))))
                  λ e.
                    by_if_set Good d.nacks_out _ _
                      (λ o e. tally_out-Keeps c trace false o sender m g (λ t b q. cc b))
                      λ e.
                        by_if_set Good d.votes_in _ _
                          (λ req e.
                            kept-Keeps c trace m (_, []) g (handle_vote_in-core c req.0 sender m)
                              tt)
                          λ e.
                            by_if_set Good d.acks_in _ _
                              (λ o e. tally_in-Keeps c trace true o sender m g)
                              λ e.
                                by_if_set Good d.nacks_in _ _
                                  (λ o e. tally_in-Keeps c trace false o sender m g)
                                  λ e.
                                    by_if_set Good d.adds _ _
                                      (λ req e.
                                        handle_member_add-Keeps c trace req.0 req.1 m g (λ t q.
                                          h (joins t) (
                                            joins_of-adds d sender t req.1
                                              (e ∙ ap (λ o. some (o, req.1)) q))))
                                      λ e. same-Keeps c trace m g
  where
    Good : Section → Type 0
    Good = Keeps c trace (core m)

dispatch-Keeps :
    (c : FrameCodec) (trace : List Event) (room : Bool) (d : Decoded) (sender : ReplicaId)
    (m : Manager)
    → IsGood trace (core m)
    → Happened trace (listing m.members)
    → Holds trace (events_of d sender)
    → Keeps c trace (core m) (dispatch c room d sender m)
unfolding dispatch
dispatch-Keeps c trace room d sender m g l h =
    by_if_set (Keeps c trace (core m)) d.app _ _
      (λ app e.
        by_if (Keeps c trace (core m)) room _ _
          (λ p. kept-Keeps c trace m (_, []) g (effects-core _ m) tt) (λ p. same-Keeps c trace m g))
      λ e.
        by_if (Keeps c trace (core m)) d.heartbeat _ _ (λ p. same-Keeps c trace m g)
          λ p. dispatch_votes-Keeps c trace d sender m g l h

dispatch_frame-Keeps :
    (c : FrameCodec) (trace : List Event) (room : Bool) (payload : Bytes) (sender : ReplicaId)
    (m : Manager)
    → IsGood trace (core m)
    → Happened trace (listing m.members)
    → Holds trace (frame_events c payload sender)
    → Keeps c trace (core m) (dispatch_frame c room payload sender m)
unfolding dispatch_frame
dispatch_frame-Keeps c trace room payload sender m g l h =
    elim (Result-cases (unmarshal c payload)) [
      | inr (x, e) ↦ rw (dispatch_frame, e) (same-Keeps c trace m g)
      | inl (d, e) ↦
          rw (dispatch_frame, e)
            (dispatch-Keeps c trace room d sender m g l (λ ev x. h ev (rw (frame_events, e) x)))
    ]

-- A part that is given a manager with the same core and nothing to do after it.
only_core :
    (c : FrameCodec) (trace : List Event) (m m' : Manager)
    → IsGood trace (core m)
    → core m' ≡ core m
    → Keeps c trace (core m) (m', [])
only_core c trace m m' g e = kept-Keeps c trace m (m', []) g e tt

pub run_task-Keeps :
    (c : FrameCodec) (trace : List Event) (now : ℕ) (flag : Bool) (task : Task) (m : Manager)
    → IsGood trace (core m)
    → Happened trace (listing m.members)
    → IsDue c trace m.self task
    → Keeps c trace (core m) (run_task c now flag task m)
unfolding run_task clear_suspicion
run_task-Keeps c trace now flag (note_heard r) m g l d = only_core c trace m _ g (fd-core _ m)
run_task-Keeps c trace now flag (unsuspect r) m g l d = only_core c trace m _ g (suspects-core _ m)
run_task-Keeps c trace now flag (read_frame payload sender) m g l d =
    dispatch_frame-Keeps c trace flag payload sender m g l d
run_task-Keeps c trace now flag note_vote_sent m g l d = only_core c trace m _ g (fd-core _ m)
run_task-Keeps c trace now flag trim_log m g l d = only_core c trace m _ g (maybe_trim-core m)
run_task-Keeps c trace now flag (send_vote_out t n) m g l d =
    broadcast_vote_out-Keeps c trace flag t n (marshal_vote_out c (some t)) m g
run_task-Keeps c trace now flag (check_out t n) m g l d = check_vote_out-Keeps c trace t n m g
run_task-Keeps c trace now flag (remove_out t n) m g l d = apply_removal-Keeps c trace t n m g d
run_task-Keeps c trace now flag (judge_out t n) m g l d =
    kept-Keeps c trace m (m, cast_out t n (is_suspected m.fd t) ∷ []) g refl (tt, tt)
run_task-Keeps c trace now flag (cast_out t n b) m g l d = cast_vote_out-Keeps c trace t n b m g
run_task-Keeps c trace now flag (reply_out t b) m g l d =
    only_core c trace m _ g (reply_vote_out-core c t b m)
run_task-Keeps c trace now flag (count_out t n b r) m g l d =
    count_vote_out-Keeps c trace t n b r m g d
run_task-Keeps c trace now flag (cancel_out t e) m g l d = cancel_vote_out-Keeps c trace t e m g
run_task-Keeps c trace now flag (freeze_out t) m g l d = only_core c trace m _ g (view-core _ m)
run_task-Keeps c trace now flag (unwatch t) m g l d = only_core c trace m _ g (fd-core _ m)
run_task-Keeps c trace now flag (forget_mark t) m g l d = only_core c trace m _ g (tracker-core _ m)
run_task-Keeps c trace now flag (tell_removed t) m g l d =
    only_core c trace m _ g (effects-core _ m)
run_task-Keeps c trace now flag (finish_out t n o) m g l d = finish_vote_out-Keeps c trace t n o m g
run_task-Keeps c trace now flag (send_vote_in t n) m g l d =
    broadcast_vote_in-Keeps c trace flag t n
      (marshal_vote_in c (some t) (addr_of (get (t, n) m.in_sessions))) m g
run_task-Keeps c trace now flag (check_in t n) m g l d = check_vote_in-Keeps c trace t n m g
run_task-Keeps c trace now flag (commit_in t n) m g l d = commit_vote_in-Keeps c trace t n m g
run_task-Keeps c trace now flag (count_in t n b r) m g l d = count_vote_in-Keeps c trace t n b r m g
run_task-Keeps c trace now flag (cancel_in t e) m g l d = cancel_vote_in-Keeps c trace t e m g
run_task-Keeps c trace now flag (grow_view t) m g l d = only_core c trace m _ g (view-core _ m)
run_task-Keeps c trace now flag (watch t) m g l d = only_core c trace m _ g (fd-core _ m)
run_task-Keeps c trace now flag (tell_added t addr) m g l d =
    only_core c trace m _ g (effects-core _ m)
run_task-Keeps c trace now flag (finish_in t n o) m g l d =
    only_core c trace m _ g (finish_vote_in-core t n o m)
