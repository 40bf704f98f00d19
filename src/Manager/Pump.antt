-- ===== src/Manager/Pump.antt =====
-- The pump of membership/membership.go, its dispatch of what a delivery carries, and what each part of
-- a goroutine does.
use comlink.Common.{ℕ, Bool, true, false, some, List, [], ◌∷◌, if◌then◌else◌, if_set}
use comlink.Common.Assoc.{Bytes, index_key, get}
use comlink.Common.Result.{ok, err}
use comlink.Messages.{ReplicaId, Envelope, sender_of}
use comlink.Failure.{note_received, note_sent, is_suspected, add_member, remove_member}
use comlink.Frame.{FrameCodec, Decoded, unmarshal, marshal_vote_out, marshal_vote_in}
use comlink.Trim.{forget}
use comlink.Manager.{
  Manager, Task, Section, emit, clear_suspicion, handle_suspect_down, handle_watermark, maybe_trim,
  delivered, added, removed, note_heard, unsuspect, read_frame, note_vote_sent, trim_log,
  send_vote_out, check_out, remove_out, judge_out, cast_out, reply_out, count_out, cancel_out,
  freeze_out, unwatch, forget_mark, tell_removed, finish_out, send_vote_in, check_in, commit_in,
  count_in, cancel_in, grow_view, watch, tell_added, finish_in,
}
use comlink.Manager.VoteOut.{
  handle_vote_out, tally_out, broadcast_vote_out, check_vote_out, apply_removal, cast_vote_out,
  reply_vote_out, count_vote_out, cancel_vote_out, finish_vote_out, frozen_view,
}
use comlink.Manager.VoteIn.{
  handle_vote_in, tally_in, handle_member_add, broadcast_vote_in, check_vote_in, commit_vote_in,
  count_vote_in, cancel_vote_in, finish_vote_in, grown_view, addr_of,
}

-- The cases of `dispatch` behind the first, in its order. A field that is not set is passed over.
unfoldable pub dispatch_votes : FrameCodec → Decoded → ReplicaId → Manager → Section
unfolding handle_suspect_down handle_watermark handle_vote_out tally_out handle_vote_in tally_in
    handle_member_add
dispatch_votes c d sender m =
    if_set d.suspects (λ target. (handle_suspect_down target sender m, []))
      (if_set d.watermark (λ w. (handle_watermark w sender m, []))
        (if_set d.votes_out (λ target. handle_vote_out c target sender m)
          (if_set d.acks_out (λ target. (m, tally_out true target sender m))
            (if_set d.nacks_out (λ target. (m, tally_out false target sender m))
              (if_set d.votes_in (λ req. (handle_vote_in c req.0 sender m, []))
                (if_set d.acks_in (λ target. (m, tally_in true target sender m))
                  (if_set d.nacks_in (λ target. (m, tally_in false target sender m))
                    (if_set d.adds (λ req. handle_member_add req.0 req.1 m) (m, [])))))))))

-- `dispatch`. The flag tells whether the application's channel has room.
unfoldable pub dispatch : FrameCodec → Bool → Decoded → ReplicaId → Manager → Section
unfolding dispatch_votes
dispatch c room d sender m =
    if_set d.app (λ app. if room then (emit (delivered sender app) m, []) else (m, []))
      (if d.heartbeat then (m, []) else dispatch_votes c d sender m)

-- `frame.Unmarshal` of a payload, whose error is only logged, and `dispatch`.
unfoldable pub dispatch_frame : FrameCodec → Bool → Bytes → ReplicaId → Manager → Section
unfolding dispatch unmarshal
dispatch_frame c room payload sender m = elim (unmarshal c payload) [
  | err e ↦ (m, [])
  | ok d ↦ dispatch c room d sender m
]

-- What `pump` does with a delivery of the conversation.
unfoldable pub pump : Envelope → List Task
pump env =
    note_heard (sender_of env)
    ∷ unsuspect (sender_of env)
    ∷ read_frame env.payload (sender_of env)
    ∷ []

-- One part of a goroutine. The number is the clock's reading, and the flag tells whether `Send`
-- succeeds, or whether the application's channel has room.
unfoldable pub run_task : FrameCodec → ℕ → Bool → Task → Manager → Section
unfolding dispatch_frame clear_suspicion note_received note_sent maybe_trim broadcast_vote_out
    check_vote_out apply_removal cast_vote_out reply_vote_out count_vote_out cancel_vote_out
    finish_vote_out frozen_view remove_member forget broadcast_vote_in check_vote_in commit_vote_in
    count_vote_in cancel_vote_in finish_vote_in grown_view add_member is_suspected get
run_task c now flag (note_heard r) m = (record m { fd = note_received now r m.fd }, [])
run_task c now flag (unsuspect r) m = (clear_suspicion r m, [])
run_task c now flag (read_frame payload sender) m = dispatch_frame c flag payload sender m
run_task c now flag note_vote_sent m = (record m { fd = note_sent now m.fd }, [])
run_task c now flag trim_log m = (maybe_trim m, [])
run_task c now flag (send_vote_out t n) m =
    broadcast_vote_out flag t n (marshal_vote_out c (some t)) m
run_task c now flag (check_out t n) m = (m, check_vote_out t n m)
run_task c now flag (remove_out t n) m = apply_removal t n m
run_task c now flag (judge_out t n) m = (m, cast_out t n (is_suspected m.fd t) ∷ [])
run_task c now flag (cast_out t n b) m = cast_vote_out t n b m
run_task c now flag (reply_out t b) m = (reply_vote_out c t b m, [])
run_task c now flag (count_out t n b r) m = count_vote_out t n b r m
run_task c now flag (cancel_out t e) m = cancel_vote_out t e m
run_task c now flag (freeze_out t) m = (record m { view = frozen_view m.view t }, [])
run_task c now flag (unwatch t) m = (record m { fd = remove_member t m.fd }, [])
run_task c now flag (forget_mark t) m = (record m { tracker = forget m.tracker t }, [])
run_task c now flag (tell_removed t) m = (emit (removed t) m, [])
run_task c now flag (finish_out t n o) m = (finish_vote_out t n o m, [])
run_task c now flag (send_vote_in t n) m =
    broadcast_vote_in flag t n (marshal_vote_in c (some t) (addr_of (get (t, n) m.in_sessions))) m
run_task c now flag (check_in t n) m = check_vote_in t n m
run_task c now flag (commit_in t n) m = commit_vote_in c t n m
run_task c now flag (count_in t n b r) m = count_vote_in t n b r m
run_task c now flag (cancel_in t e) m = cancel_vote_in t e m
run_task c now flag (grow_view t) m = (record m { view = grown_view m.view t }, [])
run_task c now flag (watch t) m = (record m { fd = add_member now t m.fd }, [])
run_task c now flag (tell_added t addr) m = (emit (added t addr) m, [])
run_task c now flag (finish_in t n o) m = (finish_vote_in t n o m, [])
