-- ===== src/Manager/VoteOut.antt =====
-- membership/voteout.go: voting a replica out, one part of a goroutine at a time.
use comlink.Common.{
  ℕ, ◌+◌, ◌-◌, ◌/◌, Bool, true, false, not, Option, none, some, List, [], ◌∷◌, ltb, if◌then◌else◌,
  ite, length,
}
use comlink.Common.Assoc.{Bytes, Bytes-discrete, bytes_key, index_key, get, put, delete}
use comlink.Common.Result.{Result, ok, err}
use comlink.Messages.{ReplicaId}
use comlink.Failure.{without}
use comlink.Frame.{FrameCodec, FrameError, marshal_vote_out_ack, marshal_vote_out_nack}
use comlink.Manager.{
  Manager, VoteOutSession, VoteError, Task, Section, emit, async_send, is_member, in_majority,
  target_is_self, target_not_member, partition_minority, in_progress, nacked, broadcast_failed,
  sent, vote_out_ended, note_vote_sent, trim_log, unsuspect, send_vote_out, check_out, remove_out,
  judge_out, reply_out, count_out, cancel_out, freeze_out, unwatch, forget_mark, tell_removed,
  finish_out,
}
use comlink.Psync.Membership.{Membership, freeze}

unfoldable pub new_vote_out_session : ReplicaId → List ReplicaId → VoteOutSession
new_vote_out_session target members = record {
  target = target;
  members_at_start = members;
  acked_by = [];
  nacked_by = [];
  outcome = none;
}

-- A session that is made and put into the map.
unfoldable pub open_vote_out : ReplicaId → VoteOutSession → Manager → Manager
unfolding put
open_vote_out target s m = record m {
  vote_outs = put target m.next_session m.vote_outs;
  out_sessions = put (target, m.next_session) s m.out_sessions;
  next_session = m.next_session + 1;
}

-- A session that is changed through its pointer.
unfoldable pub change_out : ReplicaId → ℕ → (VoteOutSession → VoteOutSession) → Manager → Manager
unfolding get put
change_out target n f m = elim (get (target, n) m.out_sessions) [
  | none ↦ m
  | some s ↦ record m { out_sessions = put (target, n) (f s) m.out_sessions }
]

unfoldable pub ack_out : ReplicaId → VoteOutSession → VoteOutSession
unfolding put
ack_out r s = record s { acked_by = put r tt s.acked_by }

unfoldable pub nack_out : ReplicaId → VoteOutSession → VoteOutSession
unfolding put
nack_out r s = record s { nacked_by = put r tt s.nacked_by }

-- The vote of `r`.
unfoldable pub mark_out : Bool → ReplicaId → VoteOutSession → VoteOutSession
unfolding ack_out nack_out
mark_out true r s = ack_out r s
mark_out false r s = nack_out r s

-- `cancelSession` up to its `done`.
unfoldable pub cancel_vote_out : ReplicaId → VoteError → Manager → Section
unfolding get delete
cancel_vote_out target e m = elim (get target m.vote_outs) [
  | none ↦ (m, [])
  | some n ↦ (record m { vote_outs = delete target m.vote_outs }, finish_out target n (some e) ∷ [])
]

-- `done.Do`, which lets the first outcome through.
unfoldable pub finish_vote_out : ReplicaId → ℕ → Option VoteError → Manager → Manager
unfolding get put
finish_vote_out target n o m = elim (get (target, n) m.out_sessions) [
  | none ↦ m
  | some s ↦ elim s.outcome [
    | some o' ↦ m
    | none ↦
        emit (vote_out_ended target o) (record m {
          out_sessions = put (target, n) (record s { outcome = some o }) m.out_sessions;
        })
  ]
]

-- The strict majority of the voters, who are the members at the start without the target.
abbrev pub needed_out : VoteOutSession → ℕ
needed_out s = (length s.members_at_start - 1) / 2 + 1

-- `checkVoteOutDecision` as long as it holds the mutex of the session.
unfoldable pub check_vote_out : ReplicaId → ℕ → Manager → List Task
unfolding get
check_vote_out target n m = elim (get (target, n) m.out_sessions) [
  | none ↦ []
  | some s ↦
      if ltb 0 (length s.nacked_by)
      then cancel_out target nacked ∷ []
      else if ltb (length s.acked_by) (needed_out s)
      then []
      else remove_out target n ∷ []
]

-- The removal from the list, and what the goroutine does after it.
unfoldable pub apply_removal : ReplicaId → ℕ → Manager → Section
unfolding without delete
apply_removal target n m = (
  record m { vote_outs = delete target m.vote_outs; members = without target m.members },
  freeze_out target
      ∷ unwatch target
      ∷ unsuspect target
      ∷ forget_mark target
      ∷ trim_log
      ∷ tell_removed target
      ∷ finish_out target n none
      ∷ [],
)

-- `conv.FreezeMember`: its error is only logged.
unfoldable pub frozen_view : Membership → ReplicaId → Membership
unfolding freeze
frozen_view view r = elim (freeze view r) [ err e ↦ view | ok view' ↦ view' ]

-- `broadcastVoteOut`. The flag tells whether `Send` succeeds.
unfoldable pub broadcast_vote_out :
    Bool → ReplicaId → ℕ → Result FrameError Bytes → Manager → Section
broadcast_vote_out send_ok target n (err e) m = (m, cancel_out target broadcast_failed ∷ [])
broadcast_vote_out send_ok target n (ok bytes) m =
    if send_ok
    then (emit (sent bytes) m, note_vote_sent ∷ check_out target n ∷ [])
    else (m, cancel_out target broadcast_failed ∷ [])

-- `VoteOut` behind its other guards, with the session that may be there.
unfoldable pub begin_vote_out : ReplicaId → Option ℕ → Manager → Result VoteError Section
unfolding open_vote_out ack_out new_vote_out_session
begin_vote_out target (some n) m = err in_progress
begin_vote_out target none m = ok (
  open_vote_out target (ack_out m.self (new_vote_out_session target m.members)) m,
  send_vote_out target m.next_session ∷ [],
)

-- `VoteOut` as long as it holds the mutex: an error that it returns at once, or the vote that it has
-- begun, of which the wait is not a part.
unfoldable pub vote_out : ReplicaId → Manager → Result VoteError Section
unfolding begin_vote_out is_member in_majority get
vote_out target m = ite (Bytes-discrete target m.self) (err target_is_self) (
    if not (is_member m.members target)
    then err target_not_member
    else if not (in_majority m)
    then err partition_minority
    else begin_vote_out target (get target m.vote_outs) m)

-- The part of `handleVoteOut` that finds or makes the session and records the initiator's ack.
unfoldable pub join_vote_out : ReplicaId → ReplicaId → Option ℕ → Manager → Section
unfolding open_vote_out change_out ack_out new_vote_out_session
join_vote_out target sender none m = (
  open_vote_out target (ack_out sender (new_vote_out_session target m.members)) m,
  judge_out target m.next_session ∷ [],
)
join_vote_out target sender (some n) m =
    (change_out target n (ack_out sender) m, judge_out target n ∷ [])

unfoldable pub handle_vote_out : FrameCodec → Option ReplicaId → ReplicaId → Manager → Section
unfolding join_vote_out is_member async_send get
handle_vote_out c none sender m = (m, [])
handle_vote_out c (some target) sender m =
    ite (Bytes-discrete target m.self) (async_send (marshal_vote_out_nack c (some target)) m, [])
      (ite (Bytes-discrete sender m.self) (m, [])
        (if not (is_member m.members target)
          then (m, [])
          else join_vote_out target sender (get target m.vote_outs) m))

-- The replica's own vote, and the answer that it sends.
unfoldable pub cast_vote_out : ReplicaId → ℕ → Bool → Manager → Section
unfolding change_out mark_out
cast_vote_out target n b m =
    (change_out target n (mark_out b m.self) m, reply_out target b ∷ check_out target n ∷ [])

unfoldable pub reply_vote_out : FrameCodec → ReplicaId → Bool → Manager → Manager
unfolding async_send
reply_vote_out c target true m = async_send (marshal_vote_out_ack c (some target)) m
reply_vote_out c target false m = async_send (marshal_vote_out_nack c (some target)) m

-- `handleVoteOutAck` and `handleVoteOutNack`, which differ in the flag: they find the session.
unfoldable pub tally_out : Bool → Option ReplicaId → ReplicaId → Manager → List Task
unfolding get
tally_out b none sender m = []
tally_out b (some target) sender m = elim (get target m.vote_outs) [
  | none ↦ []
  | some n ↦ count_out target n b sender ∷ []
]

-- Then they count the vote, and check.
unfoldable pub count_vote_out : ReplicaId → ℕ → Bool → ReplicaId → Manager → Section
unfolding change_out mark_out
count_vote_out target n b sender m =
    (change_out target n (mark_out b sender) m, check_out target n ∷ [])
