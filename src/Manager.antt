-- ===== src/Manager.antt =====
-- membership/membership.go: the manager of a conversation's membership, which votes replicas out and
-- in, notes suspicions, and trims the log. Its goroutines hold the mutex for a part of a method at a
-- time; a `Task` is such a part, and a goroutine is the list of those that it still has to run. The
-- detector, the tracker, the log and the conversation's view of the members are those of the other
-- parts; what the manager sends, and whom it tells what, is recorded in `effects` in order.
pub mod VoteOut
pub mod VoteIn
pub mod Pump
pub mod Runs
pub mod Kept
pub mod Elections
pub mod Sections
pub mod Decisions
pub mod Joins
pub mod Tasks
pub mod Later
pub mod Histories
pub mod Steps
pub mod Guards
pub mod Trimming
use comlink.Common.{
  ℕ, ◌+◌, ◌-◌, ◌*◌, ◌/◌, Bool, true, false, not, ◌||◌, Option, none, some, List, [], ◌∷◌, ◌++◌, ltb,
  leb, ◌==◌, if◌then◌else◌, ite, length,
}
use comlink.Common.Assoc.{Assoc, IndexKey, Bytes, Bytes-discrete, bytes_key, get, put, delete}
use comlink.Common.Result.{Result, ok, err}
use comlink.Messages.{ReplicaId, Envelope}
use comlink.Failure.{Detector, without, note_sent, note_received}
use comlink.Frame.{
  FrameCodec, FrameError, Watermark, marshal_watermark, marshal_heartbeat, marshal_suspect_down,
}
use comlink.Log.{Log, LogError, truncate}
use comlink.Psync.Membership.{Membership}
use comlink.Trim.{Mark, Tracker, update, update_applied, safe_frontier}

abbrev pub Names : Type 0
Names = Assoc Bytes (Unit {0})

-- The errors of `VoteOut` and of `VoteIn`; `cancelled` is that of a context.
pub data VoteError : Type 0 where
  target_is_self target_not_member target_already_member : VoteError
  partition_minority in_progress nacked timed_out cancelled broadcast_failed : VoteError

-- `outcome` is what `done` has let through: no error, or one.
pub record VoteOutSession : Type 0 where
  pub target : ReplicaId
  pub members_at_start : List ReplicaId
  pub acked_by : Names
  pub nacked_by : Names
  pub outcome : Option (Option VoteError)

pub record VoteInSession : Type 0 where
  pub target : ReplicaId
  pub addr : Bytes
  pub members_at_start : List ReplicaId
  pub acked_by : Names
  pub nacked_by : Names
  pub committed : Bool
  pub outcome : Option (Option VoteError)

-- What a goroutine does between two points at which others may run. A session is pointed to by its
-- target and its serial number. A flag tells an ack (true) from a nack.
pub data Task : Type 0 where
  note_heard unsuspect : ReplicaId → Task
  read_frame : Bytes → ReplicaId → Task
  note_vote_sent trim_log : Task
  send_vote_out check_out remove_out judge_out : ReplicaId → ℕ → Task
  cast_out : ReplicaId → ℕ → Bool → Task
  reply_out : ReplicaId → Bool → Task
  count_out : ReplicaId → ℕ → Bool → ReplicaId → Task
  cancel_out : ReplicaId → VoteError → Task
  freeze_out unwatch forget_mark tell_removed : ReplicaId → Task
  finish_out : ReplicaId → ℕ → Option VoteError → Task
  send_vote_in check_in commit_in : ReplicaId → ℕ → Task
  count_in : ReplicaId → ℕ → Bool → ReplicaId → Task
  cancel_in : ReplicaId → VoteError → Task
  grow_view watch : ReplicaId → Task
  tell_added : ReplicaId → Bytes → Task
  finish_in : ReplicaId → ℕ → Option VoteError → Task

-- What leaves the manager: a frame for `Conversation.Send`, a message for the application, a call of
-- `OnMembershipChange`, and the end of a vote with its error, which wakes its caller.
pub data Effect : Type 0 where
  sent : Bytes → Effect
  delivered : ReplicaId → Bytes → Effect
  added : ReplicaId → Bytes → Effect
  removed : ReplicaId → Effect
  vote_out_ended : ReplicaId → Option VoteError → Effect
  vote_in_ended : ReplicaId → Option VoteError → Effect

-- `vote_outs` and `vote_ins` are the maps of the open votes, with the serial numbers of their sessions.
-- A session that has left its map lives on, as long as a goroutine points to it.
pub record Manager : Type 0 where
  pub self : ReplicaId
  pub members : List ReplicaId
  pub suspects : Names
  pub vote_outs : Assoc Bytes ℕ
  pub vote_ins : Assoc Bytes ℕ
  pub out_sessions : Assoc IndexKey VoteOutSession
  pub in_sessions : Assoc IndexKey VoteInSession
  pub next_session : ℕ
  pub tracker : Tracker
  pub fd : Detector
  pub log : Option Log
  pub view : Membership
  pub initial_group_size : ℕ
  pub closed : Bool
  pub effects : List Effect

-- What a task leaves: the manager, and what the same goroutine does next.
abbrev pub Section : Type 0
Section = Manager × List Task

abbrev pub emit : Effect → Manager → Manager
emit e m = record m { effects = m.effects ++ e ∷ [] }

-- A goroutine with `asyncSend`, up to its call of `Send`; the `NoteSent` that follows is a step of its
-- own. Bytes that could not be marshalled are only logged.
unfoldable pub async_send : Result FrameError Bytes → Manager → Manager
async_send (err e) m = m
async_send (ok bytes) m = if m.closed then m else emit (sent bytes) m

unfoldable pub is_member : List ReplicaId → ReplicaId → Bool
is_member [] r = false
is_member (mem ∷ ms) r = let rest = is_member ms r in ite (Bytes-discrete mem r) true rest

unfoldable pub in_majority : Manager → Bool
in_majority m = ltb m.initial_group_size (length m.members * 2)

unfoldable pub mark_suspected : ReplicaId → Manager → Manager
unfolding put
mark_suspected r m = ite (Bytes-discrete r m.self) m (record m { suspects = put r tt m.suspects })

unfoldable pub clear_suspicion : ReplicaId → Manager → Manager
unfolding delete
clear_suspicion r m = record m { suspects = delete r m.suspects }

-- `handleSuspectDown`.
unfoldable pub handle_suspect_down : Option ReplicaId → ReplicaId → Manager → Manager
unfolding mark_suspected
handle_suspect_down none sender m = m
handle_suspect_down (some target) sender m =
    ite (Bytes-discrete target m.self) m
      (ite (Bytes-discrete target sender) m (mark_suspected target m))

-- `onSuspect`, which the detector calls once for each replica that it begins to suspect.
unfoldable pub on_suspect : FrameCodec → ReplicaId → Manager → Manager
unfolding mark_suspected async_send
on_suspect c r m =
    if m.closed then m else async_send (marshal_suspect_down c (some r)) (mark_suspected r m)

unfoldable pub send_heartbeat : FrameCodec → Manager → Manager
unfolding async_send
send_heartbeat c m = if m.closed then m else async_send (marshal_heartbeat c) m

-- An error of `Truncate` is only logged.
abbrev pub log_or : Log → Result LogError Log → Log
log_or l (err e) = l
log_or l (ok l') = l'

-- The log after the truncation of `maybeTrim`.
unfoldable pub trimmed_log : Log → Option ℕ → Log
unfolding truncate
trimmed_log l none = l
trimmed_log l (some frontier) =
    if leb frontier l.first_offset then l else log_or l (truncate l frontier)

unfoldable pub maybe_trim_log : Tracker → List ReplicaId → Option Log → Option Log
unfolding trimmed_log safe_frontier
maybe_trim_log t active none = none
maybe_trim_log t active (some l) = some (trimmed_log l (safe_frontier t active))

unfoldable pub maybe_trim : Manager → Manager
unfolding maybe_trim_log
maybe_trim m = record m { log = maybe_trim_log m.tracker m.members m.log }

-- The mark that `handleWatermark` reads: a snapshot offset of 0 counts as not set.
abbrev pub mark_in : Watermark → Mark
mark_in w = record {
  applied = w.offset;
  snapshot = if w.snapshot_through_offset == 0 then w.offset else w.snapshot_through_offset;
}

-- `handleWatermark`.
unfoldable pub handle_watermark : Watermark → ReplicaId → Manager → Manager
unfolding maybe_trim update
handle_watermark w sender m =
    let answer = update m.tracker sender (mark_in w) in
    if answer.0 then maybe_trim (record m { tracker = answer.1 }) else m

unfoldable pub advertise : Result FrameError Bytes → Manager → Manager
unfolding maybe_trim async_send
advertise (err e) m = m
advertise (ok bytes) m = maybe_trim (async_send (ok bytes) m)

-- `SetWatermark` with the log that the configuration may lack.
unfoldable pub set_watermark_on : FrameCodec → ℕ → Option Log → Manager → Manager
unfolding advertise update_applied
set_watermark_on c offset none m = m
set_watermark_on c offset (some l) m =
    let answer = update_applied m.tracker m.self offset in
    if not answer.0
    then m
    else advertise (marshal_watermark c offset offset) (record m { tracker = answer.1 })

unfoldable pub set_watermark : FrameCodec → ℕ → Manager → Manager
unfolding set_watermark_on
set_watermark c offset m = set_watermark_on c offset m.log m

-- `Close`: the pump and the detector stop.
unfoldable pub close_manager : Manager → Manager
close_manager m = record m { closed = true }
