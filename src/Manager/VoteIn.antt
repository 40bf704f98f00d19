-- ===== src/Manager/VoteIn.antt =====
-- membership/votein.go: voting a replica in, one part of a goroutine at a time. Only the replica that
-- proposes it keeps a session; all of them add the replica when its `MemberAdd` arrives.
use comlink.Common.{
  ℕ, ◌+◌, ◌/◌, Bool, true, false, not, Option, none, some, List, [], ◌∷◌, ◌++◌, ltb, if◌then◌else◌,
  ite, length,
}
use comlink.Common.Assoc.{Bytes, Bytes-discrete, bytes_key, index_key, get, put, delete}
use comlink.Common.Result.{Result, ok, err}
use comlink.Messages.{ReplicaId}
use comlink.Frame.{FrameCodec, FrameError, marshal_vote_in_ack, marshal_member_add}
use comlink.Manager.{
  Manager, VoteInSession, VoteError, Task, Section, emit, async_send, is_member, in_majority,
  target_is_self, target_already_member, partition_minority, in_progress, nacked, broadcast_failed,
  sent, vote_in_ended, note_vote_sent, send_vote_in, check_in, commit_in, count_in, cancel_in,
  grow_view, watch, tell_added, finish_in,
}
use comlink.Psync.Membership.{Membership, add}

unfoldable pub new_vote_in_session : ReplicaId → Bytes → List ReplicaId → VoteInSession
new_vote_in_session target addr members = record {
  target = target;
  addr = addr;
  members_at_start = members;
  acked_by = [];
  nacked_by = [];
  committed = false;
  outcome = none;
}

-- A session that is made and put into the map.
unfoldable pub open_vote_in : ReplicaId → VoteInSession → Manager → Manager
unfolding put
open_vote_in target s m = record m {
  vote_ins = put target m.next_session m.vote_ins;
  in_sessions = put (target, m.next_session) s m.in_sessions;
  next_session = m.next_session + 1;
}

-- A session that is changed through its pointer.
unfoldable pub change_in : ReplicaId → ℕ → (VoteInSession → VoteInSession) → Manager → Manager
unfolding get put
change_in target n f m = elim (get (target, n) m.in_sessions) [
  | none ↦ m
  | some s ↦ record m { in_sessions = put (target, n) (f s) m.in_sessions }
]

unfoldable pub mark_in_vote : Bool → ReplicaId → VoteInSession → VoteInSession
unfolding put
mark_in_vote true r s = record s { acked_by = put r tt s.acked_by }
mark_in_vote false r s = record s { nacked_by = put r tt s.nacked_by }

-- `cancelVoteInSession` up to its `done`.
unfoldable pub cancel_vote_in : ReplicaId → VoteError → Manager → Section
unfolding get delete
cancel_vote_in target e m = elim (get target m.vote_ins) [
  | none ↦ (m, [])
  | some n ↦ (record m { vote_ins = delete target m.vote_ins }, finish_in target n (some e) ∷ [])
]

-- `done.Do`, which lets the first outcome through.
unfoldable pub finish_vote_in : ReplicaId → ℕ → Option VoteError → Manager → Manager
unfolding get put
finish_vote_in target n o m = elim (get (target, n) m.in_sessions) [
  | none ↦ m
  | some s ↦ elim s.outcome [
    | some o' ↦ m
    | none ↦
        emit (vote_in_ended target o)
          (record m { in_sessions = put (target, n) (record s { outcome = some o }) m.in_sessions })
  ]
]

-- The strict majority of the members at the start, all of whom are voters.
abbrev pub needed_in : VoteInSession → ℕ
needed_in s = length s.members_at_start / 2 + 1

-- `checkVoteInDecision` as long as it holds the mutex of the session.
unfoldable pub check_vote_in : ReplicaId → ℕ → Manager → Section
unfolding get put
check_vote_in target n m = elim (get (target, n) m.in_sessions) [
  | none ↦ (m, [])
  | some s ↦
      if ltb 0 (length s.nacked_by)
      then (m, cancel_in target nacked ∷ [])
      else if s.committed
      then (m, [])
      else if ltb (length s.acked_by) (needed_in s)
      then (m, [])
      else (
        record m { in_sessions = put (target, n) (record s { committed = true }) m.in_sessions },
        commit_in target n ∷ [],
      )
]

-- The broadcast of the `MemberAdd`, behind the decision.
unfoldable pub commit_vote_in : FrameCodec → ReplicaId → ℕ → Manager → Section
unfolding async_send get
commit_vote_in c target n m = elim (get (target, n) m.in_sessions) [
  | none ↦ (m, [])
  | some s ↦ elim (marshal_member_add c (some target) s.addr) [
    | err e ↦ (m, cancel_in target broadcast_failed ∷ [])
    | ok bytes ↦ (async_send (ok bytes) m, [])
  ]
]

-- The address of a session.
abbrev pub addr_of : Option VoteInSession → Bytes
addr_of none = []
addr_of (some s) = s.addr

-- `broadcastVoteIn`. The flag tells whether `Send` succeeds.
unfoldable pub broadcast_vote_in :
    Bool → ReplicaId → ℕ → Result FrameError Bytes → Manager → Section
broadcast_vote_in send_ok target n (err e) m = (m, cancel_in target broadcast_failed ∷ [])
broadcast_vote_in send_ok target n (ok bytes) m =
    if send_ok
    then (emit (sent bytes) m, note_vote_sent ∷ check_in target n ∷ [])
    else (m, cancel_in target broadcast_failed ∷ [])

-- `VoteIn` behind its other guards, with the session that may be there.
unfoldable pub begin_vote_in : ReplicaId → Bytes → Option ℕ → Manager → Result VoteError Section
unfolding open_vote_in mark_in_vote new_vote_in_session
begin_vote_in target addr (some n) m = err in_progress
begin_vote_in target addr none m = ok (
  open_vote_in target (mark_in_vote true m.self (new_vote_in_session target addr m.members)) m,
  send_vote_in target m.next_session ∷ [],
)

-- `VoteIn` as long as it holds the mutex: an error that it returns at once, or the vote that it has
-- begun, of which the wait is not a part.
unfoldable pub vote_in : ReplicaId → Bytes → Manager → Result VoteError Section
unfolding begin_vote_in is_member in_majority get
vote_in target addr m = ite (Bytes-discrete target m.self) (err target_is_self) (
    if is_member m.members target
    then err target_already_member
    else if not (in_majority m)
    then err partition_minority
    else begin_vote_in target addr (get target m.vote_ins) m)

-- `conv.AddMember`: its error is only logged.
unfoldable pub grown_view : Membership → ReplicaId → Membership
unfolding add
grown_view view r = elim (add view r) [ err e ↦ view | ok grown ↦ grown.1 ]

-- The end of the session that the map held, if it held one.
abbrev pub ends_vote_in : ReplicaId → Option ℕ → List Task
ends_vote_in target none = []
ends_vote_in target (some n) = finish_in target n none ∷ []

-- `applyMemberAdd` as long as it holds the mutex, and what it does after that.
unfoldable pub apply_member_add : ReplicaId → Bytes → Manager → Section
unfolding is_member get delete
apply_member_add target addr m = if is_member m.members target then (m, []) else (
  record m { vote_ins = delete target m.vote_ins; members = m.members ++ target ∷ [] },
  grow_view target
      ∷ watch target
      ∷ tell_added target addr
      ∷ ends_vote_in target (get target m.vote_ins),
)

unfoldable pub handle_member_add : Option ReplicaId → Bytes → Manager → Section
unfolding apply_member_add
handle_member_add none addr m = (m, [])
handle_member_add (some target) addr m =
    ite (Bytes-discrete target m.self) (m, []) (apply_member_add target addr m)

-- `handleVoteIn`: both branches of its last test send the same answer.
unfoldable pub handle_vote_in : FrameCodec → Option ReplicaId → ReplicaId → Manager → Manager
unfolding is_member async_send
handle_vote_in c none sender m = m
handle_vote_in c (some target) sender m = ite (Bytes-discrete sender m.self) m (
    ite (Bytes-discrete target m.self) m (
      if is_member m.members target
      then async_send (marshal_vote_in_ack c (some target)) m
      else async_send (marshal_vote_in_ack c (some target)) m))

-- `handleVoteInAck` and `handleVoteInNack`, which differ in the flag: they find the session.
unfoldable pub tally_in : Bool → Option ReplicaId → ReplicaId → Manager → List Task
unfolding get
tally_in b none sender m = []
tally_in b (some target) sender m = elim (get target m.vote_ins) [
  | none ↦ []
  | some n ↦ count_in target n b sender ∷ []
]

-- Then they count the vote, and check.
unfoldable pub count_vote_in : ReplicaId → ℕ → Bool → ReplicaId → Manager → Section
unfolding change_in mark_in_vote
count_vote_in target n b sender m =
    (change_in target n (mark_in_vote b sender) m, check_in target n ∷ [])
