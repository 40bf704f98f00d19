-- ===== src/Tests/Managers.antt =====
-- The theorems on the frames and on membership/ at a group of three.
use comlink.Common.{
  zero, suc, ◌≡◌, refl, ℕ, ℕ_discrete, false, true, Option, none, some, List, [], ◌∷◌, ◌++◌,
}
use comlink.Common.Assoc.{Bytes, Bytes-discrete, bytes_key, index_key, get}
use comlink.Messages.{ReplicaId, Envelope}
use comlink.Log.{Log, new_log}
use comlink.Log.Append.{new_log-IsSound}
use comlink.Frame.{
  MembershipEvent, suspect_down, vote_out_nack, vote_in_ack, vote_in_nack, member_add, Body,
  app_body, heartbeat_body, watermark_body, membership_body, FrameCodec,
}
use comlink.Manager.VoteOut.{vote_out}
use comlink.Manager.VoteIn.{vote_in}
use comlink.Frame.RoundTrip.{IsFrameCodec, AllArrive, unmarshal-Arrives}
use comlink.Manager.{
  Manager, Task, VoteOutSession, is_member, maybe_trim, clear_suspicion, note_heard, unsuspect,
  read_frame,
}
use comlink.Manager.Pump.{pump, run_task}
use comlink.Manager.Runs.{
  Event, System, Step, Run, delivery_events, listing, delivered, pumped, begin, next,
}
use comlink.Manager.Elections.{Changed, Fine}
use comlink.Manager.Histories.{IsFresh, Step-Changed, Run-IsGood}
use comlink.Manager.Trimming.{TrimmedSafely, maybe_trim-TrimmedSafely}
use comlink.Tests.Samples.{alice, bob, carol, conv, message}

-- A wire form of the frames that the samples use: a byte for the kind, and the bytes it carries.
to_bytes : Option Body → Option Bytes
to_bytes (some (app_body b)) = some (0 ∷ b)
to_bytes (some heartbeat_body) = some (1 ∷ [])
to_bytes (some (membership_body (some (MembershipEvent.vote_out (some r))))) = some (2 ∷ r)
to_bytes (some (membership_body (some (MembershipEvent.vote_out_ack (some r))))) = some (3 ∷ r)
to_bytes _ = none

from_bytes : Bytes → Option (Option Body)
from_bytes (zero ∷ b) = some (some (app_body b))
from_bytes (suc zero ∷ b) = some (some heartbeat_body)
from_bytes (suc (suc zero) ∷ r) =
    some (some (membership_body (some (MembershipEvent.vote_out (some r)))))
from_bytes (suc (suc (suc k)) ∷ r) =
    some (some (membership_body (some (MembershipEvent.vote_out_ack (some r)))))
from_bytes [] = none

abbrev frames : FrameCodec
frames = record { marshal = to_bytes; unmarshal = from_bytes }

frames_law : IsFrameCodec frames
unfolding to_bytes from_bytes
frames_law none bytes e = cc e
frames_law (some (app_body b)) bytes e = let same : 0 ∷ b ≡ bytes = cc in rw (← same) refl
frames_law (some heartbeat_body) bytes e = let same : 1 ∷ [] ≡ bytes = cc in rw (← same) refl
frames_law (some (watermark_body w)) bytes e = cc e
frames_law (some (membership_body none)) bytes e = cc e
frames_law (some (membership_body (some (MembershipEvent.vote_out (some r))))) bytes e =
    let same : 2 ∷ r ≡ bytes = cc in rw (← same) refl
frames_law (some (membership_body (some (MembershipEvent.vote_out_ack (some r))))) bytes e =
    let same : 3 ∷ r ≡ bytes = cc in rw (← same) refl
frames_law (some (membership_body (some (MembershipEvent.vote_out none)))) bytes e = cc e
frames_law (some (membership_body (some (MembershipEvent.vote_out_ack none)))) bytes e = cc e
frames_law (some (membership_body (some (suspect_down r)))) bytes e = cc e
frames_law (some (membership_body (some (vote_out_nack r)))) bytes e = cc e
frames_law (some (membership_body (some (MembershipEvent.vote_in r a)))) bytes e = cc e
frames_law (some (membership_body (some (vote_in_ack r)))) bytes e = cc e
frames_law (some (membership_body (some (vote_in_nack r)))) bytes e = cc e
frames_law (some (membership_body (some (member_add r a)))) bytes e = cc e

abbrev group : List ReplicaId
group = alice ∷ bob ∷ carol ∷ []

abbrev fresh : Manager
fresh = record {
  self = alice;
  members = group;
  suspects = [];
  vote_outs = [];
  vote_ins = [];
  out_sessions = [];
  in_sessions = [];
  next_session = 0;
  tracker = record { marks = [] };
  fd = record {
    cfg = record { self = alice; members = group; quiet_interval = 5; suspicion_interval = 20 };
    now = 0;
    last_sent = 0;
    last_received = (alice, 0) ∷ (bob, 0) ∷ (carol, 0) ∷ [];
    suspected = [];
    members = group;
  };
  log = some (new_log conv);
  view = record {
    replicas = group;
    frozen = false ∷ false ∷ false ∷ [];
    slot_index = (alice, 0) ∷ (bob, 1) ∷ (carol, 2) ∷ [];
  };
  initial_group_size = 3;
  closed = false;
  effects = [];
}

-- The group before anything has happened.
abbrev idle : System
idle = record { manager = fresh; pump_tasks = []; others = [] }

idle-IsFresh : IsFresh idle
unfolding is_member Bytes-discrete ℕ_discrete
idle-IsFresh = (refl, refl, refl, refl)

-- Bob's vote to take out carol.
abbrev vote : Envelope
vote = record (message bob (0 ∷ 1 ∷ 0 ∷ [])) { payload = 2 ∷ carol }

unmarshal-Arrives_example : AllArrive frames
unmarshal-Arrives_example = unmarshal-Arrives frames frames_law

-- The pump is given the vote, and has noted that bob is there.
abbrev busy : System
busy = record idle { pump_tasks = pump vote }

abbrev pumps : Task → List Task → System → System
pumps t ts s = record s {
  manager = (run_task frames 10 true t s.manager).0;
  pump_tasks = (run_task frames 10 true t s.manager).1 ++ ts;
}

abbrev busy_task : Task
busy_task = read_frame vote.payload bob

abbrev heard : System
heard = pumps (note_heard bob) (unsuspect bob ∷ busy_task ∷ []) busy

abbrev cleared : System
cleared = pumps (unsuspect bob) (busy_task ∷ []) heard

abbrev counted : System
counted = pumps busy_task [] cleared

abbrev vote_trace : List Event
vote_trace = listing group ∷ delivery_events frames vote

abbrev heard_trace : List Event
heard_trace = vote_trace ++ listing busy.manager.members ∷ []

abbrev cleared_trace : List Event
cleared_trace = heard_trace ++ listing heard.manager.members ∷ []

cleared-Run : Run frames idle cleared_trace cleared
unfolding pump run_task clear_suspicion
cleared-Run =
    next
      (next (next begin (delivered vote idle refl))
        (pumped 10 true (note_heard bob) (unsuspect bob ∷ busy_task ∷ []) busy refl))
      (pumped 10 true (unsuspect bob) (busy_task ∷ []) heard refl)

cleared-Step : Step frames cleared [] counted
unfolding pump run_task clear_suspicion
cleared-Step = pumped 10 true busy_task [] cleared refl

Step-Changed_example :
    Changed
      (cleared_trace ++ listing cleared.manager.members ∷ [])
      cleared.manager.self
      cleared.manager.members
      counted.manager.members
Step-Changed_example =
    Step-Changed frames idle cleared counted cleared_trace [] idle-IsFresh cleared-Run cleared-Step

Run-IsGood_example :
    (is_member counted.manager.members counted.manager.self ≡ true)
    × ((t : ReplicaId) (n : ℕ) (v : VoteOutSession)
        → get (t, n) counted.manager.out_sessions ≡ some v
        → Fine (cleared_trace ++ listing cleared.manager.members ∷ []) counted.manager.self t v)
Run-IsGood_example =
    Run-IsGood frames idle counted (cleared_trace ++ listing cleared.manager.members ∷ [])
      idle-IsFresh (next cleared-Run cleared-Step)

log_open : (new_log conv).closed ≡ false
unfolding new_log
log_open = refl

maybe_trim-TrimmedSafely_example :
    (l' : Log) × ((maybe_trim fresh).log ≡ some l')
    × TrimmedSafely fresh.tracker group (new_log conv) l'
maybe_trim-TrimmedSafely_example =
    maybe_trim-TrimmedSafely fresh (new_log conv) refl (new_log-IsSound conv) log_open
