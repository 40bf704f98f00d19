-- ===== src/Manager/Runs.antt =====
-- What can happen to a manager of membership/membership.go, as steps of one relation. The pump is one
-- goroutine, and each call of `VoteOut` or `VoteIn` runs in another; in a step one of them does its
-- next part, so that they interleave in any way. Other steps are calls by the application, by the
-- detector or by a timer; `NoteSent`, which `asyncSend` calls behind a send, is a step of its own, and
-- so is an append of the conversation to the log that it shares. The trace records what the deliveries
-- and the member lists were.
use comlink.Common.{ℕ, Bool, Option, some, none, List, [], ◌∷◌, ◌++◌, ◌≡◌}
use comlink.Common.Assoc.{Bytes}
use comlink.Common.Result.{ok, err}
use comlink.Messages.{ReplicaId, Envelope, sender_of}
use comlink.Failure.{tick, note_sent}
use comlink.Frame.{FrameCodec, Decoded, unmarshal}
use comlink.Log.{Log, append}
use comlink.Manager.{
  Manager, Task, Section, VoteError, set_watermark, on_suspect, send_heartbeat, close_manager,
  cancel_out, cancel_in,
}
use comlink.Manager.Pump.{pump, run_task}
use comlink.Manager.VoteOut.{vote_out}
use comlink.Manager.VoteIn.{vote_in}

-- `backs r t`: a `VoteOut` or a `VoteOutAck` of `r` for `t` was delivered. `joins t`: a `MemberAdd` of
-- `t` was. `listing ms`: the members were `ms`.
pub data Event : Type 0 where
  backs : ReplicaId → ReplicaId → Event
  joins : ReplicaId → Event
  listing : List ReplicaId → Event

abbrev pub backs_of : ReplicaId → Option (Option ReplicaId) → List Event
backs_of sender none = []
backs_of sender (some none) = []
backs_of sender (some (some target)) = backs sender target ∷ []

abbrev pub joins_of : Option (Option ReplicaId × Bytes) → List Event
joins_of none = []
joins_of (some (none, addr)) = []
joins_of (some (some target, addr)) = joins target ∷ []

abbrev pub events_of : Decoded → ReplicaId → List Event
events_of d sender = backs_of sender d.votes_out ++ backs_of sender d.acks_out ++ joins_of d.adds

abbrev pub frame_events : FrameCodec → Bytes → ReplicaId → List Event
frame_events c payload sender = elim (unmarshal c payload) [
  | err e ↦ []
  | ok d ↦ events_of d sender
]

-- What a delivery adds to the trace.
abbrev pub delivery_events : FrameCodec → Envelope → List Event
delivery_events c env = frame_events c env.payload (sender_of env)

-- The manager, and what its goroutines still have to do: the pump, and the others.
pub record System : Type 0 where
  pub manager : Manager
  pub pump_tasks : List Task
  pub others : List (List Task)

abbrev pub with_manager : Manager → System → System
with_manager m s = record s { manager = m }

-- A goroutine more.
abbrev pub spawn : Section → System → System
spawn (m, tasks) s = record s { manager = m; others = s.others ++ tasks ∷ [] }

pub data Step (c : FrameCodec) : System → List Event → System → Type 0 where
  delivered :
      (env : Envelope) (s : System)
      → s.pump_tasks ≡ []
      → Step c s (delivery_events c env) (record s { pump_tasks = pump env })
  pumped :
      (now : ℕ) (flag : Bool) (t : Task) (ts : List Task) (s : System)
      → s.pump_tasks ≡ t ∷ ts
      → Step c s [] (record s {
        manager = (run_task c now flag t s.manager).0;
        pump_tasks = (run_task c now flag t s.manager).1 ++ ts;
      })
  went_on :
      (now : ℕ) (flag : Bool) (before : List (List Task)) (t : Task) (ts : List Task)
      (after : List (List Task)) (s : System)
      → s.others ≡ before ++ (t ∷ ts) ∷ after
      → Step c s [] (record s {
        manager = (run_task c now flag t s.manager).0;
        others = before ++ ((run_task c now flag t s.manager).1 ++ ts) ∷ after;
      })
  voted_out :
      (target : ReplicaId) (out : Section) (s : System)
      → vote_out target s.manager ≡ ok out
      → Step c s [] (spawn out s)
  voted_in :
      (target : ReplicaId) (addr : Bytes) (out : Section) (s : System)
      → vote_in target addr s.manager ≡ ok out
      → Step c s [] (spawn out s)
  gave_up_out :
      (target : ReplicaId) (e : VoteError) (s : System)
      → Step c s [] (spawn (s.manager, cancel_out target e ∷ []) s)
  gave_up_in :
      (target : ReplicaId) (e : VoteError) (s : System)
      → Step c s [] (spawn (s.manager, cancel_in target e ∷ []) s)
  noted_sent :
      (now : ℕ) (s : System)
      → Step c s [] (with_manager (record s.manager { fd = note_sent now s.manager.fd }) s)
  ticked :
      (now : ℕ) (s : System)
      → Step c s [] (with_manager (record s.manager { fd = (tick now s.manager.fd).0 }) s)
  suspected : (r : ReplicaId) (s : System) → Step c s [] (with_manager (on_suspect c r s.manager) s)
  beat : (s : System) → Step c s [] (with_manager (send_heartbeat c s.manager) s)
  watermarked :
      (offset : ℕ) (s : System) → Step c s [] (with_manager (set_watermark c offset s.manager) s)
  logged :
      (l l' : Log) (env : Envelope) (seq off : ℕ) (s : System)
      → s.manager.log ≡ some l
      → append l env seq ≡ ok (l', off)
      → Step c s [] (with_manager (record s.manager { log = some l' }) s)
  stopped : (s : System) → Step c s [] (with_manager (close_manager s.manager) s)

-- A run of steps: the member list before each step stands in the trace in front of its events.
pub data Run (c : FrameCodec) (start : System) : List Event → System → Type 0 where
  begin : Run c start [] start
  next :
      {trace events : List Event} {s s' : System}
      → Run c start trace s
      → Step c s events s'
      → Run c start (trace ++ listing s.manager.members ∷ events) s'
