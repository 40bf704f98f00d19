-- ===== src/Failure.antt =====
-- failure/failure.go: the failure detector. The mutex makes each method one step; the reading of the
-- clock is an argument. A `time.Duration` between readings is compared by adding it to the earlier
-- one. `tick` answers what the callbacks are called with, which Go does after it gives up the lock.
pub mod Suspicion
pub mod Heard
use comlink.Common.{
  ℕ, ◌+◌, Bool, true, false, Option, none, some, List, [], ◌∷◌, ◌++◌, leb, ◌==◌, ite, if◌then◌else◌,
}
use comlink.Common.Assoc.{Assoc, Bytes, Bytes-discrete, bytes_key, get, put, delete}
use comlink.Messages.{ReplicaId}

pub record Config : Type 0 where
  pub self : ReplicaId
  pub members : List ReplicaId
  pub quiet_interval : ℕ
  pub suspicion_interval : ℕ

-- In nanoseconds.
abbrev pub default_quiet_interval : ℕ
default_quiet_interval = 500000000

abbrev pub default_suspicion_interval : ℕ
default_suspicion_interval = 2000000000

pub record Detector : Type 0 where
  pub cfg : Config
  pub now : ℕ
  pub last_sent : ℕ
  pub last_received : Assoc Bytes ℕ
  pub suspected : Assoc Bytes (Unit {0})
  pub members : List ReplicaId

-- The loop of `New` over the members.
heard_at_start : ℕ → List ReplicaId → Assoc Bytes ℕ → Assoc Bytes ℕ
unfolding put
heard_at_start now [] heard = heard
heard_at_start now (m ∷ ms) heard = heard_at_start now ms (put m now heard)

unfoldable pub new_detector : Config → ℕ → Detector
unfolding heard_at_start
new_detector cfg now = record {
  cfg = record cfg {
    quiet_interval = if cfg.quiet_interval == 0 then default_quiet_interval else cfg.quiet_interval;
    suspicion_interval =
        if cfg.suspicion_interval == 0 then default_suspicion_interval else cfg.suspicion_interval;
  };
  now = now;
  last_sent = now;
  last_received = heard_at_start now cfg.members [];
  suspected = [];
  members = cfg.members;
}

unfoldable pub note_sent : ℕ → Detector → Detector
note_sent now d = record d { last_sent = now }

unfoldable pub note_received : ℕ → ReplicaId → Detector → Detector
unfolding put delete
note_received now from d = record d {
  last_received = put from now d.last_received;
  suspected = delete from d.suspected;
}

unfoldable pub is_suspected : Detector → ReplicaId → Bool
unfolding get
is_suspected d r = elim (get r d.suspected) [ none ↦ false | some u ↦ true ]

listed : ReplicaId → List ReplicaId → Bool
listed r [] = false
listed r (m ∷ ms) = let rest = listed r ms in ite (Bytes-discrete m r) true rest

unfoldable pub add_member : ℕ → ReplicaId → Detector → Detector
unfolding listed put delete
add_member now r d = ite (Bytes-discrete r d.cfg.self) d (
    if listed r d.members
    then record d { last_received = put r now d.last_received; suspected = delete r d.suspected }
    else record d { members = d.members ++ r ∷ []; last_received = put r now d.last_received })

unfoldable pub without : ReplicaId → List ReplicaId → List ReplicaId
without r [] = []
without r (m ∷ ms) = let rest = without r ms in ite (Bytes-discrete m r) rest (m ∷ rest)

unfoldable pub remove_member : ReplicaId → Detector → Detector
unfolding without delete
remove_member r d = record d {
  last_received = delete r d.last_received;
  suspected = delete r d.suspected;
  members = without r d.members;
}

-- One round of the loop of `tick`: the detector, and who is newly suspected.
check_heard : ℕ → ReplicaId → Option ℕ → Detector → Detector × List ReplicaId
unfolding put
check_heard now r none d = (record d { last_received = put r now d.last_received }, [])
check_heard now r (some last) d =
    if leb (last + d.cfg.suspicion_interval) now
    then (record d { suspected = put r tt d.suspected }, r ∷ [])
    else (d, [])

check_member : ℕ → ReplicaId → Detector → Detector × List ReplicaId
unfolding is_suspected check_heard get
check_member now r d =
    ite (Bytes-discrete r d.cfg.self) (d, [])
      (if is_suspected d r then (d, []) else check_heard now r (get r d.last_received) d)

check_members : ℕ → List ReplicaId → Detector → Detector × List ReplicaId
unfolding check_member
check_members now [] d = (d, [])
check_members now (r ∷ rs) d =
    let (d', one) = check_member now r d in
    let (d'', more) = check_members now rs d' in (d'', one ++ more)

-- `tick`: the detector, whether a heartbeat is sent, and who is newly suspected.
unfoldable pub tick : ℕ → Detector → Detector × Bool × List ReplicaId
unfolding check_members
tick now d =
    let quiet : Bool = leb (d.last_sent + d.cfg.quiet_interval) now in
    let (d', new) =
      check_members now d.members
        (record d { now = now; last_sent = if quiet then now else d.last_sent }) in
    (d', quiet, new)
