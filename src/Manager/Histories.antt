-- ===== src/Manager/Histories.antt =====
-- A run of membership/, in which its goroutines interleave: what is so at any time of it.
use comlink.Common.{ℕ, suc, ◌≡◌, refl, sym, subst, true, some, none, List, [], ◌∷◌, ◌++◌, All}
use comlink.Common.Assoc.{bytes_key, index_key, get}
use comlink.Frame.{FrameCodec}
use comlink.Failure.{note_sent, tick}
use comlink.Messages.{ReplicaId}
use comlink.Manager.{Manager, VoteOutSession, is_member, close_manager, cancel_out, cancel_in}
use comlink.Manager.Elections.{
  Happened, Happened-append_right, Fine, IsDue, Holds, Changed, Keeps, kept-Keeps,
}
use comlink.Manager.Kept.{
  core, fd-core, log-core, closed-core, on_suspect-core, send_heartbeat-core, set_watermark-core,
}
use comlink.Manager.Pump.{pump, run_task}
use comlink.Manager.Runs.{
  Event, System, listing, Step, Run, delivered, pumped, went_on, voted_out, gave_up_out, voted_in,
  gave_up_in, noted_sent, ticked, suspected, beat, watermarked, logged, stopped, begin, next,
}
use comlink.Manager.Sections.{vote_out-Keeps, OnOk, same-Keeps}
use comlink.Manager.Joins.{vote_in-Keeps}
use comlink.Manager.Steps.{
  IsFine, Fares, Keeps-Fares, spawned-Fares, kept-Fares, pumped-Fares, went_on-Fares,
}
use comlink.Manager.Later.{IsGood-later, IsDue-all_later, IsDue-each_later}
use comlink.Manager.Tasks.{run_task-Keeps}

close_manager-core : (m : Manager) → core (close_manager m) ≡ core m
unfolding close_manager
close_manager-core m = closed-core true m

-- The events of a step are in the trace, and so is the list before it.
Step-Fares :
    (c : FrameCodec) (trace own : List Event) (s s' : System)
    → IsFine c trace s
    → Happened trace (listing s.manager.members)
    → Holds trace own
    → Step c s own s'
    → Fares c trace s s'
unfolding pump core
Step-Fares c trace _ _ _ f l h (delivered env s e) =
    Keeps-Fares c trace s _ [] (same-Keeps c trace s.manager f.good) (tt, (tt, (h, tt)))
      f.others_due
Step-Fares c trace _ _ _ f l h (pumped now flag t ts s e) =
    pumped-Fares c trace s t ts (run_task c now flag t s.manager) f e
      (λ d. run_task-Keeps c trace now flag t s.manager f.good l d)
Step-Fares c trace _ _ _ f l h (went_on now flag before t ts after s e) =
    went_on-Fares c trace s before after t ts (run_task c now flag t s.manager) f e
      (λ d. run_task-Keeps c trace now flag t s.manager f.good l d)
Step-Fares c trace _ _ _ f l h (voted_out t (m', tasks) s e) =
    spawned-Fares c trace s m' tasks f (
      subst (OnOk (Keeps c trace (core s.manager))) e (vote_out-Keeps c trace t s.manager f.good l))
Step-Fares c trace _ _ _ f l h (voted_in t addr (m', tasks) s e) =
    spawned-Fares c trace s m' tasks f (
      subst (OnOk (Keeps c trace (core s.manager))) e
        (vote_in-Keeps c trace t addr s.manager f.good))
Step-Fares c trace _ _ _ f l h (gave_up_out t e s) =
    spawned-Fares c trace s s.manager (cancel_out t e ∷ []) f
      (kept-Keeps c trace s.manager _ f.good refl (tt, tt))
Step-Fares c trace _ _ _ f l h (gave_up_in t e s) =
    spawned-Fares c trace s s.manager (cancel_in t e ∷ []) f
      (kept-Keeps c trace s.manager _ f.good refl (tt, tt))
Step-Fares c trace _ _ _ f l h (noted_sent now s) =
    kept-Fares c trace s _ f (fd-core (note_sent now s.manager.fd) s.manager)
Step-Fares c trace _ _ _ f l h (ticked now s) =
    kept-Fares c trace s _ f (fd-core (tick now s.manager.fd).0 s.manager)
Step-Fares c trace _ _ _ f l h (suspected r s) =
    kept-Fares c trace s _ f (on_suspect-core c r s.manager)
Step-Fares c trace _ _ _ f l h (beat s) = kept-Fares c trace s _ f (send_heartbeat-core c s.manager)
Step-Fares c trace _ _ _ f l h (watermarked offset s) =
    kept-Fares c trace s _ f (set_watermark-core c offset s.manager)
Step-Fares c trace _ _ _ f l h (logged l1 l2 env seq off s p q) =
    kept-Fares c trace s _ f (log-core (some l2) s.manager)
Step-Fares c trace _ _ _ f l h (stopped s) = kept-Fares c trace s _ f (close_manager-core s.manager)

-- A system before the first step of a run: the replica lists itself, no removal vote has been begun,
-- and no goroutine is in the middle of anything.
abbrev pub IsFresh : System → Type 0
IsFresh s =
    (is_member s.manager.members s.manager.self ≡ true)
    × (s.manager.out_sessions ≡ [])
    × (s.pump_tasks ≡ [])
    × (s.others ≡ [])

fresh-IsFine : (c : FrameCodec) (s : System) → IsFresh s → IsFine c [] s
unfolding core get
fresh-IsFine c s (listed, no_sessions, idle, alone) = record {
  good = record {
    listed = listed;
    fine = λ t n v e.
        let q : get (t, n) s.manager.out_sessions ≡ none = rw no_sessions refl in cc (q, e);
  };
  pump_due = subst (All (IsDue c [] s.manager.self)) (sym idle) tt;
  others_due = subst (All (All (IsDue c [] s.manager.self))) (sym alone) tt;
}

IsFine-later :
    (c : FrameCodec) (xs ys : List Event) (s : System) → IsFine c xs s → IsFine c (xs ++ ys) s
unfolding core
IsFine-later c xs ys s f = record {
  good = IsGood-later xs ys (core s.manager) f.good;
  pump_due = IsDue-all_later c xs ys s.manager.self s.pump_tasks f.pump_due;
  others_due = IsDue-each_later c xs ys s.manager.self s.others f.others_due;
}

run-Fares :
    (c : FrameCodec) (trace events : List Event) (s s' : System)
    → IsFine c trace s
    → Step c s events s'
    → Fares c (trace ++ listing s.manager.members ∷ events) s s'
run-Fares c trace events s s' f step =
    Step-Fares c (trace ++ listing s.manager.members ∷ events) events s s'
      (IsFine-later c trace (listing s.manager.members ∷ events) s f)
      (Happened-append_right trace (listing s.manager.members ∷ events) (listing s.manager.members)
        (0, refl))
      (λ e h.
        let (i, p) = h in
        Happened-append_right trace (listing s.manager.members ∷ events) e (suc i, p))
      step

history-IsFine :
    (c : FrameCodec) (start s : System) (trace : List Event)
    → IsFresh start
    → Run c start trace s
    → IsFine c trace s
history-IsFine c start _ _ fresh begin = fresh-IsFine c start fresh
history-IsFine c start _ _ fresh (next r step) =
    (run-Fares c _ _ _ _ (history-IsFine c start _ _ fresh r) step).0

-- In a run of any steps from a fresh system, in which the goroutines interleave in any way between two
-- parts that hold the mutex, a step changes the members in two ways only. It takes out one other
-- replica `t`, and then votes for its removal have been cast by as many different replicas as are a
-- strict majority of those who were listed at some time of the run, without one: each of them is the
-- replica itself or one whose `VoteOut` or `VoteOutAck` for `t` was delivered. It need not have been
-- listed. Or the step adds one that is not listed, and then a `MemberAdd` of it was delivered.
pub Step-Changed :
    (c : FrameCodec) (start s s' : System) (trace events : List Event)
    → IsFresh start
    → Run c start trace s
    → Step c s events s'
    → Changed
        (trace ++ listing s.manager.members ∷ events)
        s.manager.self
        s.manager.members
        s'.manager.members
Step-Changed c start s s' trace events fresh r step =
    (run-Fares c trace events s s' (history-IsFine c start s trace fresh r) step).1

-- After any steps from a fresh system, in which the goroutines interleave in any way, the replica is
-- on its own list of members. Each session of a removal vote, open or not, is not on the replica
-- itself, names as its voters the members of some time of the run, and counts each ack once, and only
-- acks of the replica itself and of those whose `VoteOut` or `VoteOutAck` for the target was delivered.
pub Run-IsGood :
    (c : FrameCodec) (start s : System) (trace : List Event)
    → IsFresh start
    → Run c start trace s
    → (is_member s.manager.members s.manager.self ≡ true)
      × ((t : ReplicaId) (n : ℕ) (v : VoteOutSession)
          → get (t, n) s.manager.out_sessions ≡ some v
          → Fine trace s.manager.self t v)
unfolding core
Run-IsGood c start s trace fresh r =
    let f = history-IsFine c start s trace fresh r in (f.good.listed, f.good.fine)
