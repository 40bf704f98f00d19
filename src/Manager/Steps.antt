-- ===== src/Manager/Steps.antt =====
-- Every step of a run of membership/, in which its goroutines interleave, keeps what `IsFine` says.
use comlink.Common.{◌≡◌, sym, subst, List, [], ◌∷◌, ◌++◌, All, All-append}
use comlink.Common.Assoc.{bytes_key, index_key}
use comlink.Frame.{FrameCodec}
use comlink.Messages.{ReplicaId}
use comlink.Manager.{Manager, Task, Section}
use comlink.Manager.Elections.{IsGood, IsDue, Changed, Keeps, kept-Keeps}
use comlink.Manager.Kept.{core}
use comlink.Manager.Runs.{Event, System}
use comlink.Manager.Later.{All-append_left, All-append_right}

-- The manager is good, and what its goroutines still have to do is due.
pub record IsFine (c : FrameCodec) (trace : List Event) (s : System) : Type 0 where
  pub good : IsGood trace (core s.manager)
  pub pump_due : All (IsDue c trace s.manager.self) s.pump_tasks
  pub others_due : All (All (IsDue c trace s.manager.self)) s.others

-- What a step keeps.
abbrev pub Fares : FrameCodec → List Event → System → System → Type 0
Fares c trace s s' =
    IsFine c trace s' × Changed trace s.manager.self s.manager.members s'.manager.members

-- A part of one goroutine, with what the goroutines do after it.
pub Keeps-Fares :
    (c : FrameCodec) (trace : List Event) (s s' : System) (tasks : List Task)
    → Keeps c trace (core s.manager) (s'.manager, tasks)
    → All (IsDue c trace s.manager.self) s'.pump_tasks
    → All (All (IsDue c trace s.manager.self)) s'.others
    → Fares c trace s s'
unfolding core
Keeps-Fares c trace s s' tasks k p o =
    let back = sym k.same_self in
    (
      record {
        good = k.good;
        pump_due = subst (λ (self : ReplicaId). All (IsDue c trace self) s'.pump_tasks) back p;
        others_due = subst (λ (self : ReplicaId). All (All (IsDue c trace self)) s'.others) back o;
      },
      k.changed,
    )

-- A goroutine more, which begins with a part that has been done.
pub spawned-Fares :
    (c : FrameCodec) (trace : List Event) (s : System) (m' : Manager) (tasks : List Task)
    → IsFine c trace s
    → Keeps c trace (core s.manager) (m', tasks)
    → Fares c trace s (record s { manager = m'; others = s.others ++ tasks ∷ [] })
unfolding core
spawned-Fares c trace s m' tasks f k =
    Keeps-Fares c trace s _ tasks k f.pump_due (
      All-append (All (IsDue c trace s.manager.self)) s.others (tasks ∷ []) f.others_due
        (k.due, tt))

-- Something that does not touch what the removal votes stand on.
pub kept-Fares :
    (c : FrameCodec) (trace : List Event) (s : System) (m' : Manager)
    → IsFine c trace s
    → core m' ≡ core s.manager
    → Fares c trace s (record s { manager = m' })
kept-Fares c trace s m' f e =
    Keeps-Fares c trace s _ [] (kept-Keeps c trace s.manager (m', []) f.good e tt) f.pump_due
      f.others_due

pub pumped-Fares :
    (c : FrameCodec) (trace : List Event) (s : System) (t : Task) (ts : List Task) (out : Section)
    → IsFine c trace s
    → s.pump_tasks ≡ t ∷ ts
    → (IsDue c trace s.manager.self t → Keeps c trace (core s.manager) out)
    → Fares c trace s (record s { manager = out.0; pump_tasks = out.1 ++ ts })
unfolding core
pumped-Fares c trace s t ts out f e h =
    let (d, ds) = subst (All (IsDue c trace s.manager.self)) e f.pump_due in
    let k = h d in
    Keeps-Fares c trace s _ out.1 k (All-append (IsDue c trace s.manager.self) out.1 ts k.due ds)
      f.others_due

pub went_on-Fares :
    (c : FrameCodec) (trace : List Event) (s : System) (before after : List (List Task)) (t : Task)
    (ts : List Task) (out : Section)
    → IsFine c trace s
    → s.others ≡ before ++ (t ∷ ts) ∷ after
    → (IsDue c trace s.manager.self t → Keeps c trace (core s.manager) out)
    → Fares c trace s (record s { manager = out.0; others = before ++ (out.1 ++ ts) ∷ after })
unfolding core
went_on-Fares c trace s before after t ts out f e h =
    let due = subst (All (All (IsDue c trace s.manager.self))) e f.others_due in
    let ((d, ds), rest) =
      All-append_right (All (IsDue c trace s.manager.self)) before ((t ∷ ts) ∷ after) due in
    let k = h d in
    Keeps-Fares c trace s _ out.1 k f.pump_due (
      All-append (All (IsDue c trace s.manager.self)) before ((out.1 ++ ts) ∷ after)
        (All-append_left (All (IsDue c trace s.manager.self)) before ((t ∷ ts) ∷ after) due)
        (All-append (IsDue c trace s.manager.self) out.1 ts k.due ds, rest))
