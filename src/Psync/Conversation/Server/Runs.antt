-- ===== src/Psync/Conversation/Server/Runs.antt =====
-- Runs of a conversation of psync/conversation.go: any sequence of calls and incoming frames.
use comlink.Common.{
  ◌+◌, ◌≡◌, subst, inl, inr, Bool, true, false, ◌++◌, if◌then◌else◌, Option, none, some, List, [],
  ◌∷◌, length, Option-cases,
}
use comlink.Common.Assoc.{Bytes, bytes_key}
use comlink.Common.Result.{Result, ok, err}
use comlink.Messages.{ReplicaId}
use comlink.Log.{Log}
use comlink.Psync.Membership.{Membership, new_membership, slot_of}
use comlink.Psync.Membership.Slots.{Distinct, IsWellFormed, new_membership-IsWellFormed}
use comlink.Psync.Graph.{new_graph, has, lookup}
use comlink.Psync.Graph.Invariant.{new_graph-IsClosed}
use comlink.Psync.Conversation.{State, PsyncMessage, Set, NewError, new_state}
use comlink.Psync.Conversation.Causal.{IsCausal, DeliversCausally}
use comlink.Psync.Conversation.Server.{
  Request, Response, wave_complete_request, stable_message_ids_request, panicked, handle_call,
  handle_cast,
}
use comlink.Psync.Conversation.Server.Steps.{is_replay}

-- What the genserver of a conversation takes from its mailbox.
pub data Event : Type 0 where
  call : Request → Event
  cast : ReplicaId → Option PsyncMessage → Event

pub is_panic : Response → Bool
is_panic panicked = true
is_panic _ = false

-- The calls that read the stability of messages.
pub asks_stability : Request → Bool
asks_stability (wave_complete_request w) = true
asks_stability stable_message_ids_request = true
asks_stability _ = false

-- One event: `none` where the genserver panics. The fuel is one more than the deferred envelopes,
-- which is enough.
pub step : State → Event → Option State
step st (call req) = let out = handle_call st req in if is_panic out.1 then none else some out.0
step st (cast from msg) = handle_cast (length st.deferred + 1) st from msg

pub run : State → List Event → Option State
unfolding step
run st [] = some st
run st (e ∷ es) = elim (step st e) [ none ↦ none | some st' ↦ run st' es ]

abbrev pub IsLive : Event → Type 0
IsLive (call req) = is_replay req ≡ false
IsLive (cast from msg) = Unit

-- The run handles all events.
abbrev pub Handles : State → List Event → Type 0
Handles st es = (st' : State) × (run st es ≡ some st') × DeliversCausally st'

-- The run handles the events `before`, and panics on the next, which asks what is stable.
pub record Breaks (st : State) (es : List Event) : Type 0 where
  pub before : List Event
  pub question : Request
  pub rest : List Event
  pub reached : State
  pub split : es ≡ before ++ call question ∷ rest
  pub handled : run st before ≡ some reached
  pub causal : DeliversCausally reached
  pub asks : asks_stability question ≡ true
  pub breaks : (handle_call reached question).1 ≡ panicked

fresh-IsCausal : (m : Membership) → IsWellFormed m → IsCausal m new_graph []
unfolding new_graph has lookup
fresh-IsCausal m w = record {
  view = w;
  closed = new_graph-IsClosed m;
  known = λ j env e. cc;
  stored = λ j s q (env, e, i). cc;
  complete = λ s q h. cc;
  once = λ j j' s q (env, e, i) d'. cc;
  before = λ j s q slot env e. cc;
}

-- An outcome of `New` delivers causally.
StartsCausally : Result NewError State → Type 0
StartsCausally (ok st) = DeliversCausally st
StartsCausally (err e) = Unit

new_state-StartsCausally :
    (conv : Bytes) (self : ReplicaId) (members : List ReplicaId) (log : Log) (masked : Set Bytes)
    → Distinct members
    → StartsCausally (new_state conv self members log masked)
unfolding new_state StartsCausally
new_state-StartsCausally conv self [] log masked d = tt
new_state-StartsCausally conv self (r ∷ rs) log masked d =
    elim (Option-cases (slot_of (new_membership (r ∷ rs)) self)) [
      | inl e ↦ rw (e, new_state) tt
      | inr (slot, e) ↦
          rw (e, new_state)
            (fresh-IsCausal (new_membership (r ∷ rs)) (new_membership-IsWellFormed (r ∷ rs) d))
    ]

pub new_state-causal :
    (conv : Bytes) (self : ReplicaId) (members : List ReplicaId) (log : Log) (masked : Set Bytes)
    (st : State)
    → Distinct members
    → new_state conv self members log masked ≡ ok st
    → DeliversCausally st
unfolding StartsCausally
new_state-causal conv self members log masked st d e =
    subst StartsCausally e (new_state-StartsCausally conv self members log masked d)
