-- ===== src/Manager/Kept.antt =====
-- The parts of membership/ that leave the members and the sessions of removal votes alone.
use comlink.Common.{
  ℕ, Bool, true, false, Option, none, some, List, ◌≡◌, refl, ◌∙◌, inl, inr, if◌then◌else◌,
  Option-cases, not, ite,
}
use comlink.Common.Assoc.{Assoc, IndexKey, Bytes, Bytes-discrete, bytes_key, index_key, get}
use comlink.Common.Result.{Result, ok, err}
use comlink.Messages.{ReplicaId}
use comlink.Frame.{FrameCodec, FrameError, Watermark}
use comlink.Manager.{
  Names, mark_in, advertise, set_watermark_on, Manager, VoteInSession, VoteError, VoteOutSession,
  Effect, async_send, is_member, mark_suspected, handle_suspect_down, on_suspect, send_heartbeat,
  maybe_trim, handle_watermark, set_watermark,
}
use comlink.Manager.VoteOut.{reply_vote_out}
use comlink.Manager.VoteIn.{change_in, finish_vote_in, handle_vote_in}
use comlink.Trim.{Tracker, update, update_applied}
use comlink.Failure.{Detector}
use comlink.Log.{Log}

-- What the removal votes stand on.
pub record Core : Type 0 where
  pub self : ReplicaId
  pub members : List ReplicaId
  pub out_sessions : Assoc IndexKey VoteOutSession

unfoldable pub core : Manager → Core
core m = record { self = m.self; members = m.members; out_sessions = m.out_sessions }

pub suspects-core : (x : Names) (m : Manager) → core (record m { suspects = x }) ≡ core m
unfolding core
suspects-core x m = refl

pub tracker-core : (x : Tracker) (m : Manager) → core (record m { tracker = x }) ≡ core m
unfolding core
tracker-core x m = refl

pub fd-core : (x : Detector) (m : Manager) → core (record m { fd = x }) ≡ core m
unfolding core
fd-core x m = refl

pub log-core : (x : Option Log) (m : Manager) → core (record m { log = x }) ≡ core m
unfolding core
log-core x m = refl

pub closed-core : (x : Bool) (m : Manager) → core (record m { closed = x }) ≡ core m
unfolding core
closed-core x m = refl

pub effects-core : (x : List Effect) (m : Manager) → core (record m { effects = x }) ≡ core m
unfolding core
effects-core x m = refl

pub core-if :
    (b : Bool) (x y : Manager) (k : Core) → core x ≡ k → core y ≡ k → core (if b then x else y) ≡ k
core-if true x y k p q = p
core-if false x y k p q = q

pub core-ite :
    {P : Type 0} (d : Dec P) (x y : Manager) (k : Core)
    → core x ≡ k
    → core y ≡ k
    → core (ite d x y) ≡ k
core-ite (yes h) x y k p q = p
core-ite (no h) x y k p q = q

pub async_send-core :
    (sent : Result FrameError Bytes) (m : Manager) → core (async_send sent m) ≡ core m
unfolding async_send
async_send-core (err e) m = refl
async_send-core (ok bytes) m = core-if m.closed _ _ _ refl (effects-core _ m)

pub mark_suspected-core : (r : ReplicaId) (m : Manager) → core (mark_suspected r m) ≡ core m
unfolding mark_suspected
mark_suspected-core r m = core-ite (Bytes-discrete r m.self) _ _ _ refl (suspects-core _ m)

pub handle_suspect_down-core :
    (t : Option ReplicaId) (sender : ReplicaId) (m : Manager)
    → core (handle_suspect_down t sender m) ≡ core m
unfolding handle_suspect_down
handle_suspect_down-core none sender m = refl
handle_suspect_down-core (some target) sender m =
    core-ite (Bytes-discrete target m.self) _ _ _ refl
      (core-ite (Bytes-discrete target sender) _ _ _ refl (mark_suspected-core target m))

pub on_suspect-core :
    (c : FrameCodec) (r : ReplicaId) (m : Manager) → core (on_suspect c r m) ≡ core m
unfolding on_suspect
on_suspect-core c r m = core-if m.closed _ _ _ refl (async_send-core _ _ ∙ mark_suspected-core r m)

pub send_heartbeat-core : (c : FrameCodec) (m : Manager) → core (send_heartbeat c m) ≡ core m
unfolding send_heartbeat
send_heartbeat-core c m = core-if m.closed _ _ _ refl (async_send-core _ _)

pub maybe_trim-core : (m : Manager) → core (maybe_trim m) ≡ core m
unfolding maybe_trim
maybe_trim-core m = log-core _ m

pub handle_watermark-core :
    (w : Watermark) (sender : ReplicaId) (m : Manager) → core (handle_watermark w sender m) ≡ core m
unfolding handle_watermark
handle_watermark-core w sender m =
    core-if (update m.tracker sender (mark_in w)).0 _ _ _ (maybe_trim-core _ ∙ tracker-core _ m)
      refl

advertise-core : (sent : Result FrameError Bytes) (m : Manager) → core (advertise sent m) ≡ core m
unfolding advertise
advertise-core (err e) m = refl
advertise-core (ok b) m = maybe_trim-core _ ∙ async_send-core (ok b) m

set_watermark_on-core :
    (c : FrameCodec) (offset : ℕ) (l : Option Log) (m : Manager)
    → core (set_watermark_on c offset l m) ≡ core m
unfolding set_watermark_on
set_watermark_on-core c offset none m = refl
set_watermark_on-core c offset (some l) m =
    core-if (not (update_applied m.tracker m.self offset).0) _ _ _ refl
      (advertise-core _ _ ∙ tracker-core _ m)

pub set_watermark-core :
    (c : FrameCodec) (offset : ℕ) (m : Manager) → core (set_watermark c offset m) ≡ core m
unfolding set_watermark
set_watermark-core c offset m = set_watermark_on-core c offset m.log m

pub reply_vote_out-core :
    (c : FrameCodec) (t : ReplicaId) (b : Bool) (m : Manager)
    → core (reply_vote_out c t b m) ≡ core m
unfolding reply_vote_out
reply_vote_out-core c t true m = async_send-core _ m
reply_vote_out-core c t false m = async_send-core _ m

pub handle_vote_in-core :
    (c : FrameCodec) (t : Option ReplicaId) (sender : ReplicaId) (m : Manager)
    → core (handle_vote_in c t sender m) ≡ core m
unfolding handle_vote_in
handle_vote_in-core c none sender m = refl
handle_vote_in-core c (some t) sender m = core-ite (Bytes-discrete sender m.self) _ _ _ refl (
    core-ite (Bytes-discrete t m.self) _ _ _ refl
      (core-if (is_member m.members t) _ _ _ (async_send-core _ m) (async_send-core _ m)))

pub change_in-core :
    (t : ReplicaId) (n : ℕ) (f : VoteInSession → VoteInSession) (m : Manager)
    → core (change_in t n f m) ≡ core m
unfolding change_in core
change_in-core t n f m = elim (Option-cases (get (t, n) m.in_sessions)) [
  | inl q ↦ rw (change_in, q) refl
  | inr (s, q) ↦ rw (change_in, q) refl
]

pub finish_vote_in-core :
    (t : ReplicaId) (n : ℕ) (o : Option VoteError) (m : Manager)
    → core (finish_vote_in t n o m) ≡ core m
unfolding finish_vote_in core
finish_vote_in-core t n o m = elim (Option-cases (get (t, n) m.in_sessions)) [
  | inl q ↦ rw (finish_vote_in, q) refl
  | inr (s, q) ↦ elim (Option-cases s.outcome) [
    | inl p ↦ rw (finish_vote_in, q, p) refl
    | inr (o', p) ↦ rw (finish_vote_in, q, p) refl
  ]
]
