-- ===== src/Manager/Guards.antt =====
-- What `VoteOut` and `VoteIn` of membership/ answer at once, and the votes that they begin.
use comlink.Common.{◌*◌, ◌≤◌, ◌<◌, ◌≡◌, ◌≢◌, ◌⊎◌, true, false, some, none, [], ◌∷◌, length}
use comlink.Common.Assoc.{Bytes, bytes_key, index_key, get}
use comlink.Common.Result.{Result, ok, err}
use comlink.Messages.{ReplicaId}
use comlink.Manager.{
  Manager, Section, VoteError, is_member, target_is_self, target_not_member, target_already_member,
  partition_minority, in_progress, send_vote_out, send_vote_in,
}

-- Why `VoteOut` refuses the target `t`, in the order of its tests.
abbrev pub RefusedOut : Manager → ReplicaId → VoteError → Type 0
RefusedOut m t target_is_self = t ≡ m.self
RefusedOut m t target_not_member = (t ≢ m.self) × (is_member m.members t ≡ false)
RefusedOut m t partition_minority =
    (is_member m.members t ≡ true) × (length m.members * 2 ≤ m.initial_group_size)
RefusedOut m t in_progress =
    (m.initial_group_size < length m.members * 2) × (get t m.vote_outs ≢ none)
RefusedOut m t _ = ⊥

-- The vote on `t` that has begun: no test failed, the goroutine goes on to broadcast it, and the map
-- holds a session in which only the replica itself has voted, and all members are listed as voters.
-- The other votes, the members, and what has been sent are as before.
pub record BegunOut (m : Manager) (t : ReplicaId) (out : Section) : Type 0 where
  pub not_self : t ≢ m.self
  pub listed : is_member m.members t ≡ true
  pub majority : m.initial_group_size < length m.members * 2
  pub not_open : get t m.vote_outs ≡ none
  pub goes_on : out.1 ≡ send_vote_out t m.next_session ∷ []
  pub is_open : get t out.0.vote_outs ≡ some m.next_session
  pub session :
      get (t, m.next_session) out.0.out_sessions
      ≡ some (record {
        target = t;
        members_at_start = m.members;
        acked_by = (m.self, tt) ∷ [];
        nacked_by = [];
        outcome = none;
      })
  pub others : (r : ReplicaId) → t ≢ r → get r out.0.vote_outs ≡ get r m.vote_outs
  pub same_members : out.0.members ≡ m.members
  pub same_effects : out.0.effects ≡ m.effects

-- The same for `VoteIn`.
abbrev pub RefusedIn : Manager → ReplicaId → VoteError → Type 0
RefusedIn m t target_is_self = t ≡ m.self
RefusedIn m t target_already_member = (t ≢ m.self) × (is_member m.members t ≡ true)
RefusedIn m t partition_minority =
    (is_member m.members t ≡ false) × (length m.members * 2 ≤ m.initial_group_size)
RefusedIn m t in_progress =
    (m.initial_group_size < length m.members * 2) × (get t m.vote_ins ≢ none)
RefusedIn m t _ = ⊥

pub record BegunIn (m : Manager) (t : ReplicaId) (addr : Bytes) (out : Section) : Type 0 where
  pub not_self : t ≢ m.self
  pub not_listed : is_member m.members t ≡ false
  pub majority : m.initial_group_size < length m.members * 2
  pub not_open : get t m.vote_ins ≡ none
  pub goes_on : out.1 ≡ send_vote_in t m.next_session ∷ []
  pub is_open : get t out.0.vote_ins ≡ some m.next_session
  pub session :
      get (t, m.next_session) out.0.in_sessions
      ≡ some (record {
        target = t;
        addr = addr;
        members_at_start = m.members;
        acked_by = (m.self, tt) ∷ [];
        nacked_by = [];
        committed = false;
        outcome = none;
      })
  pub others : (r : ReplicaId) → t ≢ r → get r out.0.vote_ins ≡ get r m.vote_ins
  pub same_members : out.0.members ≡ m.members
  pub same_effects : out.0.effects ≡ m.effects

-- An answer is an error for a reason, or the vote that has begun.
abbrev pub Answers : (VoteError → Type 0) → (Section → Type 0) → Result VoteError Section → Type 0
Answers Reason Begun r =
    ((e : VoteError) × (r ≡ err e) × Reason e) ⊎ ((out : Section) × (r ≡ ok out) × Begun out)
