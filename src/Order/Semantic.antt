-- ===== src/Order/Semantic.antt =====
-- order/semorder.go: operations of class 1 as soon as their predecessors are executed, all others by
-- waves. What was pushed to the `apply` channel is a list. Go's iteration over `messagesByWave` has no
-- fixed order, and `sort.Slice` none for envelopes of one sender: both are parameters, as is the
-- classifier. The list `deferredEager`, which nothing is ever put into, is left out.
pub mod Loop
pub mod Causal
pub mod Safety
pub mod Ends
pub mod Runs
pub mod Returns
use comlink.Common.{
  ℕ, zero, suc, ◌+◌, ◌-◌, Bool, true, false, not, Option, none, some, List, [], ◌∷◌, ◌++◌, ltb, leb,
  ◌==◌, if◌then◌else◌, length, get_or, ite,
}
use comlink.Common.Assoc.{
  Assoc, Bytes, Bytes-discrete, IndexKey, nat_key, bytes_key, index_key, get, put,
}
use comlink.Common.Result.{Result, ok, err}
use comlink.Messages.{ReplicaId, Envelope, id_of, sender_of, vector_of}
use comlink.Psync.Graph.{wave_of}
use comlink.Psync.Membership.{Membership, SeqError, replica, slot_of, sender_seq, active_replicas}
use comlink.Psync.Vector.{Vector}

pub record SemState : Type 0 where
  pub membership : Membership
  pub current_wave : ℕ
  pub executed : Assoc IndexKey (Unit {0})
  pub messages_by_wave : Assoc ℕ (List Envelope)
  pub seen_in_wave : Assoc ℕ (Assoc IndexKey (Unit {0}))
  pub latest_vector : Assoc Bytes Vector
  pub apply : List Envelope

-- `NewSemOrder` with the conversation's view at that time.
unfoldable pub new_sem_order : Membership → SemState
new_sem_order m = record {
  membership = m;
  current_wave = 1;
  executed = [];
  messages_by_wave = [];
  seen_in_wave = [];
  latest_vector = [];
  apply = [];
}

abbrev pub or_empty : {A : Type 0} → Option (List A) → List A
or_empty none = []
or_empty (some xs) = xs

abbrev pub is_some : {A : Type 0} → Option A → Bool
is_some none = false
is_some (some a) = true

unfoldable pub dominates_or_equal : Vector → Vector → Bool
dominates_or_equal [] [] = true
dominates_or_equal [] (y ∷ ys) = false
dominates_or_equal (x ∷ xs) [] = false
dominates_or_equal (x ∷ xs) (y ∷ ys) =
    let rest = dominates_or_equal xs ys in if ltb x y then false else rest

abbrev replaces : Vector → Option Vector → Bool
replaces v none = true
replaces v (some existing) = dominates_or_equal v existing

unfoldable pub observe_new : Envelope → IndexKey → Assoc IndexKey (Unit {0}) → SemState → SemState
unfolding dominates_or_equal wave_of get put
observe_new env key bucket st =
    let wave = wave_of (vector_of env) in
    record st {
      seen_in_wave = put wave (put key tt bucket) st.seen_in_wave;
      messages_by_wave =
          put wave (or_empty (get wave st.messages_by_wave) ++ env ∷ []) st.messages_by_wave;
      latest_vector =
          if replaces (vector_of env) (get (sender_of env) st.latest_vector)
          then put (sender_of env) (vector_of env) st.latest_vector
          else st.latest_vector;
    }

unfoldable pub observe : Envelope → SemState → SemState
unfolding observe_new sender_seq
observe env st = elim (sender_seq st.membership (id_of env)) [
  | err e ↦ st
  | ok seq ↦
      let bucket = or_empty (get (wave_of (vector_of env)) st.seen_in_wave) in
      if is_some (get (sender_of env, seq) bucket)
      then st
      else observe_new env (sender_of env, seq) bucket st
]

unfoldable pub is_executed_key : SemState → Bytes → ℕ → Bool
unfolding get
is_executed_key st s q = is_some (get (s, q) st.executed)

unfoldable pub is_executed : SemState → Envelope → Bool
unfolding is_executed_key sender_seq
is_executed st env = elim (sender_seq st.membership (id_of env)) [
  | err e ↦ false
  | ok seq ↦ is_executed_key st (sender_of env) seq
]

unfoldable pub apply_env : Envelope → SemState → SemState
unfolding sender_seq put
apply_env env st = elim (sender_seq st.membership (id_of env)) [
  | err e ↦ st
  | ok seq ↦ record st {
    executed = put (sender_of env, seq) tt st.executed;
    apply = st.apply ++ env ∷ [];
  }
]

-- The entry of another slot: `none` is the panic of `Replica` beyond the view of `NewSemOrder`.
unfoldable pub other_executed : SemState → ℕ → Option ReplicaId → Option Bool → Option Bool
unfolding is_executed_key
other_executed st dep none rest = none
other_executed st dep (some r) rest = if is_executed_key st r dep then rest else some false

-- The test of one entry of the vector.
unfoldable pub entry_executed : SemState → Bytes → ℕ → ℕ → ℕ → ℕ → Option Bool → Option Bool
unfolding other_executed is_executed_key
entry_executed st s own seq slot dep rest =
    if slot == own
    then (if leb seq 1 then rest else if is_executed_key st s (seq - 1) then rest else some false)
    else if dep == 0
    then rest
    else other_executed st dep (replica st.membership slot) rest

-- The loop of `predecessorsExecuted` over the entries of the vector from `slot` on.
unfoldable pub predecessors_from : SemState → Bytes → ℕ → ℕ → ℕ → Vector → Option Bool
unfolding entry_executed
predecessors_from st s own seq slot [] = some true
predecessors_from st s own seq slot (dep ∷ v) =
    let rest = predecessors_from st s own seq (slot + 1) v in
    entry_executed st s own seq slot dep rest

unfoldable pub predecessors_executed : SemState → Envelope → Option Bool
unfolding predecessors_from slot_of sender_seq
predecessors_executed st env = elim (slot_of st.membership (sender_of env)) [
  | none ↦ some false
  | some own ↦ elim (sender_seq st.membership (id_of env)) [
    | err e ↦ some false
    | ok seq ↦ predecessors_from st (sender_of env) own seq 0 (vector_of env)
  ]
]

-- The loop of `isMessageStableLocal` over the slots and their flags.
stable_from : SemState → Bytes → ℕ → ℕ → ℕ → List ReplicaId → List Bool → Bool
unfolding get
stable_from st s own seq slot [] fs = true
stable_from st s own seq slot (r ∷ rs) [] = true
stable_from st s own seq slot (r ∷ rs) (f ∷ fs) =
    let rest = stable_from st s own seq (slot + 1) rs fs in
    if slot == own
    then rest
    else if f
    then rest
    else ite (Bytes-discrete r s) rest (elim (get r st.latest_vector) [
      | none ↦ false
      | some latest ↦ if ltb (get_or latest own 0) seq then false else rest
    ])

unfoldable pub is_message_stable_local : SemState → Envelope → Bool
unfolding stable_from slot_of sender_seq
is_message_stable_local st env = elim (slot_of st.membership (sender_of env)) [
  | none ↦ false
  | some own ↦ elim (sender_seq st.membership (id_of env)) [
    | err e ↦ false
    | ok seq ↦ stable_from st (sender_of env) own seq 0 st.membership.replicas st.membership.frozen
  ]
]

any_stable : SemState → List Envelope → Bool
unfolding is_message_stable_local
any_stable st [] = false
any_stable st (env ∷ envs) =
    let rest = any_stable st envs in if is_message_stable_local st env then true else rest

unfoldable pub wave_complete_local : SemState → ℕ → Bool
unfolding any_stable get
wave_complete_local st w = any_stable st (or_empty (get w st.messages_by_wave))

continues : SemState → List ReplicaId → Bool
unfolding wave_of get
continues st [] = true
continues st (r ∷ rs) =
    let rest = continues st rs in
    elim (get r st.latest_vector) [
      | none ↦ false
      | some latest ↦ if leb (wave_of latest) st.current_wave then false else rest
    ]

unfoldable pub continuation_property : SemState → Bool
unfolding continues active_replicas
continuation_property st = continues st (active_replicas st.membership)

pub max_wave : Assoc ℕ (List Envelope) → ℕ
max_wave [] = 0
max_wave ((w, envs) ∷ rest) = let m = max_wave rest in if ltb m w then w else m

unfoldable pub max_observed_wave : SemState → ℕ
unfolding max_wave
max_observed_wave st = max_wave st.messages_by_wave
