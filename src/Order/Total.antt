-- ===== src/Order/Total.antt =====
-- order/total.go: the waves of a conversation in their order, each sorted by sender. What was pushed to
-- the `apply` channel is a list. `sort.Slice` is a parameter: it does not say in which order it leaves
-- envelopes of the same sender. A drain asks the conversation several times, and here it sees one view
-- and one graph throughout.
pub mod Drain
use comlink.Common.{
  ℕ, zero, suc, ◌+◌, Bool, true, false, Option, none, some, List, [], ◌∷◌, ◌++◌, ltb, if◌then◌else◌,
}
use comlink.Common.Assoc.{Assoc, Bytes, bytes_key, get, put}
use comlink.Messages.{ReplicaId, Envelope, sender_of, vector_of}
use comlink.Psync.Membership.{Membership}
use comlink.Psync.Graph.{NodeRef, Graph, lookup, messages_in_wave, wave_of}
use comlink.Psync.Stability.{wave_complete}

pub record Total : Type 0 where
  pub apply : List Envelope
  pub next_wave : ℕ
  pub latest_wave : Assoc Bytes ℕ

unfoldable pub new_total : Total
new_total = record { apply = []; next_wave = 1; latest_wave = [] }

-- Whether `w` is news against what is known of the sender.
is_later : ℕ → Option ℕ → Bool
is_later w none = true
is_later w (some cur) = ltb cur w

unfoldable pub note_observed_wave : Total → Envelope → Total
unfolding is_later wave_of get put
note_observed_wave t env =
    let w = wave_of (vector_of env) in
    if is_later w (get (sender_of env) t.latest_wave)
    then record t { latest_wave = put (sender_of env) w t.latest_wave }
    else t

-- `w` is past `wave`, if it is known at all.
past : ℕ → Option ℕ → Bool
past wave none = false
past wave (some w) = ltb wave w

-- The loop of `continuationProperty` over the slots and their flags.
continuation_from : Assoc Bytes ℕ → ℕ → List ReplicaId → List Bool → Bool
unfolding past get
continuation_from latest wave [] fs = true
continuation_from latest wave (r ∷ rs) [] = true
continuation_from latest wave (r ∷ rs) (f ∷ fs) =
    let rest = continuation_from latest wave rs fs in
    if f then rest else if past wave (get r latest) then rest else false

unfoldable pub continuation_property : Membership → Total → ℕ → Bool
unfolding continuation_from
continuation_property m t wave = continuation_from t.latest_wave wave m.replicas m.frozen

-- `MessagesInWave` of the conversation: the envelopes of a wave.
envelopes_of_wave : Graph → List NodeRef → List Envelope
envelopes_of_wave g [] = []
envelopes_of_wave g ((s, q) ∷ refs) =
    let rest = envelopes_of_wave g refs in
    elim (lookup g s q) [ none ↦ rest | some n ↦ n.envelope ∷ rest ]

pub data Drained : Type 0 where
  drained : Total → Drained
  panicked out_of_fuel : Drained

module _ (sort : List Envelope → List Envelope) (m : Membership) (g : Graph) where
  -- The test of the loop of `drainCompleteWaves`; `none` is a panic of the first half.
  pub ready : Total → Option Bool
  ready t = elim (wave_complete m g t.next_wave) [
    | none ↦ none
    | some true ↦ some (continuation_property m t t.next_wave)
    | some false ↦ some false
  ]

  -- The body of the loop.
  emit_wave : Total → Total
  unfolding envelopes_of_wave
  emit_wave t = record t {
    apply = t.apply ++ sort (envelopes_of_wave g (messages_in_wave g t.next_wave));
    next_wave = t.next_wave + 1;
  }

  unfoldable pub drain_complete_waves : ℕ → Total → Drained
  unfolding ready emit_wave
  drain_complete_waves zero t = out_of_fuel
  drain_complete_waves (suc fuel) t =
      let rest = drain_complete_waves fuel (emit_wave t) in
      elim (ready t) [ none ↦ panicked | some true ↦ rest | some false ↦ drained t ]

  -- One round of `pump`.
  unfoldable pub pump : ℕ → Total → Envelope → Drained
  unfolding note_observed_wave
  pump fuel t env = drain_complete_waves fuel (note_observed_wave t env)
