-- ===== src/Psync/Stability/Waves.antt =====
-- The waves that psync/stability.go calls complete have messages.
use comlink.Common.{
  ℕ, ◌≡◌, ◌≤◌, inl, inr, true, false, some, List, [], ◌∷◌, arith, Option-cases, max, refl,
  ℕ_discrete,
}
use comlink.Common.Assoc.{Assoc, nat_key, get}
use comlink.Psync.Membership.{Membership}
use comlink.Psync.Graph.{NodeRef, Graph, messages_in_wave, messages_at}
use comlink.Psync.Stability.{any_stable, wave_complete}

-- The greatest wave number of the graph.
unfoldable pub greatest_wave : Assoc ℕ (List NodeRef) → ℕ
greatest_wave [] = 0
greatest_wave ((w, ns) ∷ rest) = max w (greatest_wave rest)

get-le-greatest_wave :
    (m : Assoc ℕ (List NodeRef)) (w : ℕ) (ns : List NodeRef)
    → get w m ≡ some ns
    → w ≤ greatest_wave m
unfolding get greatest_wave
get-le-greatest_wave [] w ns e = cc
get-le-greatest_wave ((v, x) ∷ m) w ns e = elim (ℕ_discrete v w) [
  | yes p ↦ omega (arith, p)
  | no n ↦ omega (arith, get-le-greatest_wave m w ns (ground (arith, n)))
]

-- A complete wave is among those of the graph.
pub wave_complete-le :
    (m : Membership) (g : Graph) (w : ℕ)
    → wave_complete m g w ≡ some true
    → w ≤ greatest_wave g.by_wave
unfolding wave_complete any_stable messages_in_wave messages_at
wave_complete-le m g w e = elim (Option-cases (get w g.by_wave)) [
  | inr (ns, f) ↦ get-le-greatest_wave g.by_wave w ns f
  | inl f ↦ let none_there : wave_complete m g w ≡ some false = rw (f, wave_complete) refl in cc
]
