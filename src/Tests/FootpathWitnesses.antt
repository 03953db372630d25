-- ===== src/Tests/FootpathWitnesses.antt =====
-- The theorems on the footpath closure at a concrete graph.
use multi_agent_travel.Prelude.GoMap.{lookup}
use multi_agent_travel.Prelude.{
  Any, String, ◌≡◌, refl, inl, inr, Option, none, some, List, [], ◌∷◌, arith, Bool-cases, ◌==◌,
  eq_ℕ, eq_String, All,
}
use multi_agent_travel.Prelude.Int.{◌+ℤ◌, ℤ, pos, ◌≤ℤ◌, eq_ℤ}
use multi_agent_travel.Model.{Footpath}
use multi_agent_travel.Schedule.Footpaths.{
  Walks, LoadOptions, with_defaults, close_footpaths, walks_from,
}
use multi_agent_travel.Schedule.Footpaths.Sound.{
  max_walk, Walk, stay, walk_on, IsWalkable, IsStation, close_footpaths-IsStation,
}
use multi_agent_travel.Schedule.Footpaths.Least.{walks_from_least}

abbrev edge_to : String → ℤ → Footpath
edge_to stop d = record { neighbour_stop = stop; walk_seconds = d }

-- A to C is shorter over B.
abbrev sample_walks : Walks
sample_walks =
    ("A", edge_to "B" (pos 60) ∷ edge_to "C" (pos 200) ∷ []) ∷ ("B", edge_to "C" (pos 50) ∷ []) ∷ []

abbrev IsFitting : Footpath → Type 0
IsFitting e = (pos 1 ≤ℤ e.walk_seconds) × (e.walk_seconds ≤ℤ max_walk)

IsFitting-edge :
    (es : List Footpath) (e : Footpath) → All IsFitting es → Any (λ f. f ≡ e) es → IsFitting e
IsFitting-edge [] e h k = absurd k
IsFitting-edge (f ∷ es) e h (inl same) = rw (← same) h.0
IsFitting-edge (f ∷ es) e h (inr there) = IsFitting-edge es e h.1 there

IsFitting-station :
    (m : Walks) (u : String) (es : List Footpath)
    → All (λ p. All IsFitting p.1) m
    → lookup u m ≡ some es
    → All IsFitting es
unfolding lookup
IsFitting-station [] u es h e = absurd cc e
IsFitting-station ((key, x) ∷ rest) u es h e = elim (Bool-cases (key == u)) [
  | inl same ↦ rw (← some_eq (rw same at e)) h.0
  | inr other ↦ IsFitting-station rest u es h.1 (rw other at e)
]
  where
    some_eq : {a b : List Footpath} → some a ≡ some b → a ≡ b
    some_eq q = cc

sample_walks-IsWalkable : IsWalkable sample_walks
sample_walks-IsWalkable u e there = go (lookup u sample_walks) refl there
  where
    fits : All (λ p. All IsFitting p.1) sample_walks
    fits = (
      ((omega arith, omega arith), ((omega arith, omega arith), tt)),
      (((omega arith, omega arith), tt), tt),
    )

    go :
        (o : Option (List Footpath))
        → lookup u sample_walks ≡ o
        → Any (λ f. f ≡ e) (elim o as (λ x. List Footpath) [ none ↦ [] | some es ↦ es ])
        → IsFitting e
    go none q k = absurd k
    go (some es) q k = IsFitting-edge es e (IsFitting-station sample_walks u es fits q) k

abbrev sample_options : LoadOptions
sample_options = record { max_walk_seconds = pos 900; max_footpaths_per_station = pos 64 }

close_footpaths-IsStation_example :
    All
      (λ p. IsStation sample_walks (with_defaults sample_options) p.0 p.1)
      (close_footpaths sample_walks sample_options)
close_footpaths-IsStation_example =
    close_footpaths-IsStation sample_walks sample_options sample_walks-IsWalkable (omega arith)

Walk-to_b : Walk sample_walks "A" "B" (pos 60)
unfolding ◌+ℤ◌ lookup
Walk-to_b = walk_on "A" (pos 0) (edge_to "B" (pos 60)) stay (inl refl)

Walk-to_c : Walk sample_walks "A" "C" (pos 110)
unfolding ◌+ℤ◌ lookup
Walk-to_c = walk_on "B" (pos 60) (edge_to "C" (pos 50)) Walk-to_b (inl refl)

walks_from_least_example :
    (y : ℤ) × (lookup "C" (walks_from sample_walks (pos 900) "A") ≡ some y)
    × (y ≤ℤ pos 110)
    × Walk sample_walks "A" "C" y
walks_from_least_example =
    walks_from_least sample_walks (pos 900) "A" (omega arith) sample_walks-IsWalkable (omega arith)
      "C" (pos 110) Walk-to_c (omega arith)
