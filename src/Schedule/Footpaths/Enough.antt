-- ===== src/Schedule/Footpaths/Enough.antt =====
-- internal/schedule/buffer.go, closeFootpaths: the search from a station ends with its queue empty.
use multi_agent_travel.Prelude.GoMap.{lookup_or, member, lookup}
use multi_agent_travel.Prelude.{
  sym, Option, some, All-of_Any, ℕ, zero, suc, ◌+◌, ◌≤◌, String, ◌≡◌, refl, ◌∙◌, inl, inr, true,
  false, none, List, [], ◌∷◌, arith, if◌then◌else◌, Bool-cases, Option-cases, ◌==◌, eq_ℕ, eq_String,
  eq→≡, ==_refl, length,
}
use multi_agent_travel.Prelude.Int.{ℤ, pos, ltb_ℤ, eq_ℤ, add64}
use multi_agent_travel.Model.{Footpath}
use multi_agent_travel.Schedule.Footpaths.Queue.{WalkNode, pop}
use multi_agent_travel.Schedule.Footpaths.Queue.Members.{pop-keeps, length-push}
use multi_agent_travel.Schedule.Footpaths.{
  Walks, Search, start_at, relax_walk, relax_walks, visit, walk_loop, edge_count, is_beaten,
  is_no_better,
}

-- The edges of the stations that are not settled.
abbrev open_edges : Walks → List String → ℕ
open_edges [] settled = 0
open_edges ((station, edges) ∷ rest) settled =
    let n = open_edges rest settled in if member station settled then n else length edges + n

open_edges_mono :
    (direct : Walks) (u : String) (settled : List String)
    → open_edges direct (u ∷ settled) ≤ open_edges direct settled
unfolding member
open_edges_mono [] u settled = omega arith
open_edges_mono ((station, edges) ∷ rest) u settled = ground (arith, open_edges_mono rest u settled)

member-cons :
    (station u : String) (settled : List String)
    → member station (u ∷ settled) ≡ (if u == station then true else member station settled)
unfolding member
member-cons station u settled = refl

lookup-cons :
    (u station : String) (edges : List Footpath) (rest : Walks)
    → lookup u ((station, edges) ∷ rest) ≡ (if station == u then some edges else lookup u rest)
unfolding lookup
lookup-cons u station edges rest = refl

abbrev count : Option (List Footpath) → ℕ
count none = 0
count (some edges) = length edges

count-lookup : (u : String) (m : Walks) → length (lookup_or [] u m) ≡ count (lookup u m)
count-lookup u m = go (lookup u m)
  where
    go :
        (o : Option (List Footpath))
        → length (elim o as (λ x. List Footpath) [ none ↦ [] | some v ↦ v ]) ≡ count o
    go none = refl
    go (some v) = refl

edges-cons :
    (u station : String) (edges : List Footpath) (rest : Walks)
    → length (lookup_or [] u ((station, edges) ∷ rest))
      ≡ (if station == u then length edges else length (lookup_or [] u rest))
edges-cons u station edges rest =
    let here = count-lookup u ((station, edges) ∷ rest) in
    let there = count-lookup u rest in
    let cons = lookup-cons u station edges rest in
    elim (Bool-cases (station == u)) [
      | inl same ↦ rw same (here ∙ rw (cons, same) refl)
      | inr other ↦ rw other (here ∙ (rw (cons, other) (sym there)))
    ]

edges-nil : (u : String) → length {A = Footpath} (lookup_or [] u []) ≡ 0
unfolding lookup
edges-nil u = refl

-- A station that is settled gives its edges up.
open_edges-settle :
    (direct : Walks) (u : String) (settled : List String)
    → member u settled ≡ false
    → length (lookup_or [] u direct) + open_edges direct (u ∷ settled) ≤ open_edges direct settled
open_edges-settle [] u settled h = omega (arith, edges-nil u)
open_edges-settle ((station, edges) ∷ rest) u settled h =
    let cons = member-cons station u settled in
    let found = edges-cons u station edges rest in
    elim (Bool-cases (station == u)) [
      | inl same ↦
          let e = eq→≡ station u same in
          let self : (u == station) ≡ true = rw e (==_refl u) in
          let fresh : member station settled ≡ false = rw e h in
          let less = open_edges_mono rest u settled in
          rw (cons, found, self, same, fresh) (omega (arith, less))
      | inr other ↦
          let differ : (u == station) ≡ false =
            ground (arith, other, eq_String.decides station u, eq_String.decides u station) in
          let less = open_edges-settle rest u settled h in
          elim (Bool-cases (member station settled)) [
            | inl old ↦ rw (cons, found, differ, other, old) less
            | inr new ↦ rw (cons, found, differ, other, new) (omega (arith, less))
          ]
    ]

abbrev measure : Walks → Search → ℕ
measure direct s = length s.queue + open_edges direct s.settled

relax_walk-queue :
    (limit d : ℤ) (e : Footpath) (s : Search)
    → (length (relax_walk limit d e s).queue ≤ suc (length s.queue))
      × ((relax_walk limit d e s).settled ≡ s.settled)
unfolding relax_walk
relax_walk-queue limit d e s = elim (Bool-cases (ltb_ℤ limit (add64 d e.walk_seconds))) [
  | inl far ↦ rw (relax_walk, far) (omega arith, refl)
  | inr near ↦
      elim (Bool-cases (is_no_better (add64 d e.walk_seconds) (lookup e.neighbour_stop s.dist))) [
        | inl old ↦ rw (relax_walk, near, old) (omega arith, refl)
        | inr better ↦
            rw (relax_walk, near, better)
              (
                omega (
                  arith,
                  length-push (record { stop = e.neighbour_stop; dist = add64 d e.walk_seconds })
                      s.queue,
                ),
                refl,
              )
      ]
]

relax_walks-queue :
    (limit d : ℤ) (es : List Footpath) (s : Search)
    → (length (relax_walks limit d es s).queue ≤ length es + length s.queue)
      × ((relax_walks limit d es s).settled ≡ s.settled)
unfolding relax_walks
relax_walks-queue limit d [] s = (omega arith, refl)
relax_walks-queue limit d (e ∷ es) s =
    let (one, same) = relax_walk-queue limit d e s in
    let (more, all) = relax_walks-queue limit d es (relax_walk limit d e s) in
    (omega arith, all ∙ same)

module _ (direct : Walks) (limit : ℤ) where
  visit-measure :
      (n : WalkNode) (s : Search) → measure direct (visit direct limit n s) ≤ measure direct s
  unfolding visit
  visit-measure n s = elim (Bool-cases (member n.stop s.settled)) [
    | inl done_before ↦ rw (visit, done_before) (omega arith)
    | inr first ↦ elim (Bool-cases (is_beaten n.dist (lookup n.stop s.dist))) [
      | inl stale ↦ rw (visit, first, stale) (omega arith)
      | inr fresh ↦
          let edges = lookup_or [] n.stop direct in
          let next : Search = record s { settled = n.stop ∷ s.settled } in
          let (size, same) = relax_walks-queue limit n.dist edges next in
          let freed = open_edges-settle direct n.stop s.settled first in
          rw (visit, first, fresh) (rw same (omega arith))
    ]
  ]

  pop-none : (q : List WalkNode) → pop q ≡ none → q ≡ []
  unfolding pop
  pop-none [] e = refl
  pop-none (n ∷ q) e = absurd cc e

  no_nodes : (q : List WalkNode) → length q ≤ 0 → q ≡ []
  no_nodes [] h = refl
  no_nodes (n ∷ q) h = absurd (omega arith)

  walk_loop-empties :
      (fuel : ℕ) (s : Search) → measure direct s ≤ fuel → (walk_loop direct limit fuel s).queue ≡ []
  unfolding walk_loop
  walk_loop-empties zero s h = no_nodes s.queue (omega arith)
  walk_loop-empties (suc fuel) s h = elim (Option-cases (pop s.queue)) [
    | inl over ↦ rw (walk_loop, over) (pop-none s.queue over)
    | inr ((n, rest), e) ↦
        let (u, v, size) =
          pop-keeps (λ m. Unit) s.queue rest n e (All-of_Any (λ m. Unit) s.queue (λ m there. tt)) in
        let less = visit-measure n (record s { queue = rest }) in
        rw (walk_loop, e)
          (walk_loop-empties fuel (visit direct limit n (record s { queue = rest })) (omega arith))
  ]

  all_open : (d : Walks) → open_edges d [] ≡ edge_count d
  unfolding edge_count member
  all_open [] = refl
  all_open ((station, edges) ∷ rest) = omega (arith, all_open rest)

  -- One pop for the source and one for each direct edge are enough.
  pub search-empties :
      (src : String) → (walk_loop direct limit (suc (edge_count direct)) (start_at src)).queue ≡ []
  unfolding start_at
  search-empties src =
      walk_loop-empties (suc (edge_count direct)) (start_at src)
        (omega (arith, all_open direct, length-push (record { stop = src; dist = pos 0 }) []))
