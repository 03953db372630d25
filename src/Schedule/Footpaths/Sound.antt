-- ===== src/Schedule/Footpaths/Sound.antt =====
-- internal/schedule/buffer.go, closeFootpaths: every closed edge is a walk along the direct edges, of
-- that many seconds.
use multi_agent_travel.Prelude.Sorting.{All-sort, str_ltb, sort}
use multi_agent_travel.Prelude.GoMap.{keys, member, lookup, lookup_or, GoMap, insert}
use multi_agent_travel.Prelude.{
  All-of_Any, length-take, ◌≤◌, length, leb, All-take, Any, ℕ, zero, suc, String, ◌≡◌, ◌≢◌, inl,
  inr, List, [], ◌∷◌, arith, Bool-cases, Option-cases, ◌==◌, eq_ℕ, eq_String, eq→≡, All,
}
use multi_agent_travel.Prelude.Int.{pos_part, wrap64_id, ◌+ℤ◌, ℤ, pos, ltb_ℤ, ◌≤ℤ◌, eq_ℤ, add64}
use multi_agent_travel.Model.{Footpath}
use multi_agent_travel.Schedule.Footpaths.Queue.{WalkNode, pop}
use multi_agent_travel.Schedule.Footpaths.Queue.Members.{All-push, pop-keeps}
use multi_agent_travel.Schedule.Footpaths.{
  walk_less, with_defaults, closed_edges, close_stations, close_footpaths, LoadOptions, edge_count,
  Walks, Search, start_at, relax_walk, relax_walks, visit, walk_loop, walks_from, edges_to,
  is_no_better, is_beaten,
}

abbrev pub IsEdge : Walks → String → Footpath → Type 0
IsEdge direct u e = Any (λ f. f ≡ e) (lookup_or [] u direct)

-- A walk along the direct edges from a station, with its seconds.
pub data Walk (direct : Walks) (src : String) : String → ℤ → Type 0 where
  stay : Walk direct src src (pos 0)
  walk_on :
      (u : String) (d : ℤ) (e : Footpath)
      → Walk direct src u d
      → IsEdge direct u e
      → Walk direct src e.neighbour_stop (d +ℤ e.walk_seconds)

abbrev pub max_walk : ℤ
max_walk = pos 2_147_483_647

-- The seconds of a direct edge are positive, and fit the column that they are read from.
abbrev pub IsWalkable : Walks → Type 0
IsWalkable direct =
    (u : String) (e : Footpath)
    → IsEdge direct u e
    → (pos 1 ≤ℤ e.walk_seconds) × (e.walk_seconds ≤ℤ max_walk)

module _ (direct : Walks) (limit : ℤ) (src : String) where
  -- A station with the seconds of a walk to it within the limit.
  abbrev pub IsFound : String → ℤ → Type 0
  IsFound stop d = Walk direct src stop d × (pos 0 ≤ℤ d) × (d ≤ℤ limit)

  pub record IsSearch (s : Search) : Type 0 where
    pub found : All (λ p. IsFound p.0 p.1) s.dist
    pub queued : All (λ n. IsFound n.stop n.dist) s.queue

  All-insert :
      (stop : String) (d : ℤ) (m : GoMap String ℤ)
      → IsFound stop d
      → All (λ p. IsFound p.0 p.1) m
      → All (λ p. IsFound p.0 p.1) (insert stop d m)
  unfolding insert
  All-insert stop d [] f h = (f, tt)
  All-insert stop d ((key, old) ∷ rest) f h = elim (Bool-cases (key == stop)) [
    | inl same ↦ rw same (rw (eq→≡ key stop same) f, h.1)
    | inr other ↦ rw other (h.0, All-insert stop d rest f h.1)
  ]

  module _ (bound : limit ≤ℤ max_walk) where
    relax_walk-IsSearch :
        (u : String) (d : ℤ) (e : Footpath) (s : Search)
        → IsFound u d
        → IsEdge direct u e
        → (pos 1 ≤ℤ e.walk_seconds) × (e.walk_seconds ≤ℤ max_walk)
        → IsSearch s
        → IsSearch (relax_walk limit d e s)
    unfolding relax_walk add64
    relax_walk-IsSearch u d e s f edge fits h =
        let same : add64 d e.walk_seconds ≡ d +ℤ e.walk_seconds =
          wrap64_id (d +ℤ e.walk_seconds) (unfold ◌+ℤ◌ in ground arith) in
        elim (Bool-cases (ltb_ℤ limit (add64 d e.walk_seconds))) [
          | inl far ↦ rw (relax_walk, far) h
          | inr near ↦
              elim (Bool-cases
                (is_no_better (add64 d e.walk_seconds) (lookup e.neighbour_stop s.dist))) [
                  | inl old ↦ rw (relax_walk, near, old) h
                  | inr better ↦
                      let step : IsFound e.neighbour_stop (add64 d e.walk_seconds) = (
                        rw same (walk_on u d e f.0 edge),
                        rw same (unfold ◌+ℤ◌ in ground arith),
                        ground arith,
                      ) in
                      rw (relax_walk, near, better)
                        (record {
                          found =
                              All-insert e.neighbour_stop (add64 d e.walk_seconds) s.dist step
                                h.found;
                          queued =
                              All-push _
                                (record { stop = e.neighbour_stop; dist = add64 d e.walk_seconds })
                                s.queue step h.queued;
                        })
                ]
        ]

    relax_walks-IsSearch :
        (u : String) (d : ℤ) (es : List Footpath) (s : Search)
        → IsFound u d
        → All (λ e. IsEdge direct u e × (pos 1 ≤ℤ e.walk_seconds) × (e.walk_seconds ≤ℤ max_walk)) es
        → IsSearch s
        → IsSearch (relax_walks limit d es s)
    unfolding relax_walks
    relax_walks-IsSearch u d [] s f edges h = h
    relax_walks-IsSearch u d (e ∷ es) s f edges h =
        relax_walks-IsSearch u d es (relax_walk limit d e s) f edges.1
          (relax_walk-IsSearch u d e s f edges.0.0 (edges.0.1, edges.0.2) h)

    module _ (walkable : IsWalkable direct) where
      pub visit-IsSearch :
          (n : WalkNode) (s : Search)
          → IsFound n.stop n.dist
          → IsSearch s
          → IsSearch (visit direct limit n s)
      unfolding visit
      visit-IsSearch n s f h = elim (Bool-cases (member n.stop s.settled)) [
        | inl done_before ↦ rw (visit, done_before) h
        | inr first ↦ elim (Bool-cases (is_beaten n.dist (lookup n.stop s.dist))) [
          | inl stale ↦ rw (visit, first, stale) h
          | inr fresh ↦
              rw (visit, first, fresh)
                (relax_walks-IsSearch n.stop n.dist (lookup_or [] n.stop direct)
                  (record s { settled = n.stop ∷ s.settled }) f
                  (All-of_Any _ (lookup_or [] n.stop direct)
                    (λ e edge. (edge, (walkable n.stop e edge).0, (walkable n.stop e edge).1)))
                  (record { found = h.found; queued = h.queued }))
        ]
      ]

      walk_loop-IsSearch :
          (fuel : ℕ) (s : Search) → IsSearch s → IsSearch (walk_loop direct limit fuel s)
      unfolding walk_loop
      walk_loop-IsSearch zero s h = h
      walk_loop-IsSearch (suc fuel) s h = elim (Option-cases (pop s.queue)) [
        | inl over ↦ rw (walk_loop, over) h
        | inr ((n, rest), e) ↦
            let (here, left, size) =
              pop-keeps (λ m. IsFound m.stop m.dist) s.queue rest n e h.queued in
            rw (walk_loop, e)
              (walk_loop-IsSearch fuel (visit direct limit n (record s { queue = rest })) (
                visit-IsSearch n (record s { queue = rest }) here
                  (record { found = h.found; queued = left })))
      ]

      pub walks_from-IsFound :
          pos 0 ≤ℤ limit → All (λ p. IsFound p.0 p.1) (walks_from direct limit src)
      unfolding walks_from start_at
      walks_from-IsFound h =
          let here : IsFound src (pos 0) = (stay, ground arith, h) in
          (walk_loop-IsSearch (suc (edge_count direct)) (start_at src) (record {
            found = (here, tt);
            queued =
                All-push (λ m. IsFound m.stop m.dist) (record { stop = src; dist = pos 0 }) [] here
                  tt;
          })).found

-- A closed edge of a station: a walk to another station, of its seconds, within the limit.
pub record IsClosed (direct : Walks) (limit : ℤ) (src : String) (e : Footpath) : Type 0 where
  pub moves : e.neighbour_stop ≢ src
  pub walked : Walk direct src e.neighbour_stop e.walk_seconds
  pub near : e.walk_seconds ≤ℤ limit

edges_to-IsClosed :
    (direct : Walks) (limit : ℤ) (src : String) (m : GoMap String ℤ)
    → All (λ p. IsFound direct limit src p.0 p.1) m
    → All (IsClosed direct limit src) (edges_to src m)
unfolding edges_to
edges_to-IsClosed direct limit src [] h = tt
edges_to-IsClosed direct limit src ((stop, d) ∷ rest) h = elim (Bool-cases (stop == src)) [
  | inl self ↦ rw self (edges_to-IsClosed direct limit src rest h.1)
  | inr other ↦ rw other (
    record {
      moves = λ e. absurd (ground (arith, other, eq_String.decides stop src));
      walked = h.0.0;
      near = h.0.2;
    },
    edges_to-IsClosed direct limit src rest h.1,
  )
]

closed_edges-IsClosed :
    (direct : Walks) (o : LoadOptions) (src : String)
    → IsWalkable direct
    → pos 0 ≤ℤ o.max_walk_seconds
    → o.max_walk_seconds ≤ℤ max_walk
    → All (IsClosed direct o.max_walk_seconds src) (closed_edges direct o src)
unfolding closed_edges
closed_edges-IsClosed direct o src walkable low high =
    let limit = o.max_walk_seconds in
    All-take (IsClosed direct limit src) (pos_part o.max_footpaths_per_station)
      (sort walk_less (edges_to src (walks_from direct limit src)))
      (All-sort walk_less (IsClosed direct limit src) (edges_to src (walks_from direct limit src)) (
        edges_to-IsClosed direct limit src (walks_from direct limit src)
          (walks_from-IsFound direct limit src high walkable low)))

-- What a station has in the closure.
pub record IsStation (direct : Walks) (o : LoadOptions) (src : String) (edges : List Footpath)
    : Type 0 where
  pub closed : All (IsClosed direct o.max_walk_seconds src) edges
  pub capped : length edges ≤ pos_part o.max_footpaths_per_station

All-insert_station :
    (P : String → List Footpath → Type 0) (src : String) (es : List Footpath) (m : Walks)
    → P src es
    → All (λ p. P p.0 p.1) m
    → All (λ p. P p.0 p.1) (insert src es m)
unfolding insert
All-insert_station P src es [] h k = (h, tt)
All-insert_station P src es ((key, old) ∷ rest) h k = elim (Bool-cases (key == src)) [
  | inl same ↦ rw same (rw (eq→≡ key src same) h, k.1)
  | inr other ↦ rw other (k.0, All-insert_station P src es rest h k.1)
]

closed_edges-capped :
    (direct : Walks) (o : LoadOptions) (src : String)
    → length (closed_edges direct o src) ≤ pos_part o.max_footpaths_per_station
unfolding closed_edges
closed_edges-capped direct o src = length-take (pos_part o.max_footpaths_per_station) _

close_stations-IsStation :
    (direct : Walks) (o : LoadOptions) (srcs : List String) (out : Walks)
    → IsWalkable direct
    → pos 0 ≤ℤ o.max_walk_seconds
    → o.max_walk_seconds ≤ℤ max_walk
    → All (λ p. IsStation direct o p.0 p.1) out
    → All (λ p. IsStation direct o p.0 p.1) (close_stations direct o srcs out)
unfolding close_stations
close_stations-IsStation direct o [] out walkable low high h = h
close_stations-IsStation direct o (src ∷ srcs) out walkable low high h =
    elim (Bool-cases (leb (length (walks_from direct o.max_walk_seconds src)) 1)) [
      | inl alone ↦ rw alone (close_stations-IsStation direct o srcs out walkable low high h)
      | inr reached ↦ rw reached (
          close_stations-IsStation direct o srcs (insert src (closed_edges direct o src) out)
            walkable low high
            (All-insert_station (IsStation direct o) src (closed_edges direct o src) out
              (record {
                closed = closed_edges-IsClosed direct o src walkable low high;
                capped = closed_edges-capped direct o src;
              })
              h))
    ]

-- Every edge of the footpath closure leads to another station, is the exact seconds of a walk along
-- direct edges, and stays within the limit of the walk; a station has no more edges than the cap.
-- The direct edges have positive seconds that fit their column, and so does the limit.
pub close_footpaths-IsStation :
    (direct : Walks) (opts : LoadOptions)
    → IsWalkable direct
    → opts.max_walk_seconds ≤ℤ max_walk
    → All (λ p. IsStation direct (with_defaults opts) p.0 p.1) (close_footpaths direct opts)
unfolding close_footpaths with_defaults
close_footpaths-IsStation direct opts walkable high =
    close_stations-IsStation direct (with_defaults opts) (sort str_ltb (keys direct)) [] walkable
      (ground arith) (ground arith) tt
