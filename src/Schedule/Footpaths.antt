-- ===== src/Schedule/Footpaths.antt =====
-- internal/schedule/buffer.go and loader.go: the walk edges, and their closure by a Dijkstra search
-- from each station.
pub mod Queue
pub mod Sound
pub mod Relax
pub mod Shortest
pub mod Enough
pub mod Least
use multi_agent_travel.Prelude.GoMap.{lookup_or, member, lookup, keys, insert, GoMap}
use multi_agent_travel.Prelude.{
  ℕ, zero, suc, ◌+◌, ◌-◌, ◌*◌, ◌/◌, ◌≤◌, ◌<◌, String, ◌≡◌, refl, sym, ap, ◌∙◌, ◌≢◌, ◌↔◌, ◌⊎◌, inl,
  inr, Bool, true, false, not, ◌&&◌, ◌||◌, Option, none, some, List, [], ◌∷◌, ◌++◌, map, arith, ltb,
  leb, nat_eq, if◌then◌else◌, Bool-cases, Option-cases, ◌==◌, Eq, eq_ℕ, eq_String, eq→≡, ==_refl,
  length, get_elem?, take, drop, is_empty, All, All-map, All-get, All-append,
}
use multi_agent_travel.Prelude.Int.{
  eqb_ℤ, ℤ, pos, negsuc, pos_part, neg_part, ltb_ℤ, leb_ℤ, ◌≤ℤ◌, ◌<ℤ◌, eq_ℤ, add64, max_int64,
}
use multi_agent_travel.Schedule.Footpaths.Queue.{WalkNode, push, pop}
use multi_agent_travel.Model.{Footpath}
use multi_agent_travel.Prelude.Sorting.{sort, str_ltb}

pub record LoadOptions : Type 0 where
  pub max_walk_seconds : ℤ
  pub max_footpaths_per_station : ℤ

unfoldable pub with_defaults : LoadOptions → LoadOptions
with_defaults o = record {
  max_walk_seconds = if leb_ℤ o.max_walk_seconds (pos 0) then pos 1_800 else o.max_walk_seconds;
  max_footpaths_per_station =
      if leb_ℤ o.max_footpaths_per_station (pos 0) then pos 64 else o.max_footpaths_per_station;
}

-- A row of the table of footpaths.
pub record FootpathRow : Type 0 where
  pub station_id : String
  pub neighbour_id : String
  pub walk_seconds : ℤ

abbrev pub Walks : Type 0
Walks = GoMap String (List Footpath)

unfoldable pub add_footpath : FootpathRow → Walks → Walks
add_footpath r out =
    if leb_ℤ r.walk_seconds (pos 0) || r.station_id == r.neighbour_id
    then out
    else insert r.station_id
        (lookup_or [] r.station_id out
          ++ (record { neighbour_stop = r.neighbour_id; walk_seconds = r.walk_seconds } ∷ []))
        out

-- loadFootpaths, from the rows of the query on.
unfoldable pub load_footpaths : List FootpathRow → Walks → Walks
unfolding add_footpath
load_footpaths [] out = out
load_footpaths (r ∷ rows) out = load_footpaths rows (add_footpath r out)

-- dist, settled and pq.
pub record Search : Type 0 where
  pub dist : GoMap String ℤ
  pub settled : List String
  pub queue : List WalkNode

unfoldable pub start_at : String → Search
unfolding push
start_at src = record {
  dist = (src, pos 0) ∷ [];
  settled = [];
  queue = push (record { stop = src; dist = pos 0 }) [];
}

abbrev pub is_no_better : ℤ → Option ℤ → Bool
is_no_better nd none = false
is_no_better nd (some cur) = leb_ℤ cur nd

unfoldable pub relax_walk : ℤ → ℤ → Footpath → Search → Search
unfolding push add64
relax_walk max_walk d e s =
    let nd = add64 d e.walk_seconds in
    if ltb_ℤ max_walk nd
    then s
    else if is_no_better nd (lookup e.neighbour_stop s.dist)
    then s
    else record s {
      dist = insert e.neighbour_stop nd s.dist;
      queue = push (record { stop = e.neighbour_stop; dist = nd }) s.queue;
    }

unfoldable pub relax_walks : ℤ → ℤ → List Footpath → Search → Search
unfolding relax_walk
relax_walks max_walk d [] s = s
relax_walks max_walk d (e ∷ es) s = relax_walks max_walk d es (relax_walk max_walk d e s)

abbrev pub is_beaten : ℤ → Option ℤ → Bool
is_beaten d none = false
is_beaten d (some best) = ltb_ℤ best d

-- One node that was taken from the queue.
unfoldable pub visit : Walks → ℤ → WalkNode → Search → Search
unfolding relax_walks
visit direct max_walk node s =
    if member node.stop s.settled
    then s
    else if is_beaten node.dist (lookup node.stop s.dist)
    then s
    else relax_walks max_walk node.dist (lookup_or [] node.stop direct)
        (record s { settled = node.stop ∷ s.settled })

unfoldable pub walk_loop : Walks → ℤ → ℕ → Search → Search
unfolding visit pop
walk_loop direct max_walk zero s = s
walk_loop direct max_walk (suc fuel) s = elim (pop s.queue) [
  | none ↦ s
  | some (node, rest) ↦
      walk_loop direct max_walk fuel (visit direct max_walk node (record s { queue = rest }))
]

unfoldable pub edge_count : Walks → ℕ
edge_count [] = 0
edge_count ((station, edges) ∷ rest) = length edges + edge_count rest

-- Every pop but the first takes what an edge pushed, and a station relaxes its edges once.
unfoldable pub walks_from : Walks → ℤ → String → GoMap String ℤ
unfolding walk_loop start_at edge_count
walks_from direct max_walk src =
    (walk_loop direct max_walk (suc (edge_count direct)) (start_at src)).dist

unfoldable pub edges_to : String → GoMap String ℤ → List Footpath
edges_to src [] = []
edges_to src ((station, d) ∷ rest) =
    let edges = edges_to src rest in
    if station == src then edges else record { neighbour_stop = station; walk_seconds = d } ∷ edges

unfoldable pub walk_less : Footpath → Footpath → Bool
unfolding str_ltb
walk_less a b =
    if not (eqb_ℤ a.walk_seconds b.walk_seconds)
    then ltb_ℤ a.walk_seconds b.walk_seconds
    else str_ltb a.neighbour_stop b.neighbour_stop

-- The edges of one station, nearest first.
unfoldable pub closed_edges : Walks → LoadOptions → String → List Footpath
unfolding walks_from edges_to sort walk_less
closed_edges direct o src =
    take (pos_part o.max_footpaths_per_station)
      (sort walk_less (edges_to src (walks_from direct o.max_walk_seconds src)))

unfoldable pub close_stations : Walks → LoadOptions → List String → Walks → Walks
unfolding closed_edges
close_stations direct o [] out = out
close_stations direct o (src ∷ srcs) out = close_stations direct o srcs (
    if leb (length (walks_from direct o.max_walk_seconds src)) 1
    then out
    else insert src (closed_edges direct o src) out)

unfoldable pub close_footpaths : Walks → LoadOptions → Walks
unfolding with_defaults close_stations
close_footpaths direct opts =
    close_stations direct (with_defaults opts) (sort str_ltb (keys direct)) []
