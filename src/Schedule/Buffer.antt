-- ===== src/Schedule/Buffer.antt =====
-- internal/schedule/buffer.go, the route buffer: its data, the lookups that the other packages make
-- and its summary. The published pointer is modelled in Schedule/Publish.antt.
use multi_agent_travel.Prelude.{
  ℕ, suc, String, Bool, false, List, [], ◌∷◌, Option, none, some, if◌then◌else◌, length, get_elem?,
}
use multi_agent_travel.Prelude.Int.{ℤ, pos, negsuc}
use multi_agent_travel.Prelude.GoMap.{GoMap, lookup}
use multi_agent_travel.Model.{
  RouteEntry, TripStopTimes, TripKey, eq_TripKey, TripLocation, Footpath,
}

-- The ints of the source: an inconsistent buffer may hold negative ones, which the search rejects.
pub record RouteStop : Type 0 where
  pub route_idx : ℤ
  pub stop_pos : ℤ

pub record RouteBuffer : Type 0 where
  pub routes : List RouteEntry
  pub stop_times : List (List TripStopTimes)
  pub trip_index : GoMap TripKey TripLocation
  pub stop_to_routes : GoMap String (List RouteStop)
  pub footpaths : GoMap String (List Footpath)
  pub route_fifo : List Bool

unfoldable pub new_route_buffer : RouteBuffer
new_route_buffer = record {
  routes = [];
  stop_times = [];
  trip_index = [];
  stop_to_routes = [];
  footpaths = [];
  route_fifo = [];
}

pub record Stats : Type 0 where
  pub routes : ℕ
  pub trips : ℕ
  pub stations : ℕ
  pub footpath_origin : ℕ
  pub non_fifo_routes : ℕ

abbrev pub count_false : List Bool → ℕ
count_false [] = 0
count_false (b ∷ bs) = let n = count_false bs in if b then n else suc n

unfoldable pub stats : RouteBuffer → Stats
stats b = record {
  routes = length b.routes;
  trips = length b.trip_index;
  stations = length b.stop_to_routes;
  footpath_origin = length b.footpaths;
  non_fifo_routes = count_false b.route_fifo;
}

-- An index out of range is answered with false.
unfoldable pub is_fifo : RouteBuffer → ℤ → Bool
is_fifo b (negsuc i) = false
is_fifo b (pos i) = elim (get_elem? b.route_fifo i) [ none ↦ false | some fifo ↦ fifo ]

-- The trip at a location, where both indices are in range.
unfoldable pub trip_at : RouteBuffer → TripLocation → Option TripStopTimes
trip_at b loc = elim (get_elem? b.stop_times loc.route_idx) [
  | none ↦ none
  | some trips ↦ get_elem? trips loc.trip_idx
]

abbrev pub first_departure : List ℤ → ℤ
first_departure [] = pos 0
first_departure (d ∷ ds) = d

unfoldable pub trip_departure : RouteBuffer → TripKey → ℤ
unfolding trip_at
trip_departure b key = elim (lookup key b.trip_index) [
  | none ↦ pos 0
  | some loc ↦ elim (trip_at b loc) [ none ↦ pos 0 | some t ↦ first_departure t.departures ]
]
