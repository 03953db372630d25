-- ===== src/Raptor/Scan.antt =====
-- internal/raptor/engine.go: scanRoute and scanTrip.
use multi_agent_travel.Prelude.{
  ℕ, ◌+◌, String, List, [], ◌∷◌, Option, none, some, if◌then◌else◌, ◌||◌, is_empty, get_elem?, drop,
}
use multi_agent_travel.Prelude.Int.{ℤ, pos, negsuc, pos_part, ltb_ℤ, leb_ℤ, max_int64}
use multi_agent_travel.Model.{TripStopTimes, RouteEntry, transit}
use multi_agent_travel.Schedule.Buffer.{is_fifo}
use multi_agent_travel.Raptor.State.{
  SearchState, Layer, Work, JournalEntry, improves, set_label, ready_at,
}
use multi_agent_travel.Raptor.Boarding.{trip_usable, earliest_trip}

-- What the loops know of the vehicle being ridden: the trip (`trips[tripIdx]`), and where and when
-- it was boarded. `none` is `tripIdx < 0`, or `!boarded`.
pub record Ride : Type 0 where
  pub trip : TripStopTimes
  pub board_station : String
  pub board_dep : ℤ

unfoldable pub ride_entry : ℕ → RouteEntry → Ride → ℤ → JournalEntry
ride_entry prev_round route r arr = record {
  kind = transit;
  from_round = prev_round;
  from = r.board_station;
  trip_key = r.trip.key;
  route_id = route.route_id;
  departure = r.board_dep;
  arrival = arr;
}

-- Step A of both loops. `prev_round` is k - 1.
unfoldable pub alight : SearchState → ℕ → RouteEntry → Option Ride → ℕ → String → Work → Work
alight s prev_round route none at station w = w
alight s prev_round route (some r) at station w = elim (get_elem? r.trip.arrivals at) [
  | none ↦ w
  | some arr ↦
      if improves w.best s.dest arr station
      then set_label w station (ride_entry prev_round route r arr)
      else w
]

-- The trip at an index that earliest_trip returned; it has an entry at `at`.
unfoldable pub board_trip : List TripStopTimes → ℕ → String → Option Ride → Option ℕ → Option Ride
board_trip trips at station riding none = riding
board_trip trips at station riding (some cand) = elim (get_elem? trips cand) [
  | none ↦ riding
  | some t ↦ elim (get_elem? t.departures at) [
    | none ↦ riding
    | some d ↦ some (record { trip = t; board_station = station; board_dep = d })
  ]
]

-- When the trip being ridden leaves the station: infinity where there is none.
unfoldable pub current_departure : Option Ride → ℕ → ℤ
current_departure none at = max_int64
current_departure (some r) at = elim (get_elem? r.trip.departures at) [
  | none ↦ max_int64
  | some d ↦ d
]

-- Step B of scanRoute. It reads the layer of the round before only.
unfoldable pub board_earliest :
    SearchState → Layer → List TripStopTimes → ℕ → String → Option Ride → Option Ride
unfolding board_trip current_departure
board_earliest s prev trips at station riding = elim (ready_at prev s.xfer_sec station) [
  | none ↦ riding
  | some ready ↦
      let cur_dep = current_departure riding at in
      if ltb_ℤ cur_dep ready
      then riding
      else board_trip trips at station riding (earliest_trip s trips at ready cur_dep)
]

-- The loop over the stations from position `at` on.
unfoldable pub scan_stops :
    SearchState
    → ℕ
    → Layer
    → RouteEntry
    → List TripStopTimes
    → List String
    → ℕ
    → Option Ride
    → Work
    → Work
scan_stops s prev_round prev route trips [] at riding w = w
scan_stops s prev_round prev route trips (station ∷ rest) at riding w =
    scan_stops s prev_round prev route trips rest (at + 1)
      (board_earliest s prev trips at station riding)
      (alight s prev_round route riding at station w)

-- Step B of scanTrip: one boarding decision for the trip.
unfoldable pub board_once :
    SearchState → Layer → TripStopTimes → ℕ → String → Option Ride → Option Ride
board_once s prev t at station (some r) = some r
board_once s prev t at station none = elim (get_elem? t.departures at) [
  | none ↦ none
  | some d ↦ elim (ready_at prev s.xfer_sec station) [
    | none ↦ none
    | some ready ↦
        if leb_ℤ ready d
        then some (record { trip = t; board_station = station; board_dep = d })
        else none
  ]
]

unfoldable pub ride_stops :
    SearchState
    → ℕ
    → Layer
    → RouteEntry
    → TripStopTimes
    → List String
    → ℕ
    → Option Ride
    → Work
    → Work
ride_stops s prev_round prev route t [] at riding w = w
ride_stops s prev_round prev route t (station ∷ rest) at riding w =
    ride_stops s prev_round prev route t rest (at + 1) (board_once s prev t at station riding)
      (alight s prev_round route riding at station w)

unfoldable pub scan_trip : SearchState → ℕ → Layer → RouteEntry → ℕ → TripStopTimes → Work → Work
unfolding ride_stops
scan_trip s prev_round prev route board_pos t w =
    if trip_usable s t
    then ride_stops s prev_round prev route t (drop board_pos route.stop_ids) board_pos none w
    else w

-- The loop over the trips of an overtaking route.
unfoldable pub scan_trips :
    SearchState → ℕ → Layer → RouteEntry → ℕ → List TripStopTimes → Work → Work
scan_trips s prev_round prev route board_pos [] w = w
scan_trips s prev_round prev route board_pos (t ∷ ts) w =
    scan_trips s prev_round prev route board_pos ts
      (scan_trip s prev_round prev route board_pos t w)

-- The rest of scanRoute, for a route that is loaded.
unfoldable pub scan_loaded :
    SearchState → ℕ → Layer → ℕ → ℕ → RouteEntry → List TripStopTimes → Work → Work
unfolding scan_stops scan_trips
scan_loaded s prev_round prev route_idx board_pos route trips w =
    if is_empty trips || is_empty route.stop_ids
    then w
    else if is_fifo s.routes (pos route_idx)
    then scan_stops s prev_round prev route trips (drop board_pos route.stop_ids) board_pos none w
    else scan_trips s prev_round prev route board_pos trips w

-- Indices out of range are ignored; a negative position counts as 0.
unfoldable pub scan_route : SearchState → ℕ → Layer → ℤ → ℤ → Work → Work
unfolding scan_loaded
scan_route s prev_round prev (negsuc i) board_pos w = w
scan_route s prev_round prev (pos i) board_pos w = elim (get_elem? s.routes.stop_times i) [
  | none ↦ w
  | some trips ↦ elim (get_elem? s.routes.routes i) [
    | none ↦ w
    | some route ↦ scan_loaded s prev_round prev i (pos_part board_pos) route trips w
  ]
]
