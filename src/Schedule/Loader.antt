-- ===== src/Schedule/Loader.antt =====
-- internal/schedule/loader.go: ReloadRouteArrays, from the rows of the schedule query to the staging
-- buffer before its footpaths are set. The rows of the database are the argument; the log lines and
-- the count of skipped trips that only they use are left out.
pub mod Rows
use multi_agent_travel.Schedule.Fifo.{compute_fifo}
use multi_agent_travel.Schedule.Buffer.{first_departure, RouteStop, new_route_buffer, RouteBuffer}
use multi_agent_travel.Prelude.Sorting.{str_ltb, sort}
use multi_agent_travel.Prelude.GoMap.{member, lookup_or, insert, GoMap}
use multi_agent_travel.Model.{eq_TripKey, TripLocation, TripStopTimes, TripKey}
use multi_agent_travel.Prelude.{
  keep_if, ℕ, ◌+◌, String, Bool, true, false, not, Option, none, some, List, [], ◌∷◌, ◌++◌, map,
  if◌then◌else◌, ◌==◌, eq_ℕ, eq_String, length, is_empty,
}
use multi_agent_travel.Prelude.Int.{eqb_ℤ, ℤ, pos, ltb_ℤ, eq_ℤ}

-- A row of the schedule query.
pub record ScheduleRow : Type 0 where
  pub route_id : String
  pub trip_id : String
  pub date : String
  pub stop_seq : ℤ
  pub station_id : String
  pub arr_unix : ℤ
  pub dep_unix : ℤ

pub record StopRecord : Type 0 where
  pub station_id : String
  pub arrival_unix : ℤ
  pub departure_unix : ℤ

pub record TripRecord : Type 0 where
  pub key : TripKey
  pub route_id : String
  pub stops : List StopRecord

-- The state of the loop over the rows. `currentTrip` points to the trip that was created last, which
-- is the last one in the list of its route: `current` is its key and its route.
pub record Grouping : Type 0 where
  pub route_trips : GoMap String (List TripRecord)
  pub route_order : List String
  pub current : Option (TripKey × String)

abbrev pub row_key : ScheduleRow → TripKey
row_key row = record { trip_id = row.trip_id; date = row.date }

unfoldable is_current : TripKey → Option (TripKey × String) → Bool
is_current key none = false
is_current key (some (k, route)) = k == key

unfoldable start_trip : ScheduleRow → Grouping → Grouping
start_trip row g = record {
  route_trips =
      insert row.route_id
        (lookup_or [] row.route_id g.route_trips
          ++ (record { key = row_key row; route_id = row.route_id; stops = [] } ∷ []))
        g.route_trips;
  route_order =
      if member row.route_id g.route_order
      then g.route_order
      else g.route_order ++ (row.route_id ∷ []);
  current = some (row_key row, row.route_id);
}

-- currentTrip.stops = append(currentTrip.stops, stop)
unfoldable append_stop : StopRecord → List TripRecord → List TripRecord
append_stop stop [] = []
append_stop stop (t ∷ []) = record t { stops = t.stops ++ (stop ∷ []) } ∷ []
append_stop stop (t ∷ u ∷ ts) = t ∷ append_stop stop (u ∷ ts)

unfoldable add_stop : ScheduleRow → Grouping → Grouping
unfolding append_stop
add_stop row g = elim g.current [
  | none ↦ g
  | some (key, route) ↦ record g {
    route_trips =
        insert route
          (append_stop
            (record {
              station_id = row.station_id;
              arrival_unix = row.arr_unix;
              departure_unix = row.dep_unix;
            })
            (lookup_or [] route g.route_trips))
          g.route_trips;
  }
]

unfoldable pub group_rows : List ScheduleRow → Grouping → Grouping
unfolding is_current start_trip add_stop
group_rows [] g = g
group_rows (row ∷ rows) g =
    group_rows rows
      (add_stop row (if is_current (row_key row) g.current then g else start_trip row g))

abbrev pub stations : List StopRecord → List String
stations stops = map (λ s. s.station_id) stops

-- Whether the trip has the stops of the route, in their order.
unfoldable pub same_pattern : List String → List StopRecord → Bool
same_pattern [] [] = true
same_pattern [] (s ∷ stops) = false
same_pattern (id ∷ ids) [] = false
same_pattern (id ∷ ids) (s ∷ stops) =
    let rest = same_pattern ids stops in if s.station_id == id then rest else false

abbrev pub trip_stop_times : TripRecord → TripStopTimes
trip_stop_times t = record {
  key = t.key;
  arrivals = map (λ s. s.arrival_unix) t.stops;
  departures = map (λ s. s.departure_unix) t.stops;
  station_ids = map (λ s. s.station_id) t.stops;
}

-- The order of the trips of a route: first departure, then date, then id.
unfoldable pub trip_less : TripStopTimes → TripStopTimes → Bool
unfolding str_ltb
trip_less a b =
    if not (eqb_ℤ (first_departure a.departures) (first_departure b.departures))
    then ltb_ℤ (first_departure a.departures) (first_departure b.departures)
    else if not (a.key.date == b.key.date)
    then str_ltb a.key.date b.key.date
    else str_ltb a.key.trip_id b.key.trip_id

-- The loop that indexes the trips, from trip ti on.
unfoldable pub index_trips :
    ℕ → ℕ → List TripStopTimes → GoMap TripKey TripLocation → GoMap TripKey TripLocation
index_trips ri ti [] index = index
index_trips ri ti (t ∷ ts) index =
    index_trips ri (ti + 1) ts (insert t.key (record { route_idx = ri; trip_idx = ti }) index)

-- The loop that indexes the stops, from position p on.
unfoldable pub index_stops :
    ℕ → ℕ → List String → GoMap String (List RouteStop) → GoMap String (List RouteStop)
index_stops ri p [] index = index
index_stops ri p (id ∷ ids) index = index_stops ri (p + 1) ids (
    insert id (lookup_or [] id index ++ (record { route_idx = pos ri; stop_pos = pos p } ∷ []))
      index)

-- The part of the loop over the routes that adds a route, for trips with one stop pattern.
unfoldable pub add_route : String → List String → List TripStopTimes → RouteBuffer → RouteBuffer
unfolding index_trips index_stops compute_fifo
add_route route_id stop_ids times b = record b {
  routes =
      b.routes
      ++ (record { route_id = route_id; stop_ids = stop_ids; trip_keys = map (λ t. t.key) times }
          ∷ []);
  stop_times = b.stop_times ++ (times ∷ []);
  trip_index = index_trips (length b.routes) 0 times b.trip_index;
  stop_to_routes = index_stops (length b.routes) 0 stop_ids b.stop_to_routes;
  route_fifo = b.route_fifo ++ (compute_fifo times ∷ []);
}

unfoldable pub route_times : List String → List TripRecord → List TripStopTimes
unfolding sort trip_less same_pattern
route_times stop_ids trips =
    sort trip_less (map trip_stop_times (keep_if (λ t. same_pattern stop_ids t.stops) trips))

-- One route. The first trip gives the stops; a trip with others is dropped.
unfoldable pub load_route : String → List TripRecord → RouteBuffer → RouteBuffer
unfolding add_route route_times
load_route route_id [] b = b
load_route route_id (t ∷ ts) b =
    if is_empty (stations t.stops)
    then b
    else if is_empty (route_times (stations t.stops) (t ∷ ts))
    then b
    else add_route route_id (stations t.stops) (route_times (stations t.stops) (t ∷ ts)) b

unfoldable pub load_routes :
    GoMap String (List TripRecord) → List String → RouteBuffer → RouteBuffer
unfolding load_route
load_routes route_trips [] b = b
load_routes route_trips (id ∷ ids) b =
    load_routes route_trips ids (load_route id (lookup_or [] id route_trips) b)

unfoldable pub load_schedule : List ScheduleRow → RouteBuffer
unfolding group_rows load_routes new_route_buffer
load_schedule rows =
    let g = group_rows rows (record { route_trips = []; route_order = []; current = none }) in
    load_routes g.route_trips g.route_order new_route_buffer
