-- ===== src/Tests/Network.antt =====
-- A network of two routes and a footpath: A to B to C by train r1, C to D on foot, D to E by train
-- r2, and a slow direct train r3 from A to E.
use multi_agent_travel.Raptor.State.{SearchState}
use multi_agent_travel.Prelude.{String, true, List, [], ◌∷◌}
use multi_agent_travel.Prelude.Int.{ℤ, pos}
use multi_agent_travel.Model.{TripKey, TripStopTimes, SearchParams}
use multi_agent_travel.Schedule.Buffer.{RouteBuffer, RouteStop}

abbrev pub key_of : String → TripKey
key_of id = record { trip_id = id; date = "2026-03-01" }

abbrev pub trip_of : String → List ℤ → List ℤ → List String → TripStopTimes
trip_of id arrs deps ids = record {
  key = key_of id;
  arrivals = arrs;
  departures = deps;
  station_ids = ids;
}

abbrev pub early_trip : TripStopTimes
early_trip =
    trip_of "t1" (pos 100 ∷ pos 200 ∷ pos 300 ∷ []) (pos 110 ∷ pos 210 ∷ pos 310 ∷ [])
      ("A" ∷ "B" ∷ "C" ∷ [])

abbrev pub late_trip : TripStopTimes
late_trip =
    trip_of "t2" (pos 150 ∷ pos 250 ∷ pos 350 ∷ []) (pos 160 ∷ pos 260 ∷ pos 360 ∷ [])
      ("A" ∷ "B" ∷ "C" ∷ [])

abbrev pub onward_trip : TripStopTimes
onward_trip = trip_of "t3" (pos 500 ∷ pos 600 ∷ []) (pos 510 ∷ pos 610 ∷ []) ("D" ∷ "E" ∷ [])

abbrev pub direct_trip : TripStopTimes
direct_trip = trip_of "t4" (pos 120 ∷ pos 900 ∷ []) (pos 130 ∷ pos 910 ∷ []) ("A" ∷ "E" ∷ [])

abbrev pub stop_at : ℤ → ℤ → RouteStop
stop_at ri p = record { route_idx = ri; stop_pos = p }

abbrev pub sample_routes : RouteBuffer
sample_routes = record {
  routes =
      record {
        route_id = "r1";
        stop_ids = "A" ∷ "B" ∷ "C" ∷ [];
        trip_keys = key_of "t1" ∷ key_of "t2" ∷ [];
      }
      ∷ record { route_id = "r2"; stop_ids = "D" ∷ "E" ∷ []; trip_keys = key_of "t3" ∷ [] }
      ∷ record { route_id = "r3"; stop_ids = "A" ∷ "E" ∷ []; trip_keys = key_of "t4" ∷ [] }
      ∷ [];
  stop_times = (early_trip ∷ late_trip ∷ []) ∷ (onward_trip ∷ []) ∷ (direct_trip ∷ []) ∷ [];
  trip_index =
      (key_of "t1", record { route_idx = 0; trip_idx = 0 })
      ∷ (key_of "t2", record { route_idx = 0; trip_idx = 1 })
      ∷ (key_of "t3", record { route_idx = 1; trip_idx = 0 })
      ∷ (key_of "t4", record { route_idx = 2; trip_idx = 0 })
      ∷ [];
  stop_to_routes =
      ("A", stop_at (pos 0) (pos 0) ∷ stop_at (pos 2) (pos 0) ∷ [])
      ∷ ("B", stop_at (pos 0) (pos 1) ∷ [])
      ∷ ("C", stop_at (pos 0) (pos 2) ∷ [])
      ∷ ("D", stop_at (pos 1) (pos 0) ∷ [])
      ∷ ("E", stop_at (pos 1) (pos 1) ∷ stop_at (pos 2) (pos 1) ∷ [])
      ∷ [];
  footpaths = ("C", record { neighbour_stop = "D"; walk_seconds = pos 60 } ∷ []) ∷ [];
  route_fifo = true ∷ true ∷ true ∷ [];
}

abbrev pub sample_params : SearchParams
sample_params = record {
  origin = "A";
  destination = "E";
  date = "2026-03-01";
  dep_time = pos 105;
  seat_class = "lower";
  passengers = pos 1;
  max_rounds = pos 0;
  min_transfer_seconds = pos 0;
  date_window_days = pos 0;
}

abbrev pub tiny_trip : TripStopTimes
tiny_trip = trip_of "t" (pos 110 ∷ pos 200 ∷ []) (pos 120 ∷ pos 210 ∷ []) ("A" ∷ "B" ∷ [])

-- One trip from A to B, and a search of one round.
abbrev pub tiny_routes : RouteBuffer
tiny_routes = record {
  routes = record { route_id = "r"; stop_ids = "A" ∷ "B" ∷ []; trip_keys = key_of "t" ∷ [] } ∷ [];
  stop_times = (tiny_trip ∷ []) ∷ [];
  trip_index = (key_of "t", record { route_idx = 0; trip_idx = 0 }) ∷ [];
  stop_to_routes = ("A", stop_at (pos 0) (pos 0) ∷ []) ∷ ("B", stop_at (pos 0) (pos 1) ∷ []) ∷ [];
  footpaths = [];
  route_fifo = true ∷ [];
}

abbrev pub tiny_search : SearchState
tiny_search = record {
  params = record sample_params { destination = "B"; max_rounds = pos 1 };
  rounds = 1;
  xfer_sec = pos 0;
  dest = "B";
  routes = tiny_routes;
  signals = [];
  allowed = "2026-03-01" ∷ [];
}
