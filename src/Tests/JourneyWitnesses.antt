-- ===== src/Tests/JourneyWitnesses.antt =====
-- The theorems on the journeys of a search at concrete inputs.
use multi_agent_travel.Prelude.Sorting.{sort, insert_sorted}
use multi_agent_travel.Schedule.Buffer.{is_fifo}
use multi_agent_travel.Raptor.State.{ready_at, set_label, improves}
use multi_agent_travel.Raptor.Walk.{
  footpaths_from, snapshot_source, snapshot_sources, keep_pre_walk, walk_entry, relax_edge,
  relax_edges, relax_sources, relax_footpaths,
}
use multi_agent_travel.Raptor.Scan.{
  ride_entry, alight, board_trip, current_departure, board_earliest, scan_stops, board_once,
  ride_stops, scan_trip, scan_trips, scan_loaded, scan_route,
}
use multi_agent_travel.Raptor.Reach.Rounds.{search_layers-IsSound}
use multi_agent_travel.Tests.SearchWitnesses.{
  layers_found, tiny_routes-IsMeasured, never, layer_1_found, layer_1, tiny_layers,
}
use multi_agent_travel.Raptor.Itinerary.Laws.{validate_path_iff, IsItinerary}
use multi_agent_travel.Tests.Network.{late_trip, tiny_search, early_trip}
use multi_agent_travel.Raptor.Frontier.{extract}
use multi_agent_travel.Schedule.Fifo.{no_earlier, ordered_after, same_stops, compute_fifo}
use multi_agent_travel.Raptor.Rounds.{
  origin_work, round_zero, is_bad_stop, enqueue, enqueue_all, collect_queue, scan_order,
  scan_routes, start_round, run_round, run_rounds, search_layers,
}
use multi_agent_travel.Raptor.Itinerary.{
  check_leg, check_join, check_legs, validate_legs, validate_path,
}
use multi_agent_travel.Raptor.Frontier.Laws.{extract-IsFrontier, IsFrontier}
use multi_agent_travel.Raptor.Boarding.Earliest.{
  earliest_trip-none, earliest_trip-IsBoardable, earliest_trip_least, IsBoardable,
}
use multi_agent_travel.Raptor.Boarding.{
  departs_from, search_loop, sort_search, scan_forward, can_board, trip_usable, earliest_trip,
}
use multi_agent_travel.Raptor.Backtrack.Laws.{
  build_path-arrival, backtrack_legs-fuel, build_path-IsAnswer, IsAnswer,
}
use multi_agent_travel.Raptor.Backtrack.{
  unwalked, step_entry, leg_of, walk_total, make_path, check_path, build_path, backtrack_legs,
  max_steps, backtrack,
}
use multi_agent_travel.Prelude.GoMap.{add_member, insert, member, lookup}
use multi_agent_travel.Model.{transit, TripStopTimes, Leg, JourneyPath}
use multi_agent_travel.Prelude.{
  ◌+◌, ◌≤◌, ◌≡◌, refl, ◌↔◌, true, none, some, List, [], ◌∷◌, arith, eq_ℕ, eq_String,
}
use multi_agent_travel.Prelude.Int.{sub64, wrap64, pos, eq_ℤ, add64}

abbrev sample_trips : List TripStopTimes
sample_trips = early_trip ∷ late_trip ∷ []

sample_fifo : compute_fifo sample_trips ≡ true
unfolding compute_fifo same_stops ordered_after no_earlier
sample_fifo = refl

late_found : earliest_trip tiny_search sample_trips 0 (pos 120) (pos 170) ≡ some 1
unfolding earliest_trip scan_forward sort_search search_loop departs_from trip_usable can_board
    lookup member
late_found = refl

none_found : earliest_trip tiny_search sample_trips 0 (pos 120) (pos 150) ≡ none
unfolding earliest_trip scan_forward sort_search search_loop departs_from trip_usable can_board
    lookup member
none_found = refl

earliest_trip-IsBoardable_example : IsBoardable tiny_search sample_trips 0 (pos 120) (pos 170) 1
earliest_trip-IsBoardable_example =
    earliest_trip-IsBoardable tiny_search sample_trips sample_fifo 0 (pos 120) (pos 170) 1
      late_found

late-IsBoardable : IsBoardable tiny_search sample_trips 0 (pos 120) (pos 170) 1
unfolding trip_usable can_board lookup member
late-IsBoardable = record {
  take = record {
    trip = late_trip;
    dep = pos 160;
    found = refl;
    departs = refl;
    usable = refl;
    in_time = omega arith;
  };
  catchable = omega arith;
}

earliest_trip_least_example : 1 ≤ 1
earliest_trip_least_example =
    earliest_trip_least tiny_search sample_trips sample_fifo 0 (pos 120) (pos 170) 1 1 late_found
      late-IsBoardable

earliest_trip-none_example : ¬ IsBoardable tiny_search sample_trips 0 (pos 120) (pos 150) 1
earliest_trip-none_example =
    earliest_trip-none tiny_search sample_trips sample_fifo 0 (pos 120) (pos 150) none_found 1

abbrev sample_leg : Leg
sample_leg = record {
  kind = transit;
  trip_id = "t";
  date = "2026-03-01";
  route_id = "r";
  board_station = "A";
  alight_station = "B";
  departure_unix = pos 120;
  arrival_unix = pos 200;
}

abbrev sample_journey : JourneyPath
sample_journey = record {
  legs = sample_leg ∷ [];
  departure_unix = pos 120;
  arrival_unix = pos 200;
  total_time_seconds = pos 80;
  wait_seconds = pos 15;
  transfers = 0;
  walk_seconds = pos 0;
  rounds = 1;
}

journey_built : build_path tiny_search tiny_layers 1 ≡ some sample_journey
unfolding search_layers run_rounds run_round start_round scan_routes scan_order collect_queue
    enqueue_all enqueue is_bad_stop round_zero origin_work scan_route scan_loaded scan_trips
    scan_trip ride_stops board_once scan_stops board_earliest current_departure board_trip alight
    ride_entry relax_footpaths relax_sources relax_edges relax_edge walk_entry keep_pre_walk
    snapshot_sources snapshot_source footpaths_from improves set_label ready_at add64 wrap64
    earliest_trip scan_forward sort_search search_loop departs_from trip_usable can_board is_fifo
    lookup insert member add_member sort insert_sorted build_path check_path make_path walk_total
    backtrack_legs backtrack leg_of step_entry unwalked max_steps validate_path validate_legs
    check_legs check_join check_leg sub64
journey_built = refl

build_path-IsAnswer_example : IsAnswer tiny_search 1 sample_journey
build_path-IsAnswer_example =
    build_path-IsAnswer tiny_search tiny_layers 1 sample_journey journey_built

build_path-arrival_example : lookup "B" layer_1.tau ≡ some (pos 200)
build_path-arrival_example =
    build_path-arrival tiny_search tiny_layers 1 layer_1 sample_journey layer_1_found
      (search_layers-IsSound never tiny_search tiny_routes-IsMeasured tiny_layers layers_found 1
        layer_1 layer_1_found)
      journey_built

backtrack_legs-fuel_example :
    backtrack
      (max_steps tiny_search + 2 + 7)
      tiny_search
      tiny_layers
      "B"
      1
      (record { prev_kind = none; prev_departure = pos 0 })
      []
      []
    ≡ backtrack_legs tiny_search tiny_layers 1
backtrack_legs-fuel_example = backtrack_legs-fuel 7 tiny_search tiny_layers 1

extract-IsFrontier_example : IsFrontier (extract tiny_search tiny_layers (pos 5))
extract-IsFrontier_example = extract-IsFrontier tiny_search tiny_layers (pos 5)

validate_path_iff_example :
    (validate_path sample_journey tiny_search.params ≡ none)
    ↔ IsItinerary tiny_search.params sample_journey.legs
validate_path_iff_example = validate_path_iff sample_journey tiny_search.params
