-- ===== src/Tests/ApiWitnesses.antt =====
-- The theorems on the search handler, the seat gate and the pollers at concrete inputs.
use multi_agent_travel.Schedule.Buffer.{trip_departure, trip_at, is_fifo}
use multi_agent_travel.Raptor.Frontier.{
  extract, frontier, truncate_to, pareto_filter, pareto_from, path_less, deduplicate_paths,
  deduplicate_from, path_fingerprint, legs_fingerprint, extract_rounds,
}
use multi_agent_travel.Raptor.Walk.{
  relax_footpaths, relax_sources, relax_edges, relax_edge, walk_entry, keep_pre_walk,
  snapshot_sources, snapshot_source, footpaths_from,
}
use multi_agent_travel.Raptor.Scan.{
  scan_route, scan_loaded, scan_trips, scan_trip, ride_stops, board_once, scan_stops,
  board_earliest, current_departure, board_trip, alight, ride_entry,
}
use multi_agent_travel.Raptor.Rounds.{
  search_layers, run_rounds, round_zero, origin_work, run_round, start_round, scan_routes,
  scan_order, collect_queue, enqueue_all, enqueue, is_bad_stop,
}
use multi_agent_travel.Raptor.State.{ready_at, set_label, improves}
use multi_agent_travel.Breaker.{allow, new, success}
use multi_agent_travel.Raptor.Boarding.{
  earliest_trip, scan_forward, departs_from, sort_search, search_loop, trip_usable, can_board,
}
use multi_agent_travel.Raptor.Search.{raptor_search, new_search}
use multi_agent_travel.Raptor.Itinerary.{
  validate_path, validate_legs, last_leg, check_legs, check_join, check_leg,
}
use multi_agent_travel.Raptor.Backtrack.{
  build_path, check_path, make_path, last_arrival, walk_total, backtrack_legs, backtrack, leg_of,
  step_entry, unwalked, max_steps,
}
use multi_agent_travel.Prelude.Sorting.{sort, insert_sorted, str_ltb}
use multi_agent_travel.Prelude.GoMap.{add_member, member, insert, lookup}
use multi_agent_travel.Model.SeatKeys.{seat_map_key}
use multi_agent_travel.Prelude.Text.{
  parse_int, parse_decimal, parse_nat, byte_length, trim_space, trim_right, trim_left,
}
use multi_agent_travel.Model.Dates.{
  compute_allowed_dates, days_from, format_date, show_padded, valid_date, parse_date, parse_codes,
  parse_dash, parse_digits, days_in, is_leap,
}
use multi_agent_travel.Raptor.Validator.{
  validate, ask_redis, unavailable, truncate, survivors, has_seats, fetch, fill_cache, seat_map_of,
  seat_keys, add_leg_keys, leg_key, needs_seat, new_validator,
}
use multi_agent_travel.Prelude.{
  ◌≡◌, refl, true, [], arith, if◌then◌else◌, ◌==◌, eq_ℕ, eq_String, length,
}
use multi_agent_travel.Prelude.Int.{sub64, wrap64, ◌-ℤ◌, ◌+ℤ◌, pos, ◌<ℤ◌, eq_ℤ, add64}
use multi_agent_travel.Tests.Network.{tiny_routes}
use multi_agent_travel.Tests.SearchWitnesses.{never, tiny_routes-IsMeasured}
use multi_agent_travel.Tests.ServiceWitnesses.{sample_config}
use multi_agent_travel.Tests.SeatWitnesses.{sample_redis, sample_reply, sample-Replies}
use multi_agent_travel.Model.{
  dominates, transit_legs, date_window, transfer_buffer, rounds, SearchParams,
}
use multi_agent_travel.Api.Search.{
  station_known, requested, check_dep_time, check_options, Query, Server, new_server, SearchAnswer,
  handle_search, parse_search, parsed, found, bad_request, unknown_station,
}
use multi_agent_travel.Api.Search.Params.{parse_search-IsAccepted, IsAccepted}
use multi_agent_travel.Api.Search.Safe.{handle_search-IsSafe, IsSafe}

-- A question of two stations, with the numbers that the configuration gives.
abbrev sample_query : Query
sample_query = record {
  query = λ name default.
      if name == "origin"
      then " A "
      else if name == "destination"
      then "B"
      else if name == "date"
      then "2026-03-01"
      else if name == "dep_time"
      then "105"
      else default;
  query_int = λ name default. default;
}

abbrev strict_server : Server
strict_server = new_server (record sample_config { strict_seat_mode = true }) true

abbrev sample_request : SearchParams
sample_request = record {
  origin = "A";
  destination = "B";
  date = "2026-03-01";
  dep_time = pos 105;
  seat_class = "lower";
  passengers = pos 1;
  max_rounds = pos 4;
  min_transfer_seconds = pos 0;
  date_window_days = pos 2;
}

abbrev sample_answer : SearchAnswer
sample_answer =
    elim (handle_search sample_redis (pos 7) (pos 8) never [] tiny_routes tiny_routes strict_server
      sample_query).1 [
        | found a ↦ a
        | bad_request e ↦ record { paths = []; candidates = []; searched = sample_request }
        | unknown_station s ↦ record { paths = []; candidates = []; searched = sample_request }
      ]

request_parsed : parse_search strict_server.cfg sample_query ≡ parsed sample_request
unfolding check_options check_dep_time requested parse_search new_server is_leap days_in
    parse_digits parse_dash parse_codes parse_date valid_date trim_left trim_right trim_space
    byte_length parse_nat parse_decimal parse_int new_validator
request_parsed = refl

parse_search-IsAccepted_example : IsAccepted sample_request
parse_search-IsAccepted_example =
    parse_search-IsAccepted strict_server.cfg sample_query sample_request request_parsed

answer_found :
    (handle_search sample_redis
      (pos 7)
      (pos 8)
      never
      []
      tiny_routes
      tiny_routes
      strict_server
      sample_query).1
    ≡ found sample_answer
unfolding check_options check_dep_time requested parse_search station_known new_server handle_search
    is_leap days_in parse_digits parse_dash parse_codes parse_date valid_date show_padded
    format_date days_from compute_allowed_dates seat_map_key rounds transfer_buffer date_window
    transit_legs dominates trim_left trim_right trim_space byte_length parse_nat parse_decimal
    parse_int lookup insert member add_member str_ltb insert_sorted sort ◌+ℤ◌ ◌-ℤ◌ wrap64 add64
    sub64 max_steps unwalked step_entry leg_of backtrack backtrack_legs walk_total last_arrival
    make_path check_path build_path check_leg check_join check_legs last_leg validate_legs
    validate_path new_search raptor_search can_board trip_usable search_loop sort_search
    departs_from scan_forward earliest_trip new_validator needs_seat leg_key add_leg_keys seat_keys
    seat_map_of fill_cache fetch has_seats survivors truncate unavailable ask_redis validate
    improves set_label ready_at is_bad_stop enqueue enqueue_all collect_queue scan_order scan_routes
    start_round run_round origin_work round_zero run_rounds search_layers ride_entry alight
    board_trip current_departure board_earliest scan_stops board_once ride_stops scan_trip
    scan_trips scan_loaded scan_route footpaths_from snapshot_source snapshot_sources keep_pre_walk
    walk_entry relax_edge relax_edges relax_sources relax_footpaths extract_rounds legs_fingerprint
    path_fingerprint deduplicate_from deduplicate_paths path_less pareto_from pareto_filter
    truncate_to frontier extract is_fifo trip_at trip_departure allow new success
answer_found = refl

one_journey : length sample_answer.paths ≡ 1
unfolding check_options check_dep_time requested parse_search station_known new_server handle_search
    is_leap days_in parse_digits parse_dash parse_codes parse_date valid_date show_padded
    format_date days_from compute_allowed_dates seat_map_key rounds transfer_buffer date_window
    transit_legs dominates trim_left trim_right trim_space byte_length parse_nat parse_decimal
    parse_int lookup insert member add_member str_ltb insert_sorted sort ◌+ℤ◌ ◌-ℤ◌ wrap64 add64
    sub64 max_steps unwalked step_entry leg_of backtrack backtrack_legs walk_total last_arrival
    make_path check_path build_path check_leg check_join check_legs last_leg validate_legs
    validate_path new_search raptor_search can_board trip_usable search_loop sort_search
    departs_from scan_forward earliest_trip new_validator needs_seat leg_key add_leg_keys seat_keys
    seat_map_of fill_cache fetch has_seats survivors truncate unavailable ask_redis validate
    improves set_label ready_at is_bad_stop enqueue enqueue_all collect_queue scan_order scan_routes
    start_round run_round origin_work round_zero run_rounds search_layers ride_entry alight
    board_trip current_departure board_earliest scan_stops board_once ride_stops scan_trip
    scan_trips scan_loaded scan_route footpaths_from snapshot_source snapshot_sources keep_pre_walk
    walk_entry relax_edge relax_edges relax_sources relax_footpaths extract_rounds legs_fingerprint
    path_fingerprint deduplicate_from deduplicate_paths path_less pareto_from pareto_filter
    truncate_to frontier extract is_fifo trip_at trip_departure allow new success
one_journey = refl

server_strict : strict_server.validator.cfg.strict ≡ true
unfolding new_server new_validator
server_strict = refl

server_chunk : pos 0 <ℤ strict_server.validator.cfg.mget_chunk
unfolding new_server new_validator
server_chunk = omega arith

handle_search-IsSafe_example :
    IsSafe sample_redis sample_reply [] tiny_routes strict_server.cfg sample_query sample_answer
handle_search-IsSafe_example =
    handle_search-IsSafe sample_redis sample_reply (pos 7) (pos 8) never [] tiny_routes tiny_routes
      strict_server sample_query sample_answer tiny_routes-IsMeasured sample-Replies server_chunk
      server_strict answer_found
