-- ===== src/Tests/SearchWitnesses.antt =====
-- The theorems on the search at the sample network.
use multi_agent_travel.Model.{SearchParams}
use multi_agent_travel.Prelude.Sorting.{insert_sorted, sort}
use multi_agent_travel.Prelude.GoMap.{add_member, member, insert, lookup}
use multi_agent_travel.Raptor.Boarding.{
  can_board, trip_usable, departs_from, search_loop, sort_search, scan_forward, earliest_trip,
}
use multi_agent_travel.Raptor.Walk.{
  footpaths_from, snapshot_source, snapshot_sources, keep_pre_walk, walk_entry, relax_edge,
  relax_edges, relax_sources, relax_footpaths,
}
use multi_agent_travel.Raptor.Scan.{
  ride_entry, alight, board_trip, current_departure, board_earliest, scan_stops, board_once,
  ride_stops, scan_trip, scan_trips, scan_loaded, scan_route,
}
use multi_agent_travel.Tests.Network.{tiny_search, tiny_routes, sample_params, sample_routes}
use multi_agent_travel.Schedule.Fifo.{compute_fifo}
use multi_agent_travel.Raptor.Search.{raptor_search, new_search}
use multi_agent_travel.Raptor.Reach.Rounds.{search_layers-IsSound}
use multi_agent_travel.Schedule.Buffer.{is_fifo}
use multi_agent_travel.Raptor.State.{ready_at, set_label, improves, Layer}
use multi_agent_travel.Raptor.Search.Sound.{raptor_search-IsReal, IsReal}
use multi_agent_travel.Raptor.Rounds.{
  origin_work, round_zero, is_bad_stop, enqueue, enqueue_all, collect_queue, scan_order,
  scan_routes, start_round, run_round, run_rounds, search_layers,
}
use multi_agent_travel.Raptor.Reach.{IsMeasured, IsSound}
use multi_agent_travel.Prelude.{
  ℕ, zero, suc, ◌≡◌, refl, Bool, false, none, some, List, [], eq_ℕ, eq_String, get_elem?, All,
}
use multi_agent_travel.Prelude.Int.{wrap64, pos, eq_ℤ, add64}

abbrev pub never : ℕ → Bool
never k = false

abbrev pub tiny_layers : List Layer
tiny_layers = elim (search_layers never tiny_search) [ none ↦ [] | some ls ↦ ls ]

abbrev pub layer_1 : Layer
layer_1 = elim (get_elem? tiny_layers 1) [
  | none ↦ record { tau = []; journal = []; pre_walk = [] }
  | some l ↦ l
]

some_inj : {A : Type 0} {x y : A} → some x ≡ some y → x ≡ y
some_inj q = cc

sample_routes-IsMeasured : IsMeasured sample_routes
unfolding is_fifo compute_fifo
sample_routes-IsMeasured zero ts f e = rw (← some_inj e)
sample_routes-IsMeasured (suc zero) ts f e = rw (← some_inj e)
sample_routes-IsMeasured (suc (suc zero)) ts f e = rw (← some_inj e)
sample_routes-IsMeasured (suc (suc (suc i))) ts f e = cc

pub tiny_routes-IsMeasured : IsMeasured tiny_routes
unfolding is_fifo compute_fifo
tiny_routes-IsMeasured zero ts f e = rw (← some_inj e)
tiny_routes-IsMeasured (suc i) ts f e = cc

raptor_search-IsReal_example :
    All
      (IsReal (new_search [] sample_routes sample_params))
      (raptor_search never [] sample_routes sample_params (pos 5))
raptor_search-IsReal_example =
    raptor_search-IsReal never [] sample_routes sample_params (pos 5) sample_routes-IsMeasured

pub layers_found : search_layers never tiny_search ≡ some tiny_layers
unfolding search_layers run_rounds run_round start_round scan_routes scan_order collect_queue
    enqueue_all enqueue is_bad_stop round_zero origin_work scan_route scan_loaded scan_trips
    scan_trip ride_stops board_once scan_stops board_earliest current_departure board_trip alight
    ride_entry relax_footpaths relax_sources relax_edges relax_edge walk_entry keep_pre_walk
    snapshot_sources snapshot_source footpaths_from improves set_label ready_at add64 wrap64
    earliest_trip scan_forward sort_search search_loop departs_from trip_usable can_board is_fifo
    lookup insert member add_member sort insert_sorted
layers_found = refl

pub layer_1_found : get_elem? tiny_layers 1 ≡ some layer_1
unfolding search_layers run_rounds run_round start_round scan_routes scan_order collect_queue
    enqueue_all enqueue is_bad_stop round_zero origin_work scan_route scan_loaded scan_trips
    scan_trip ride_stops board_once scan_stops board_earliest current_departure board_trip alight
    ride_entry relax_footpaths relax_sources relax_edges relax_edge walk_entry keep_pre_walk
    snapshot_sources snapshot_source footpaths_from improves set_label ready_at add64 wrap64
    earliest_trip scan_forward sort_search search_loop departs_from trip_usable can_board is_fifo
    lookup insert member add_member sort insert_sorted
layer_1_found = refl

label_found : lookup "B" layer_1.tau ≡ some (pos 200)
unfolding search_layers run_rounds run_round start_round scan_routes scan_order collect_queue
    enqueue_all enqueue is_bad_stop round_zero origin_work scan_route scan_loaded scan_trips
    scan_trip ride_stops board_once scan_stops board_earliest current_departure board_trip alight
    ride_entry relax_footpaths relax_sources relax_edges relax_edge walk_entry keep_pre_walk
    snapshot_sources snapshot_source footpaths_from improves set_label ready_at add64 wrap64
    earliest_trip scan_forward sort_search search_loop departs_from trip_usable can_board is_fifo
    lookup insert member add_member sort insert_sorted
label_found = refl

search_layers-IsSound_example : IsSound tiny_search 1 layer_1
search_layers-IsSound_example =
    search_layers-IsSound never tiny_search tiny_routes-IsMeasured tiny_layers layers_found 1
      layer_1 layer_1_found

abbrev one_round_params : SearchParams
one_round_params = record sample_params { destination = "B"; max_rounds = pos 1 }

abbrev one_round_layers : List Layer
one_round_layers = elim (search_layers never (new_search [] tiny_routes one_round_params)) [
  | none ↦ []
  | some ls ↦ ls
]
