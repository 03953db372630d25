-- ===== src/Raptor/Rounds.antt =====
-- internal/raptor/engine.go: the rounds of RaptorSearch.
use multi_agent_travel.Prelude.{
  ℕ, zero, suc, ◌+◌, String, Bool, List, [], ◌∷◌, ◌++◌, Option, none, some, if◌then◌else◌,
  eq_String, ◌||◌, length, is_empty,
}
use multi_agent_travel.Prelude.Int.{ℤ, pos, ltb_ℤ, leb_ℤ, eq_ℤ}
use multi_agent_travel.Prelude.GoMap.{GoMap, lookup, lookup_or, insert, keys}
use multi_agent_travel.Prelude.Sorting.{sort, str_ltb}
use multi_agent_travel.Schedule.Buffer.{RouteStop}
use multi_agent_travel.Raptor.State.{SearchState, Layer, Work}
use multi_agent_travel.Raptor.Scan.{scan_route}
use multi_agent_travel.Raptor.Walk.{relax_footpaths}

-- A position that the index must not hold.
unfoldable pub is_bad_stop : ℕ → RouteStop → Bool
is_bad_stop route_count rs =
    ltb_ℤ rs.route_idx (pos 0) || leb_ℤ (pos route_count) rs.route_idx || ltb_ℤ rs.stop_pos (pos 0)

-- The body of the inner loop: route to earliest boarding position.
unfoldable pub enqueue : ℕ → RouteStop → GoMap ℤ ℤ → GoMap ℤ ℤ
unfolding is_bad_stop
enqueue route_count rs queue =
    if is_bad_stop route_count rs then queue else elim (lookup rs.route_idx queue) [
      | none ↦ insert rs.route_idx rs.stop_pos queue
      | some at ↦ if ltb_ℤ rs.stop_pos at then insert rs.route_idx rs.stop_pos queue else queue
    ]

unfoldable pub enqueue_all : ℕ → List RouteStop → GoMap ℤ ℤ → GoMap ℤ ℤ
enqueue_all route_count [] queue = queue
enqueue_all route_count (rs ∷ rest) queue =
    enqueue_all route_count rest (enqueue route_count rs queue)

-- The loop over the stations improved in the round before, in whatever order they are visited.
unfoldable pub collect_queue : SearchState → List String → GoMap ℤ ℤ → GoMap ℤ ℤ
collect_queue s [] queue = queue
collect_queue s (stop ∷ marked) queue =
    collect_queue s marked
      (enqueue_all (length s.routes.routes) (lookup_or [] stop s.routes.stop_to_routes) queue)

unfoldable pub scan_order : GoMap ℤ ℤ → List ℤ
unfolding sort
scan_order queue = sort ltb_ℤ (keys queue)

unfoldable pub scan_routes : SearchState → ℕ → Layer → GoMap ℤ ℤ → List ℤ → Work → Work
scan_routes s prev_round prev queue [] w = w
scan_routes s prev_round prev queue (ri ∷ order) w =
    scan_routes s prev_round prev queue order
      (scan_route s prev_round prev ri (lookup_or (pos 0) ri queue) w)

-- Round k = prev_round + 1. The copy of the labels of the round before is the same map.
unfoldable pub start_round : Layer → GoMap String ℤ → Work
start_round prev best = record {
  layer = record { tau = prev.tau; journal = prev.journal; pre_walk = [] };
  best = best;
  improved = [];
}

unfoldable pub run_round : SearchState → ℕ → Layer → GoMap String ℤ → List String → Work
unfolding scan_routes collect_queue scan_order start_round
run_round s prev_round prev best marked =
    let queue = collect_queue s marked [] in
    let w = scan_routes s prev_round prev queue (scan_order queue) (start_round prev best) in
    relax_footpaths s (prev_round + 1) (sort str_ltb w.improved) w

-- Round 0: the origin, and where the passenger can walk from there.
unfoldable pub origin_work : SearchState → Work
origin_work s = record {
  layer = record { tau = insert s.params.origin s.params.dep_time []; journal = []; pre_walk = [] };
  best = insert s.params.origin s.params.dep_time [];
  improved = s.params.origin ∷ [];
}

unfoldable pub round_zero : SearchState → Work
unfolding origin_work
round_zero s = relax_footpaths s 0 (s.params.origin ∷ []) (origin_work s)

-- The rounds after `prev_round`, at most `left` of them, appended to the finished layers. `none` is
-- a search that was cancelled; `cancelled k` is what the context answers before round k.
unfoldable pub run_rounds :
    (ℕ → Bool)
    → SearchState
    → ℕ
    → ℕ
    → List Layer
    → Layer
    → GoMap String ℤ
    → List String
    → Option (List Layer)
run_rounds cancelled s zero prev_round layers prev best marked = some layers
run_rounds cancelled s (suc left) prev_round layers prev best marked =
    let w = run_round s prev_round prev best marked in
    let done = layers ++ w.layer ∷ [] in
    let rest = run_rounds cancelled s left (prev_round + 1) done w.layer w.best w.improved in
    if cancelled (prev_round + 1) then none else if is_empty w.improved then some done else rest

unfoldable pub search_layers : (ℕ → Bool) → SearchState → Option (List Layer)
unfolding run_rounds round_zero
search_layers cancelled s =
    let w = round_zero s in
    run_rounds cancelled s s.rounds 0 (w.layer ∷ []) w.layer w.best w.improved
