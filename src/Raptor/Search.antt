-- ===== src/Raptor/Search.antt =====
-- internal/raptor/engine.go: RaptorSearch. The two buffers are the snapshots that the search takes
-- when it starts; `cancelled k` is what the context answers before round k. An empty list stands
-- for both nil and an empty slice.
pub mod Sound
pub mod Bounds
use multi_agent_travel.Prelude.{
  ℕ, Bool, List, [], none, some, if◌then◌else◌, ◌||◌, ◌==◌, eq_String, is_empty,
}
use multi_agent_travel.Prelude.Int.{ℤ, pos_part}
use multi_agent_travel.Model.{SearchParams, JourneyPath, rounds, transfer_buffer, date_window}
use multi_agent_travel.Model.Dates.{compute_allowed_dates}
use multi_agent_travel.Schedule.Buffer.{RouteBuffer}
use multi_agent_travel.Raptor.State.{SearchState, SignalBuffer}
use multi_agent_travel.Raptor.Rounds.{search_layers}
use multi_agent_travel.Raptor.Frontier.{extract}

-- Rounds() is at least 1, so its value as a natural number is the same.
unfoldable pub new_search : SignalBuffer → RouteBuffer → SearchParams → SearchState
unfolding rounds transfer_buffer date_window compute_allowed_dates
new_search signals routes params = record {
  params = params;
  rounds = pos_part (rounds params);
  xfer_sec = transfer_buffer params;
  dest = params.destination;
  routes = routes;
  signals = signals;
  allowed = compute_allowed_dates params.date (date_window params);
}

unfoldable pub raptor_search :
    (ℕ → Bool) → SignalBuffer → RouteBuffer → SearchParams → ℤ → List JourneyPath
unfolding new_search search_layers extract
raptor_search cancelled signals routes params top_k =
    let s = new_search signals routes params in
    if is_empty routes.routes
    then []
    else if params.origin == "" || params.destination == "" || params.origin == params.destination
    then []
    else elim (search_layers cancelled s) [ none ↦ [] | some layers ↦ extract s layers top_k ]
