-- ===== src/Tests/ModelWitnesses.antt =====
-- The theorems on the domain model, the seat state and the whole search at concrete inputs.
use multi_agent_travel.SeatState.{initial}
use multi_agent_travel.Tests.Network.{sample_routes, sample_params}
use multi_agent_travel.SeatState.Runs.{run_ops-IsConsistent, reset, Op, swap, run_ops}
use multi_agent_travel.Raptor.Search.{raptor_search}
use multi_agent_travel.Model.Laws.{dominates_order}
use multi_agent_travel.SeatState.Laws.{IsConsistent}
use multi_agent_travel.Raptor.State.{SignalBuffer}
use multi_agent_travel.Raptor.Frontier.Undominated.{raptor_search-AreUndominated, AreUndominated}
use multi_agent_travel.Model.{dominates, JourneyPath}
use multi_agent_travel.Prelude.{ℕ, ◌≡◌, refl, true, false, [], ◌∷◌, eq_ℕ, eq_String}
use multi_agent_travel.Prelude.Int.{ℤ, pos, eq_ℤ}

abbrev journey_of : ℤ → ℕ → JourneyPath
journey_of arrival changes = record {
  legs = [];
  departure_unix = pos 100;
  arrival_unix = arrival;
  total_time_seconds = pos 0;
  wait_seconds = pos 0;
  transfers = changes;
  walk_seconds = pos 0;
  rounds = changes;
}

first_dominates : dominates (journey_of (pos 200) 0) (journey_of (pos 200) 1) ≡ true
unfolding dominates
first_dominates = refl

second_dominates : dominates (journey_of (pos 200) 1) (journey_of (pos 300) 1) ≡ true
unfolding dominates
second_dominates = refl

dominates_order_example :
    (dominates (journey_of (pos 200) 0) (journey_of (pos 300) 1) ≡ true)
    × (dominates (journey_of (pos 200) 1) (journey_of (pos 200) 0) ≡ false)
dominates_order_example =
    dominates_order (journey_of (pos 200) 0) (journey_of (pos 200) 1) (journey_of (pos 300) 1)
      first_dominates second_dominates

raptor_search-AreUndominated_example :
    AreUndominated (raptor_search (λ k. false) [] sample_routes sample_params (pos 5))
raptor_search-AreUndominated_example =
    raptor_search-AreUndominated (λ k. false) [] sample_routes sample_params (pos 5)

abbrev sample_signals : SignalBuffer
sample_signals =
    (
      record { trip_id = "t"; date = "2026-03-01" },
      record { by_class = []; total = pos 0; stale = true; snapshot_ts = pos 0 },
    )
    ∷ []

run_ops-IsConsistent_example : IsConsistent (
    run_ops
      (swap sample_signals (pos 7) ∷ Op.ready ∷ reset ∷ swap sample_signals (pos 9) ∷ [])
      initial)
run_ops-IsConsistent_example =
    run_ops-IsConsistent
      (swap sample_signals (pos 7) ∷ Op.ready ∷ reset ∷ swap sample_signals (pos 9) ∷ [])
