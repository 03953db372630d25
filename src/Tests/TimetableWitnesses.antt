-- ===== src/Tests/TimetableWitnesses.antt =====
-- The theorems on the timetable at concrete inputs.
use multi_agent_travel.Schedule.Fifo.Laws.{compute_fifo_iff, NoOvertaking}
use multi_agent_travel.Tests.Network.{late_trip, early_trip}
use multi_agent_travel.Schedule.Loader.Rows.{
  load_schedule-IsMeasured, load_schedule-IsLoaded, IsLoaded,
}
use multi_agent_travel.Schedule.Loader.{load_schedule, ScheduleRow}
use multi_agent_travel.Schedule.Ingestion.{
  validate_batch_iff, IsProper, IsFresh, validate_batch, IngestTrip,
}
use multi_agent_travel.Schedule.Fifo.{compute_fifo}
use multi_agent_travel.Raptor.Reach.{IsMeasured}
use multi_agent_travel.Prelude.{
  String, ◌≡◌, ◌↔◌, true, none, List, [], ◌∷◌, arith, eq_ℕ, eq_String, All,
}
use multi_agent_travel.Prelude.Int.{ℤ, pos, eq_ℤ}

compute_fifo_iff_example :
    (compute_fifo (early_trip ∷ late_trip ∷ []) ≡ true) ↔ NoOvertaking (early_trip ∷ late_trip ∷ [])
compute_fifo_iff_example = compute_fifo_iff (early_trip ∷ late_trip ∷ []) (omega arith)

abbrev row_of : String → String → ℤ → ScheduleRow
row_of trip station t = record {
  route_id = "r";
  trip_id = trip;
  date = "2026-03-01";
  stop_seq = pos 0;
  station_id = station;
  arr_unix = t;
  dep_unix = t;
}

abbrev sample_rows : List ScheduleRow
sample_rows =
    row_of "t1" "A" (pos 100)
    ∷ row_of "t1" "B" (pos 200)
    ∷ row_of "t2" "A" (pos 50)
    ∷ row_of "t2" "B" (pos 300)
    ∷ row_of "t3" "A" (pos 70)
    ∷ []

load_schedule-IsLoaded_example : IsLoaded (load_schedule sample_rows)
load_schedule-IsLoaded_example = load_schedule-IsLoaded sample_rows

load_schedule-IsMeasured_example : IsMeasured (load_schedule sample_rows)
load_schedule-IsMeasured_example = load_schedule-IsMeasured sample_rows

abbrev sample_batch : List IngestTrip
sample_batch =
    record {
      trip_id = "t";
      date = "2026-03-01";
      route_id = "r";
      dep_unix = pos 120;
      stop_times =
          record {
            trip_id = "t";
            date = "2026-03-01";
            stop_seq = pos 0;
            station_id = "A";
            arrival_unix = pos 110;
            departure_unix = pos 120;
          }
          ∷ [];
    }
    ∷ []

validate_batch_iff_example :
    (validate_batch sample_batch ≡ none) ↔ (IsFresh [] sample_batch × All IsProper sample_batch)
validate_batch_iff_example = validate_batch_iff sample_batch
