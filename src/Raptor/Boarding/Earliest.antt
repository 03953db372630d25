-- ===== src/Raptor/Boarding/Earliest.antt =====
-- internal/raptor/engine.go: earliestTrip on the routes for which it is called.
use multi_agent_travel.Raptor.Boarding.Forward.{
  scan_forward-none, scan_forward-some, first-IsBoundary, departs_from-ready, IsOrderedAt, CanTake,
}
use multi_agent_travel.Prelude.{
  get_elem?-drop, ltb→lt, lt_of_get_elem?, ℕ, ◌+◌, ◌-◌, ◌≤◌, ◌≡◌, sym, ◌∙◌, inl, inr, true, none,
  some, List, arith, ltb, Bool-cases, eq_ℕ, eq_String, length, get_elem?, take, drop,
}
use multi_agent_travel.Prelude.Int.{leb_ℤ→≤ℤ, ℤ, ◌≤ℤ◌, eq_ℤ}
use multi_agent_travel.Raptor.State.{SearchState}
use multi_agent_travel.Schedule.Fifo.Laws.{Below_le, compute_fifo-Below}
use multi_agent_travel.Raptor.Boarding.BinarySearch.{IsBoundary}
use multi_agent_travel.Raptor.Boarding.{earliest_trip, sort_search, departs_from}
use multi_agent_travel.Schedule.Fifo.{compute_fifo}
use multi_agent_travel.Model.{TripStopTimes}

-- A trip that the search could board: it passes the filters and leaves in [ready, must_beat).
pub record IsBoardable (s : SearchState) (trips : List TripStopTimes) (at : ℕ) (ready must_beat : ℤ)
    (i : ℕ) : Type 0 where
  pub take : CanTake s trips at must_beat i
  pub catchable : ready ≤ℤ take.dep

module _ (s : SearchState) (trips : List TripStopTimes) (fifo : compute_fifo trips ≡ true) (at : ℕ)
    (ready must_beat : ℤ) where
  boundary :
      IsBoundary
        (length trips)
        (departs_from trips at ready)
        (sort_search (length trips) (departs_from trips at ready))
  boundary = first-IsBoundary trips fifo at ready

  lo : ℕ
  lo = sort_search (length trips) (departs_from trips at ready)

  found_at :
      (i j : ℕ) (t : TripStopTimes)
      → get_elem? (drop i trips) j ≡ some t
      → get_elem? trips (i + j) ≡ some t
  found_at i j t e = rw (get_elem?-drop i j trips) at e

  from_lo : {j : ℕ} → IsBoardable s trips at ready must_beat j → lo ≤ j
  unfolding lo
  from_lo {j} b = elim (Bool-cases (ltb j lo)) [
    | inl before ↦
        let early = boundary.below j (ltb→lt j lo before) in
        let ready_eq =
          departs_from-ready trips at ready j b.take.trip b.take.dep b.take.found b.take.departs in
        absurd (ground (arith, early, ready_eq, b.catchable))
    | inr after ↦ ground arith
  ]

  -- On a FIFO route a trip that earliestTrip returns can be boarded: it leaves the stop from `ready`
  -- on and before `must_beat`, on an allowed date and with seats for all that is known.
  pub earliest_trip-IsBoardable :
      (r : ℕ)
      → earliest_trip s trips at ready must_beat ≡ some r
      → IsBoardable s trips at ready must_beat r
  unfolding earliest_trip lo
  earliest_trip-IsBoardable r h =
      let (k, e, take, first) = scan_forward-some s at must_beat (drop lo trips) lo r h in
      let found = found_at lo k take.trip take.found in
      let at_r : get_elem? trips r ≡ some take.trip = rw e found in
      let inside = lt_of_get_elem? trips r take.trip at_r in
      let open_from = boundary.above r (omega arith) inside in
      let ready_eq = departs_from-ready trips at ready r take.trip take.dep at_r take.departs in
      record {
        take = record {
          trip = take.trip;
          dep = take.dep;
          found = at_r;
          departs = take.departs;
          usable = take.usable;
          in_time = take.in_time;
        };
        catchable = leb_ℤ→≤ℤ ready take.dep (sym ready_eq ∙ open_from);
      }

  -- On a FIFO route earliestTrip returns the first of the trips that can be boarded.
  pub earliest_trip_least :
      (r j : ℕ)
      → earliest_trip s trips at ready must_beat ≡ some r
      → IsBoardable s trips at ready must_beat j
      → r ≤ j
  unfolding earliest_trip lo
  earliest_trip_least r j h b =
      let (k, e, take, first) = scan_forward-some s at must_beat (drop lo trips) lo r h in
      elim (Bool-cases (ltb j r)) [
        | inr after ↦ ground arith
        | inl before ↦
            let above = from_lo b in
            let split : lo + (j - lo) ≡ j = omega arith in
            let here : get_elem? (drop lo trips) (j - lo) ≡ some b.take.trip =
              rw (get_elem?-drop lo (j - lo) trips, split) b.take.found in
            cc (
              b.take.usable,
              first (j - lo) b.take.trip b.take.dep (ground arith) here b.take.departs,
            )
      ]

  -- On a FIFO route earliestTrip returns -1 only if no trip is boardable.
  pub earliest_trip-none :
      earliest_trip s trips at ready must_beat ≡ none
      → (j : ℕ) → ¬ IsBoardable s trips at ready must_beat j
  unfolding earliest_trip lo
  earliest_trip-none h j b =
      let above = from_lo b in
      let split : lo + (j - lo) ≡ j = omega arith in
      let here : get_elem? (drop lo trips) (j - lo) ≡ some b.take.trip =
        rw (get_elem?-drop lo (j - lo) trips, split) b.take.found in
      let too_late =
        scan_forward-none s at must_beat (drop lo trips) lo ordered h (j - lo) b.take.trip
          b.take.dep here b.take.departs b.take.usable in
      omega (arith, too_late, b.take.in_time)
    where
      ordered : IsOrderedAt at (drop lo trips)
      ordered i k t u d e le x y p q =
          let below =
            (compute_fifo-Below trips (lo + i) (lo + k) t u fifo (omega arith) (found_at lo i t x)
              (found_at lo k u y)).0 in
          Below_le t.departures u.departures at d e below p q
