-- ===== src/Raptor/Reach/Scanning.antt =====
-- internal/raptor/engine.go: scanRoute and scanTrip write labels of journeys only.
use multi_agent_travel.Raptor.Reach.Linked.{linked_ride}
use multi_agent_travel.Raptor.Reach.Riding.{
  IsTail-next, set_ride-IsScanning, IsTail-here, IsTail-drop, Riding, OnBoard, IsTail, IsScanning,
}
use multi_agent_travel.Schedule.Buffer.{is_fifo}
use multi_agent_travel.Raptor.Reach.Labels.{ready_at-Reaches}
use multi_agent_travel.Schedule.Fifo.{compute_fifo}
use multi_agent_travel.Raptor.Boarding.{earliest_trip, trip_usable}
use multi_agent_travel.Raptor.Scan.{
  scan_trips, scan_trip, scan_stops, scan_route, scan_loaded, ride_stops, current_departure,
  ride_entry, board_trip, board_once, board_earliest, alight, Ride,
}
use multi_agent_travel.Raptor.Reach.{ridden, ready_time, IsTold, IsRide, IsMeasured, ride, IsSound}
use multi_agent_travel.Model.{TripStopTimes, RouteEntry}
use multi_agent_travel.Raptor.State.{improves, ready_at, Work, Layer, SearchState}
use multi_agent_travel.Raptor.Boarding.Earliest.{earliest_trip-IsBoardable}
use multi_agent_travel.Prelude.{
  ◌||◌, is_empty, [], sym, ℕ, suc, ◌+◌, String, ◌≡◌, refl, inl, inr, true, Option, none, some, List,
  ◌∷◌, arith, Bool-cases, Option-cases, eq_ℕ, eq_String, get_elem?, drop,
}
use multi_agent_travel.Prelude.Int.{pos_part, pos, negsuc, leb_ℤ→≤ℤ, ℤ, ltb_ℤ, leb_ℤ, ◌≤ℤ◌, eq_ℤ}

module _ (s : SearchState) (all : List Layer) (k prev_round : ℕ) (succ : k ≡ prev_round + 1)
    (prev : Layer) (prev_found : get_elem? all prev_round ≡ some prev)
    (prev_sound : IsSound s prev_round prev) (route_idx : ℕ) (route : RouteEntry)
    (trips : List TripStopTimes) (route_found : get_elem? s.routes.routes route_idx ≡ some route)
    (trips_found : get_elem? s.routes.stop_times route_idx ≡ some trips) where
  -- Getting off at position `at` of the trip being ridden.
  ridden_leg :
      (r : Ride) (at : ℕ)
      → (b : OnBoard s all prev_round route trips r at) → (station : String) (arr : ℤ)
      → get_elem? route.stop_ids at ≡ some station
      → get_elem? r.trip.arrivals at ≡ some arr
      → IsRide s r.board_station (ready_time s b.time b.last) station arr
  ridden_leg r at b station arr here ea = record {
    route_idx = route_idx;
    route = route;
    trips = trips;
    trip_idx = b.trip_idx;
    trip = r.trip;
    board_pos = b.board_pos;
    alight_pos = at;
    dep = r.board_dep;
    route_found = route_found;
    trips_found = trips_found;
    trip_found = b.trip_found;
    usable = b.usable;
    forwards = b.before;
    boards = b.boards;
    alights = here;
    departs = b.departs;
    in_time = b.in_time;
    arrives = ea;
  }

  ride_entry-IsTold :
      (r : Ride) (at : ℕ)
      → OnBoard s all prev_round route trips r at
      → (station : String) (arr : ℤ) → get_elem? route.stop_ids at ≡ some station
      → get_elem? r.trip.arrivals at ≡ some arr
      → IsTold s k station (ride_entry prev_round route r arr)
  unfolding ride_entry ridden_leg
  ride_entry-IsTold r at b station arr here ea = ridden refl (record {
    time = b.time;
    last = b.last;
    reached = b.reached;
    earlier = omega arith;
    taken = ridden_leg r at b station arr here ea;
    departs = refl;
    trip_named = refl;
    route_named = refl;
  })

  alight-IsScanning :
      (riding : Option Ride) (at : ℕ) (station : String) (w : Work)
      → Riding s all prev_round route trips riding at
      → get_elem? route.stop_ids at ≡ some station
      → IsScanning s all k w
      → IsScanning s all k (alight s prev_round route riding at station w)
  unfolding alight
  alight-IsScanning none at station w b here v = v
  alight-IsScanning (some r) at station w b here v =
      elim (Option-cases (get_elem? r.trip.arrivals at)) [
        | inl gone ↦ rw (alight, gone) v
        | inr (arr, ea) ↦ elim (Bool-cases (improves w.best s.dest arr station)) [
          | inr worse ↦ rw (alight, ea, worse) v
          | inl better ↦
              let taken = ridden_leg r at b station arr here ea in
              rw (alight, ea, better)
                (set_ride-IsScanning s all k w station (ride_entry prev_round route r arr) v
                  (unfold ride_entry in refl) (unfold ride_entry in ride succ b.reached taken)
                  (ride_entry-IsTold r at b station arr here ea)
                  (linked_ride (unfold ride_entry in b.caught)))
        ]
      ]

  OnBoard-next :
      (riding : Option Ride) (at : ℕ)
      → Riding s all prev_round route trips riding at
      → Riding s all prev_round route trips riding (at + 1)
  OnBoard-next none at b = tt
  OnBoard-next (some r) at b = record {
    time = b.time;
    last = b.last;
    reached = b.reached;
    trip_idx = b.trip_idx;
    trip_found = b.trip_found;
    usable = b.usable;
    board_pos = b.board_pos;
    before = omega (arith, b.before);
    boards = b.boards;
    departs = b.departs;
    in_time = b.in_time;
    caught = b.caught;
  }

  -- Boarding at position `at` a usable trip that leaves when the passenger is ready, or later.
  boarded :
      (at : ℕ) (station : String) (ready dep : ℤ) (i : ℕ) (t : TripStopTimes)
      → get_elem? route.stop_ids at ≡ some station
      → ready_at prev s.xfer_sec station ≡ some ready
      → get_elem? trips i ≡ some t
      → trip_usable s t ≡ true
      → get_elem? t.departures at ≡ some dep
      → ready ≤ℤ dep
      → OnBoard s all prev_round route trips
          (record { trip = t; board_station = station; board_dep = dep })
          (at + 1)
  boarded at station ready dep i t here er et usable ed le =
      let (time, l, r, e) = ready_at-Reaches s prev_round prev station ready prev_sound er in
      record {
        time = time;
        last = l;
        reached = r;
        trip_idx = i;
        trip_found = et;
        usable = usable;
        board_pos = at;
        before = omega arith;
        boards = here;
        departs = ed;
        in_time = rw (← e) le;
        caught = record {
          source = prev;
          ready = ready;
          source_found = prev_found;
          ready_found = er;
          catchable = le;
        };
      }

  board_once-Riding :
      (t : TripStopTimes) (i at : ℕ) (station : String) (riding : Option Ride)
      → get_elem? trips i ≡ some t
      → trip_usable s t ≡ true
      → get_elem? route.stop_ids at ≡ some station
      → Riding s all prev_round route trips riding at
      → Riding s all prev_round route trips (board_once s prev t at station riding) (at + 1)
  unfolding board_once
  board_once-Riding t i at station (some r) et usable here b = OnBoard-next (some r) at b
  board_once-Riding t i at station none et usable here b =
      elim (Option-cases (get_elem? t.departures at)) [
        | inl gone ↦ rw (board_once, gone) tt
        | inr (d, ed) ↦ elim (Option-cases (ready_at prev s.xfer_sec station)) [
          | inl unreached ↦ rw (board_once, ed, unreached) tt
          | inr (ready, er) ↦ elim (Bool-cases (leb_ℤ ready d)) [
            | inr late ↦ rw (board_once, ed, er, late) tt
            | inl in_time ↦
                rw (board_once, ed, er, in_time)
                  (boarded at station ready d i t here er et usable ed (leb_ℤ→≤ℤ ready d in_time))
          ]
        ]
      ]

  board_earliest-Riding :
      compute_fifo trips ≡ true
      → (at : ℕ) (station : String) (riding : Option Ride)
      → get_elem? route.stop_ids at ≡ some station
      → Riding s all prev_round route trips riding at
      → Riding s all prev_round route trips (board_earliest s prev trips at station riding) (at + 1)
  unfolding board_earliest
  board_earliest-Riding fifo at station riding here b =
      elim (Option-cases (ready_at prev s.xfer_sec station)) [
        | inl unreached ↦ rw (board_earliest, unreached) (OnBoard-next riding at b)
        | inr (ready, er) ↦ elim (Bool-cases (ltb_ℤ (current_departure riding at) ready)) [
          | inl beaten ↦ rw (board_earliest, er, beaten) (OnBoard-next riding at b)
          | inr open_ ↦ rw (board_earliest, er, open_) (found ready er)
        ]
      ]
    where
      found :
          (ready : ℤ)
          → ready_at prev s.xfer_sec station ≡ some ready
          → Riding s all prev_round route trips
              (board_trip trips at station riding
                (earliest_trip s trips at ready (current_departure riding at)))
              (at + 1)
      found ready er =
          elim (Option-cases (earliest_trip s trips at ready (current_departure riding at))) [
            | inl missing ↦ rw (missing, board_trip) (OnBoard-next riding at b)
            | inr (i, ei) ↦
                let ok =
                  earliest_trip-IsBoardable s trips fifo at ready (current_departure riding at) i
                    ei in
                rw (ei, board_trip, ok.take.found, ok.take.departs)
                  (boarded at station ready ok.take.dep i ok.take.trip here er ok.take.found
                    ok.take.usable ok.take.departs ok.catchable)
          ]

  scan_stops-IsScanning :
      compute_fifo trips ≡ true
      → (rest : List String) (at : ℕ) (riding : Option Ride) (w : Work)
      → IsTail route.stop_ids rest at
      → Riding s all prev_round route trips riding at
      → IsScanning s all k w
      → IsScanning s all k (scan_stops s prev_round prev route trips rest at riding w)
  unfolding scan_stops
  scan_stops-IsScanning fifo [] at riding w tl b v = v
  scan_stops-IsScanning fifo (station ∷ rest) at riding w tl b v =
      let here = IsTail-here route.stop_ids station rest at tl in
      scan_stops-IsScanning fifo rest (at + 1) (board_earliest s prev trips at station riding)
        (alight s prev_round route riding at station w)
        (IsTail-next route.stop_ids station rest at tl)
        (board_earliest-Riding fifo at station riding here b)
        (alight-IsScanning riding at station w b here v)

  ride_stops-IsScanning :
      (t : TripStopTimes) (i : ℕ)
      → get_elem? trips i ≡ some t
      → trip_usable s t ≡ true
      → (rest : List String) (at : ℕ) (riding : Option Ride) (w : Work)
      → IsTail route.stop_ids rest at
      → Riding s all prev_round route trips riding at
      → IsScanning s all k w
      → IsScanning s all k (ride_stops s prev_round prev route t rest at riding w)
  unfolding ride_stops
  ride_stops-IsScanning t i et usable [] at riding w tl b v = v
  ride_stops-IsScanning t i et usable (station ∷ rest) at riding w tl b v =
      let here = IsTail-here route.stop_ids station rest at tl in
      ride_stops-IsScanning t i et usable rest (at + 1) (board_once s prev t at station riding)
        (alight s prev_round route riding at station w)
        (IsTail-next route.stop_ids station rest at tl)
        (board_once-Riding t i at station riding et usable here b)
        (alight-IsScanning riding at station w b here v)

  scan_trip-IsScanning :
      (board_pos : ℕ) (t : TripStopTimes) (i : ℕ) (w : Work)
      → get_elem? trips i ≡ some t
      → IsScanning s all k w
      → IsScanning s all k (scan_trip s prev_round prev route board_pos t w)
  unfolding scan_trip
  scan_trip-IsScanning board_pos t i w et v = elim (Bool-cases (trip_usable s t)) [
    | inr no_seat ↦ rw no_seat v
    | inl usable ↦ rw usable (
        ride_stops-IsScanning t i et usable (drop board_pos route.stop_ids) board_pos none w
          (IsTail-drop route.stop_ids board_pos) tt v)
  ]

  scan_trips-IsScanning :
      (board_pos : ℕ) (ts : List TripStopTimes) (n : ℕ) (w : Work)
      → ((m : ℕ) → get_elem? ts m ≡ get_elem? trips (n + m))
      → IsScanning s all k w
      → IsScanning s all k (scan_trips s prev_round prev route board_pos ts w)
  unfolding scan_trips
  scan_trips-IsScanning board_pos [] n w tl v = v
  scan_trips-IsScanning board_pos (t ∷ ts) n w tl v =
      let e : n + 0 ≡ n = omega arith in
      scan_trips-IsScanning board_pos ts (n + 1) (scan_trip s prev_round prev route board_pos t w)
        (λ m. let f : n + suc m ≡ n + 1 + m = omega arith in rw (← f) (tl (suc m)))
        (scan_trip-IsScanning board_pos t n w (rw e at (sym (tl 0))) v)

  scan_loaded-IsScanning :
      IsMeasured s.routes
      → (board_pos : ℕ) (w : Work) → IsScanning s all k w
      → IsScanning s all k (scan_loaded s prev_round prev route_idx board_pos route trips w)
  unfolding scan_loaded
  scan_loaded-IsScanning measured board_pos w v =
      elim (Bool-cases (is_empty trips || is_empty route.stop_ids)) [
        | inl nothing ↦ rw nothing v
        | inr loaded ↦ elim (Bool-cases (is_fifo s.routes (pos route_idx))) [
          | inl fifo ↦
              rw (loaded, fifo)
                (scan_stops-IsScanning (measured route_idx trips fifo trips_found)
                  (drop board_pos route.stop_ids) board_pos none w
                  (IsTail-drop route.stop_ids board_pos) tt v)
          | inr overtaking ↦
              rw (loaded, overtaking)
                (scan_trips-IsScanning board_pos trips 0 w
                  (λ m. let e : m ≡ 0 + m = omega arith in rw (← e)) v)
        ]
      ]

-- Scanning one route writes labels of journeys only.
pub scan_route-IsScanning :
    (s : SearchState) (all : List Layer) (k prev_round : ℕ)
    → k ≡ prev_round + 1
    → IsMeasured s.routes
    → (prev : Layer) → get_elem? all prev_round ≡ some prev
    → IsSound s prev_round prev
    → (route_idx board_pos : ℤ) (w : Work) → IsScanning s all k w
    → IsScanning s all k (scan_route s prev_round prev route_idx board_pos w)
unfolding scan_route
scan_route-IsScanning s all k prev_round succ measured prev prev_found prev_sound (negsuc i)
      board_pos w v =
    v
scan_route-IsScanning s all k prev_round succ measured prev prev_found prev_sound (pos i) board_pos
      w v =
    elim (Option-cases (get_elem? s.routes.stop_times i)) [
      | inl unloaded ↦ rw (scan_route, unloaded) v
      | inr (trips, et) ↦ elim (Option-cases (get_elem? s.routes.routes i)) [
        | inl unloaded ↦ rw (scan_route, et, unloaded) v
        | inr (route, er) ↦
            rw (scan_route, et, er)
              (scan_loaded-IsScanning s all k prev_round succ prev prev_found prev_sound i route
                trips er et measured (pos_part board_pos) w v)
      ]
    ]
