-- ===== src/Raptor/Boarding.antt =====
-- internal/raptor/engine.go: canBoard, tripUsable and earliestTrip.
pub mod BinarySearch
pub mod Forward
pub mod Earliest
use multi_agent_travel.Prelude.{
  ℕ, zero, suc, ◌+◌, ◌/◌, String, Bool, true, false, List, [], ◌∷◌, Option, none, some,
  if◌then◌else◌, ltb, length, get_elem?, drop, eq_String,
}
use multi_agent_travel.Prelude.Int.{ℤ, pos, leb_ℤ}
use multi_agent_travel.Prelude.GoMap.{lookup, lookup_or, member}
use multi_agent_travel.Model.{TripKey, eq_TripKey, TripStopTimes}
use multi_agent_travel.Raptor.State.{SignalBuffer, SearchState}

-- Optimistic: a trip with no signal or a stale one may be boarded.
unfoldable pub can_board : SignalBuffer → TripKey → String → ℤ → Bool
can_board buf key class count = elim (lookup key buf) [
  | none ↦ true
  | some sig ↦ if sig.stale then true else leb_ℤ count (lookup_or (pos 0) class sig.by_class)
]

unfoldable pub trip_usable : SearchState → TripStopTimes → Bool
trip_usable s t =
    if member t.key.date s.allowed
    then can_board s.signals t.key s.params.seat_class s.params.passengers
    else false

-- The loop of sort.Search, which halves the interval [i, j).
unfoldable pub search_loop : ℕ → (ℕ → Bool) → ℕ → ℕ → ℕ
search_loop zero f i j = i
search_loop (suc fuel) f i j =
    let h = (i + j) / 2 in
    elim (ltb i j) [
      | true ↦ elim (f h) [ true ↦ search_loop fuel f i h | false ↦ search_loop fuel f (h + 1) j ]
      | false ↦ i
    ]

unfoldable pub sort_search : ℕ → (ℕ → Bool) → ℕ
unfolding search_loop
sort_search n f = search_loop n f 0 n

-- The predicate of the binary search: trip i does not depart from `pos` before `ready`.
unfoldable pub departs_from : List TripStopTimes → ℕ → ℤ → ℕ → Bool
departs_from trips at ready i = elim (get_elem? trips i) [
  | none ↦ true
  | some t ↦ elim (get_elem? t.departures at) [ none ↦ true | some d ↦ leb_ℤ ready d ]
]

-- The forward scan, over the trips from index i on.
unfoldable pub scan_forward : SearchState → List TripStopTimes → ℕ → ℕ → ℤ → Option ℕ
scan_forward s [] i at must_beat = none
scan_forward s (t ∷ ts) i at must_beat =
    let rest = scan_forward s ts (i + 1) at must_beat in
    elim (get_elem? t.departures at) [
      | none ↦ rest
      | some d ↦ if leb_ℤ must_beat d then none else if trip_usable s t then some i else rest
    ]

-- `none` is the -1 of the source.
unfoldable pub earliest_trip : SearchState → List TripStopTimes → ℕ → ℤ → ℤ → Option ℕ
unfolding scan_forward sort_search departs_from
earliest_trip s trips at ready must_beat =
    let lo = sort_search (length trips) (departs_from trips at ready) in
    scan_forward s (drop lo trips) lo at must_beat
