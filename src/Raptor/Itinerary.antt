-- ===== src/Raptor/Itinerary.antt =====
-- internal/raptor/validator.go: ValidatePath, the check that a journey is internally consistent.
pub mod Laws
use multi_agent_travel.Prelude.{
  ℕ, suc, ◌+◌, String, Bool, true, false, List, [], ◌∷◌, Option, none, some, if◌then◌else◌, not,
  ◌&&◌, ◌==◌, eq_String,
}
use multi_agent_travel.Prelude.Int.{ℤ, ltb_ℤ}
use multi_agent_travel.Model.{Leg, JourneyPath, SearchParams, is_transit}

-- The errors, with the index of the leg where one is named.
pub data PathError : Type 0 where
  no_legs wrong_origin wrong_destination departs_early : PathError
  arrives_before_departure no_trip_id gap overlap : ℕ → PathError

-- The checks of one leg by itself.
unfoldable pub check_leg : ℕ → Leg → Option PathError
check_leg i leg =
    if ltb_ℤ leg.arrival_unix leg.departure_unix
    then some (arrives_before_departure i)
    else if is_transit leg.kind && leg.trip_id == ""
    then some (no_trip_id i)
    else none

-- The checks of a leg against the one before it.
unfoldable pub check_join : ℕ → Leg → Leg → Option PathError
check_join i prev leg =
    if not (prev.alight_station == leg.board_station)
    then some (gap i)
    else if ltb_ℤ leg.departure_unix prev.arrival_unix
    then some (overlap i)
    else none

-- The first error, if any.
abbrev pub or_else : Option PathError → Option PathError → Option PathError
or_else none next = next
or_else (some e) next = some e

-- The loop from leg i on; `prev` is leg i - 1.
unfoldable pub check_legs : ℕ → Leg → List Leg → Option PathError
unfolding check_leg check_join
check_legs i prev [] = none
check_legs i prev (leg ∷ rest) =
    or_else (check_leg i leg) (or_else (check_join i prev leg) (check_legs (suc i) leg rest))

-- p.Legs[len(p.Legs)-1]
unfoldable pub last_leg : Leg → List Leg → Leg
last_leg leg [] = leg
last_leg leg (next ∷ rest) = last_leg next rest

unfoldable pub validate_legs : List Leg → SearchParams → Option PathError
unfolding check_legs last_leg
validate_legs [] params = some no_legs
validate_legs (leg ∷ rest) params =
    if not (leg.board_station == params.origin)
    then some wrong_origin
    else if not ((last_leg leg rest).alight_station == params.destination)
    then some wrong_destination
    else if ltb_ℤ leg.departure_unix params.dep_time
    then some departs_early
    else or_else (check_leg 0 leg) (check_legs 1 leg rest)

-- `none` is the nil error.
unfoldable pub validate_path : JourneyPath → SearchParams → Option PathError
unfolding validate_legs
validate_path p params = validate_legs p.legs params
