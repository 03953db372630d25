-- ===== src/Model/SeatKeys.antt =====
-- internal/model/types.go: the keys under which seat data lies in Redis, and ParseSeatTripDate. The
-- parser looks for the last colon; a colon is one byte, so texts are walked by characters.
pub mod RoundTrip
use Prim.Native.Char.{code}
use Prim.Native.String.{◌++◌ as append}
use multi_agent_travel.Prelude.{
  String, Option, none, some, if◌then◌else◌, nat_eq, ◌||◌, not, eq_String, ◌==◌,
}
use multi_agent_travel.Model.Dates.{valid_date}

unfoldable pub seat_trip_date : String → String → String
seat_trip_date trip_id date = append trip_id (append ":" date)

unfoldable pub seat_map_key : String → String → String
seat_map_key trip_id date = append "seat:map:" (append trip_id (append ":" date))

unfoldable pub seat_ts_key : String → String → String
seat_ts_key trip_id date = append "seat:ts:" (append trip_id (append ":" date))

unfoldable pub seat_hash_key : String → String → String
seat_hash_key trip_id date = append "seat:hash:" (append trip_id (append ":" date))

-- The texts before and after the last colon.
unfoldable pub split_last_colon : String → Option (String × String)
split_last_colon String.[] = none
split_last_colon (String.◌∷◌ c s) = elim (split_last_colon s) [
  | some (before, after) ↦ some (String.◌∷◌ c before, after)
  | none ↦ if nat_eq (code c) b':' then some ("", s) else none
]

abbrev pub checked_parts : String × String → Option (String × String)
checked_parts (trip_id, date) =
    if trip_id == "" || not (valid_date date) then none else some (trip_id, date)

-- The pair is the TripKey of the source.
unfoldable pub parse_seat_trip_date : String → Option (String × String)
unfolding split_last_colon
parse_seat_trip_date s = elim (split_last_colon s) [
  | none ↦ none
  | some parts ↦ checked_parts parts
]
