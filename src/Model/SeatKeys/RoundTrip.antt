-- ===== src/Model/SeatKeys/RoundTrip.antt =====
-- internal/model/types.go: ParseSeatTripDate reads what SeatTripDate wrote.
use multi_agent_travel.Model.Dates.{valid_date, codes}
use multi_agent_travel.Model.Dates.Digits.{valid_date-IsPlain, IsPlain}
use multi_agent_travel.Model.SeatKeys.{seat_trip_date, split_last_colon, parse_seat_trip_date}
use Prim.Native.String.append
use Prim.Native.String.{◌++◌ as append}
use multi_agent_travel.Prelude.{
  String, ◌≡◌, refl, ◌≢◌, true, none, some, arith, eq_ℕ, eq_String, All,
}
use multi_agent_travel.Prelude.Int.{eq_ℤ}

split_plain : (s : String) → All IsPlain (codes s) → split_last_colon s ≡ none
unfolding split_last_colon
split_plain String.[] h = refl
split_plain (String.◌∷◌ c s) h = rw (split_plain s h.1, h.0)

split-append :
    (trip_id date : String)
    → All IsPlain (codes date)
    → split_last_colon (append trip_id (append ":" date)) ≡ some (trip_id, date)
unfolding split_last_colon
split-append String.[] date h =
    rw
      (
        append.nil (append ":" date),
        append.cons,
        split_last_colon,
        append.nil date,
        split_plain date h,
      )
      (rw (append.nil date))
split-append (String.◌∷◌ c s) date h = rw (append.cons, split_last_colon, split-append s date h)

-- A trip with an id and a date of the calendar is read back from its stream value, whatever colons
-- its id has.
pub parse_seat_trip_date-seat_trip_date :
    (trip_id date : String)
    → trip_id ≢ ""
    → valid_date date ≡ true
    → parse_seat_trip_date (seat_trip_date trip_id date) ≡ some (trip_id, date)
unfolding parse_seat_trip_date seat_trip_date
parse_seat_trip_date-seat_trip_date trip_id date named valid =
    let split = split-append trip_id date (valid_date-IsPlain date valid) in
    rw (parse_seat_trip_date, split) (ground (arith, valid, eq_String.decides trip_id ""))
