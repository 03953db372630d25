-- ===== src/Model.antt =====
-- internal/model/types.go: the domain types that every package shares, the search parameters with
-- their effective values, and the dominance order on journeys. Go's `int` and `int64` are 64-bit.
pub mod Laws
pub mod SeatKeys
pub mod Dates
use multi_agent_travel.Prelude.{
  ℕ, String, ◌≡◌, ◌↔◌, Bool, true, false, ◌&&◌, ◌||◌, List, [], ◌∷◌, arith, if◌then◌else◌, Eq,
  eq_String, ◌==◌, suc, ltb, leb,
}
use multi_agent_travel.Prelude.Int.{ℤ, pos, negsuc, ltb_ℤ, leb_ℤ}
use multi_agent_travel.Prelude.GoMap.{GoMap}

abbrev pub default_max_rounds : ℤ
default_max_rounds = pos 4

abbrev pub max_allowed_rounds : ℤ
max_allowed_rounds = pos 8

abbrev pub default_min_transfer_seconds : ℤ
default_min_transfer_seconds = pos 0

abbrev pub default_date_window_days : ℤ
default_date_window_days = pos 2

abbrev pub max_passengers : ℤ
max_passengers = pos 20

pub record TripKey : Type 0 where
  pub trip_id : String
  pub date : String

abbrev pub trip_key_beq : TripKey → TripKey → Bool
trip_key_beq a b = if a.trip_id == b.trip_id then a.date == b.date else false

pub trip_key_beq_iff : (a b : TripKey) → (trip_key_beq a b ≡ true) ↔ (a ≡ b)
trip_key_beq_iff a b =
    ground (arith, eq_String.decides a.trip_id b.trip_id, eq_String.decides a.date b.date)

instance abbrev pub eq_TripKey : Eq TripKey
eq_TripKey = record { same = trip_key_beq; decides = trip_key_beq_iff }

pub record StopTime : Type 0 where
  pub trip_id : String
  pub date : String
  pub stop_seq : ℤ
  pub station_id : String
  pub arrival_unix : ℤ
  pub departure_unix : ℤ

-- `snapshot_ts` is a float64 in the source; the model keeps whole seconds.
pub record SeatSignal : Type 0 where
  pub by_class : GoMap String ℤ
  pub total : ℤ
  pub stale : Bool
  pub snapshot_ts : ℤ

pub record RouteEntry : Type 0 where
  pub route_id : String
  pub stop_ids : List String
  pub trip_keys : List TripKey

pub record TripStopTimes : Type 0 where
  pub key : TripKey
  pub arrivals : List ℤ
  pub departures : List ℤ
  pub station_ids : List String

-- The loader takes both indices from the lengths of slices.
pub record TripLocation : Type 0 where
  pub route_idx : ℕ
  pub trip_idx : ℕ

pub record Footpath : Type 0 where
  pub neighbour_stop : String
  pub walk_seconds : ℤ

pub record SearchParams : Type 0 where
  pub origin : String
  pub destination : String
  pub date : String
  pub dep_time : ℤ
  pub seat_class : String
  pub passengers : ℤ
  pub max_rounds : ℤ
  pub min_transfer_seconds : ℤ
  pub date_window_days : ℤ

-- SearchParams.Rounds, TransferBuffer and DateWindow.
unfoldable pub rounds : SearchParams → ℤ
rounds p =
    let r = if leb_ℤ p.max_rounds (pos 0) then default_max_rounds else p.max_rounds in
    if ltb_ℤ max_allowed_rounds r then max_allowed_rounds else r

unfoldable pub transfer_buffer : SearchParams → ℤ
transfer_buffer p =
    if ltb_ℤ (pos 0) p.min_transfer_seconds
    then p.min_transfer_seconds
    else default_min_transfer_seconds

unfoldable pub date_window : SearchParams → ℤ
date_window p =
    if ltb_ℤ (pos 0) p.date_window_days then p.date_window_days else default_date_window_days

pub data LegKind : Type 0 where
  transit walk : LegKind

abbrev pub is_transit : LegKind → Bool
is_transit transit = true
is_transit walk = false

abbrev pub walk_route_id : String
walk_route_id = "WALK"

pub record Leg : Type 0 where
  pub kind : LegKind
  pub trip_id : String
  pub date : String
  pub route_id : String
  pub board_station : String
  pub alight_station : String
  pub departure_unix : ℤ
  pub arrival_unix : ℤ

-- `Path` of the source. `transfers` and `rounds` count, so they are natural numbers.
pub record JourneyPath : Type 0 where
  pub legs : List Leg
  pub departure_unix : ℤ
  pub arrival_unix : ℤ
  pub total_time_seconds : ℤ
  pub wait_seconds : ℤ
  pub transfers : ℕ
  pub walk_seconds : ℤ
  pub rounds : ℕ

abbrev pub transit_legs_of : List Leg → ℕ
transit_legs_of [] = 0
transit_legs_of (l ∷ ls) = let n = transit_legs_of ls in if is_transit l.kind then suc n else n

-- Path.TransitLegs and Path.Dominates.
unfoldable pub transit_legs : JourneyPath → ℕ
transit_legs p = transit_legs_of p.legs

unfoldable pub dominates : JourneyPath → JourneyPath → Bool
dominates p q =
    let better_or_equal = leb_ℤ p.arrival_unix q.arrival_unix && leb p.transfers q.transfers in
    let strictly = ltb_ℤ p.arrival_unix q.arrival_unix || ltb p.transfers q.transfers in
    better_or_equal && strictly
