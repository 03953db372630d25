-- ===== src/Schedule/Ingestion.antt =====
-- internal/schedule/ingestion.go: the check of a batch of trips before it is inserted.
use multi_agent_travel.Prelude.GoMap.{member}
use multi_agent_travel.Model.{StopTime, eq_TripKey, TripKey}
use multi_agent_travel.Prelude.{
  ℕ, ◌+◌, String, ◌≡◌, refl, ◌↔◌, false, Option, none, some, List, [], ◌∷◌, arith, if◌then◌else◌,
  eq_ℕ, eq_String, All,
}
use multi_agent_travel.Prelude.Int.{ℤ, pos, ltb_ℤ, leb_ℤ, ◌≤ℤ◌, ◌<ℤ◌, eq_ℤ}

pub record IngestTrip : Type 0 where
  pub trip_id : String
  pub date : String
  pub route_id : String
  pub dep_unix : ℤ
  pub stop_times : List StopTime

pub data BatchError : Type 0 where
  duplicate no_stop_times : TripKey → BatchError
  negative_arrival departs_early not_monotone : TripKey → ℕ → BatchError

-- The loop over the stops, from stop i on.
unfoldable check_times : TripKey → ℕ → List StopTime → Option BatchError
check_times key i [] = none
check_times key i (st ∷ sts) =
    let rest = check_times key (i + 1) sts in
    if ltb_ℤ st.arrival_unix (pos 0)
    then some (negative_arrival key i)
    else if ltb_ℤ st.departure_unix st.arrival_unix
    then some (departs_early key i)
    else rest

-- The loop over the neighbouring stops: `st` is stop i - 1.
unfoldable check_order : TripKey → ℕ → StopTime → List StopTime → Option BatchError
check_order key i st [] = none
check_order key i st (next ∷ sts) =
    let rest = check_order key (i + 1) next sts in
    if leb_ℤ next.departure_unix st.departure_unix then some (not_monotone key i) else rest

unfoldable check_trip : TripKey → List StopTime → Option BatchError
unfolding check_times check_order
check_trip key [] = some (no_stop_times key)
check_trip key (st ∷ sts) = elim (check_times key 0 (st ∷ sts)) [
  | some e ↦ some e
  | none ↦ check_order key 1 st sts
]

abbrev pub ingest_key : IngestTrip → TripKey
ingest_key t = record { trip_id = t.trip_id; date = t.date }

-- The loop over the batch, with the keys seen so far; none is a nil error.
unfoldable validate_from : List TripKey → List IngestTrip → Option BatchError
unfolding check_trip
validate_from seen [] = none
validate_from seen (t ∷ ts) =
    let rest = validate_from (ingest_key t ∷ seen) ts in
    if member (ingest_key t) seen
    then some (duplicate (ingest_key t))
    else elim (check_trip (ingest_key t) t.stop_times) [ some e ↦ some e | none ↦ rest ]

-- ValidateBatch.
unfoldable pub validate_batch : List IngestTrip → Option BatchError
unfolding validate_from
validate_batch trips = validate_from [] trips

-- A stop is not left before it is reached, and no earlier than the epoch.
abbrev pub IsTimed : StopTime → Type 0
IsTimed st = (pos 0 ≤ℤ st.arrival_unix) × (st.arrival_unix ≤ℤ st.departure_unix)

-- Each stop is left later than the one before.
abbrev pub Leaves : StopTime → List StopTime → Type 0
Leaves st [] = Unit
Leaves st (next ∷ sts) = (st.departure_unix <ℤ next.departure_unix) × Leaves next sts

abbrev pub IsOrdered : List StopTime → Type 0
IsOrdered [] = ⊥
IsOrdered (st ∷ sts) = Leaves st sts

-- No trip has the key of an earlier one, and all have proper times.
abbrev pub IsFresh : List TripKey → List IngestTrip → Type 0
IsFresh seen [] = Unit
IsFresh seen (t ∷ ts) = (member (ingest_key t) seen ≡ false) × IsFresh (ingest_key t ∷ seen) ts

abbrev pub IsProper : IngestTrip → Type 0
IsProper t = IsOrdered t.stop_times × All IsTimed t.stop_times

check_times_iff :
    (key : TripKey) (i : ℕ) (sts : List StopTime) → (check_times key i sts ≡ none) ↔ All IsTimed sts
unfolding check_times
check_times_iff key i [] = (λ h. tt, λ h. refl)
check_times_iff key i (st ∷ sts) = ground (arith, check_times_iff key (i + 1) sts)

check_order_iff :
    (key : TripKey) (i : ℕ) (st : StopTime) (sts : List StopTime)
    → (check_order key i st sts ≡ none) ↔ Leaves st sts
unfolding check_order
check_order_iff key i st [] = (λ h. tt, λ h. refl)
check_order_iff key i st (next ∷ sts) = ground (arith, check_order_iff key (i + 1) next sts)

check_trip_iff :
    (key : TripKey) (sts : List StopTime)
    → (check_trip key sts ≡ none) ↔ (IsOrdered sts × All IsTimed sts)
unfolding check_trip
check_trip_iff key [] = (λ h. absurd cc, λ h. absurd h.0)
check_trip_iff key (st ∷ sts) =
    ground (arith, check_times_iff key 0 (st ∷ sts), check_order_iff key 1 st sts)

validate_from_iff :
    (ts : List IngestTrip) (seen : List TripKey)
    → (validate_from seen ts ≡ none) ↔ (IsFresh seen ts × All IsProper ts)
unfolding validate_from
validate_from_iff [] seen = (λ h. (tt, tt), λ h. refl)
validate_from_iff (t ∷ ts) seen =
    ground (
      arith,
      validate_from_iff ts (ingest_key t ∷ seen),
      check_trip_iff (ingest_key t) t.stop_times,
    )

-- ValidateBatch accepts a batch exactly when no two of its trips have the same id and date, and each
-- trip has stops, reaches no stop before the epoch, leaves none before reaching it, and leaves each
-- stop later than the one before.
pub validate_batch_iff :
    (trips : List IngestTrip)
    → (validate_batch trips ≡ none) ↔ (IsFresh [] trips × All IsProper trips)
unfolding validate_batch
validate_batch_iff trips = validate_from_iff trips []
