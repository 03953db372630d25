-- ===== src/Raptor/Itinerary/Laws.antt =====
-- internal/raptor/validator.go: what ValidatePath accepts is a journey that can be travelled.
use multi_agent_travel.Raptor.Itinerary.{
  validate_path, validate_legs, no_trip_id, arrives_before_departure, or_else, last_leg, check_legs,
  check_leg, check_join, PathError,
}
use multi_agent_travel.Model.{JourneyPath, SearchParams, walk, is_transit, LegKind, transit, Leg}
use multi_agent_travel.Prelude.{
  ℕ, suc, String, ◌≡◌, refl, ap, ◌≢◌, ◌↔◌, inl, inr, false, ◌&&◌, Option, none, some, List, [], ◌∷◌,
  arith, if◌then◌else◌, Bool-cases, ◌==◌, eq_ℕ, eq_String, eq→≡,
}
use multi_agent_travel.Prelude.Int.{ℤ, ltb_ℤ, ◌≤ℤ◌, eq_ℤ}

-- A passenger who is at a station at a time can take the legs one after the other, and is then at
-- another station at a later time.
abbrev pub Travels : String → ℤ → List Leg → String → Type 0
Travels at t [] to = at ≡ to
Travels at t (l ∷ ls) to =
    (l.board_station ≡ at)
    × (t ≤ℤ l.departure_unix)
    × (l.departure_unix ≤ℤ l.arrival_unix)
    × (l.kind ≡ transit → l.trip_id ≢ "")
    × Travels l.alight_station l.arrival_unix ls to

or_else-none : (a b : Option PathError) → or_else a b ≡ none → (a ≡ none) × (b ≡ none)
or_else-none none b h = (refl, h)
or_else-none (some e) b h = cc

check_leg-none :
    (i : ℕ) (l : Leg)
    → check_leg i l ≡ none
    → (l.departure_unix ≤ℤ l.arrival_unix) × (l.kind ≡ transit → l.trip_id ≢ "")
unfolding check_leg
check_leg-none i l h =
    (ground arith, λ k e. ground (arith, (eq_String.decides l.trip_id "").1 e, ap is_transit k))

check_join-none :
    (i : ℕ) (prev l : Leg)
    → check_join i prev l ≡ none
    → (l.board_station ≡ prev.alight_station) × (prev.arrival_unix ≤ℤ l.departure_unix)
unfolding check_join
check_join-none i prev l h =
    (ground (arith, eq_String.decides prev.alight_station l.board_station), ground arith)

none-check_leg :
    (i : ℕ) (l : Leg)
    → l.departure_unix ≤ℤ l.arrival_unix
    → (l.kind ≡ transit → l.trip_id ≢ "")
    → check_leg i l ≡ none
unfolding check_leg
none-check_leg i l le named = by_kind l.kind named
  where
    by_kind :
        (k : LegKind)
        → (k ≡ transit → l.trip_id ≢ "")
        → (if ltb_ℤ l.arrival_unix l.departure_unix
            then some (arrives_before_departure i)
            else if is_transit k && l.trip_id == ""
            then some (no_trip_id i)
            else none)
          ≡ none
    by_kind transit named = ground (arith, named refl, eq_String.decides l.trip_id "")
    by_kind walk named = ground arith

none-check_join :
    (i : ℕ) (prev l : Leg)
    → l.board_station ≡ prev.alight_station
    → prev.arrival_unix ≤ℤ l.departure_unix
    → check_join i prev l ≡ none
unfolding check_join
none-check_join i prev l e le =
    ground (arith, eq_String.decides prev.alight_station l.board_station)

check_legs-Travels :
    (i : ℕ) (prev : Leg) (ls : List Leg)
    → check_legs i prev ls ≡ none
    → Travels prev.alight_station prev.arrival_unix ls (last_leg prev ls).alight_station
unfolding check_legs last_leg
check_legs-Travels i prev [] h = refl
check_legs-Travels i prev (l ∷ ls) h =
    let (one, others) = or_else-none (check_leg i l) _ h in
    let (join, rest) = or_else-none (check_join i prev l) _ others in
    let (ordered, named) = check_leg-none i l one in
    let (meets, after) = check_join-none i prev l join in
    (meets, after, ordered, named, check_legs-Travels (suc i) l ls rest)

Travels-check_legs :
    (i : ℕ) (prev : Leg) (ls : List Leg) (to : String)
    → Travels prev.alight_station prev.arrival_unix ls to
    → (check_legs i prev ls ≡ none) × ((last_leg prev ls).alight_station ≡ to)
unfolding check_legs last_leg
Travels-check_legs i prev [] to h = (refl, h)
Travels-check_legs i prev (l ∷ ls) to h =
    let (rest, ends) = Travels-check_legs (suc i) l ls to h.4 in
    (rw (none-check_leg i l h.2 h.3, none-check_join i prev l h.0 h.1) rest, ends)

-- A journey of at least one leg that a passenger can take who is at the origin at the time asked
-- for, and that leads to the destination.
pub record IsItinerary (params : SearchParams) (legs : List Leg) : Type 0 where
  pub some_leg : legs ≢ []
  pub travels : Travels params.origin params.dep_time legs params.destination

validate-IsItinerary :
    (legs : List Leg) (params : SearchParams)
    → validate_legs legs params ≡ none
    → IsItinerary params legs
unfolding validate_legs
validate-IsItinerary [] params h = cc
validate-IsItinerary (l ∷ ls) params h = elim (Bool-cases (l.board_station == params.origin)) [
  | inr elsewhere ↦ cc (rw elsewhere at h)
  | inl starts ↦ elim (Bool-cases ((last_leg l ls).alight_station == params.destination)) [
    | inr elsewhere ↦ cc (rw (starts, elsewhere) at h)
    | inl ends ↦ elim (Bool-cases (ltb_ℤ l.departure_unix params.dep_time)) [
      | inl early ↦ cc (rw (starts, ends, early) at h)
      | inr in_time ↦
          let (one, rest) = or_else-none (check_leg 0 l) _ (rw (starts, ends, in_time) at h) in
          let (ordered, named) = check_leg-none 0 l one in
          let travels = check_legs-Travels 1 l ls rest in
          record {
            some_leg = λ e. cc;
            travels = (
              eq→≡ l.board_station params.origin starts,
              ground arith,
              ordered,
              named,
              rw (eq→≡ (last_leg l ls).alight_station params.destination ends) at travels,
            );
          }
    ]
  ]
]

IsItinerary-validate :
    (legs : List Leg) (params : SearchParams)
    → IsItinerary params legs
    → validate_legs legs params ≡ none
unfolding validate_legs
IsItinerary-validate [] params h = absurd (h.some_leg refl)
IsItinerary-validate (l ∷ ls) params h =
    let t = h.travels in
    let (rest, ends) = Travels-check_legs 1 l ls params.destination t.4 in
    let starts = (eq_String.decides l.board_station params.origin).1 t.0 in
    let ends_there = (eq_String.decides (last_leg l ls).alight_station params.destination).1 ends in
    let in_time : ltb_ℤ l.departure_unix params.dep_time ≡ false = ground arith in
    rw (starts, ends_there, in_time, none-check_leg 0 l t.2 t.3) rest

-- ValidatePath accepts a journey exactly when it has a leg and a passenger who is at the origin at
-- the requested time can take its legs one after the other: each leg starts where the passenger
-- is, not before the passenger is there, ends no earlier than it starts, and names its trip if it
-- is a ride; and the last leg ends at the destination.
pub validate_path_iff :
    (p : JourneyPath) (params : SearchParams)
    → (validate_path p params ≡ none) ↔ IsItinerary params p.legs
unfolding validate_path
validate_path_iff p params =
    (validate-IsItinerary p.legs params, IsItinerary-validate p.legs params)
