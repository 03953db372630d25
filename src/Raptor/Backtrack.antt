-- ===== src/Raptor/Backtrack.antt =====
-- internal/raptor/engine.go: buildPath.
pub mod Laws
pub mod Steps
pub mod Timetabled
pub mod Transfers
use multi_agent_travel.Prelude.{
  ℕ, zero, suc, ◌+◌, ◌-◌, ◌*◌, String, Bool, true, false, List, [], ◌∷◌, Option, none, some,
  if◌then◌else◌, not, ◌&&◌, ◌||◌, ◌==◌, Eq, eq_ℕ, eq_String, ltb, length, get_elem?, ◌≡◌, ◌↔◌,
  arith,
}
use multi_agent_travel.Prelude.Int.{ℤ, pos, leb_ℤ, add64, sub64}
use multi_agent_travel.Prelude.GoMap.{lookup, member}
use multi_agent_travel.Model.{LegKind, walk, is_transit, Leg, JourneyPath, transit_legs_of}
use multi_agent_travel.Raptor.State.{SearchState, Layer, JournalEntry}
use multi_agent_travel.Raptor.Itinerary.{validate_path}

-- A (round, station) pair, the key of `visited`.
pub record VisitKey : Type 0 where
  pub round : ℕ
  pub station : String

abbrev pub visit_key_beq : VisitKey → VisitKey → Bool
visit_key_beq a b = if a.round == b.round then a.station == b.station else false

pub visit_key_beq_iff : (a b : VisitKey) → (visit_key_beq a b ≡ true) ↔ (a ≡ b)
visit_key_beq_iff a b = ground (arith, eq_String.decides a.station b.station)

instance abbrev pub eq_VisitKey : Eq VisitKey
eq_VisitKey = record { same = visit_key_beq; decides = visit_key_beq_iff }

unfoldable pub max_steps : SearchState → ℕ
max_steps s = 2 * (s.rounds + 1) + 2

-- The kind and the departure of the leg that was found last, the one after this one.
pub record NextLeg : Type 0 where
  pub prev_kind : Option LegKind
  pub prev_departure : ℤ

abbrev pub is_walk_before : Option LegKind → LegKind → Bool
is_walk_before (some walk) walk = true
is_walk_before _ _ = false

-- Two walks in a row: the entry that the walk left from takes the place of a later one.
unfoldable pub unwalked : Layer → String → NextLeg → JournalEntry → JournalEntry
unwalked layer cur next e =
    if is_walk_before next.prev_kind e.kind
    then elim (lookup cur layer.pre_walk) [
      | none ↦ e
      | some pre ↦ if not (pre.from == "") && leb_ℤ pre.arrival next.prev_departure then pre else e
    ]
    else e

-- The body of the loop up to the leg: the entry to step back over, unless the journal is broken.
-- A round past the last one has no layer, and a station with no entry ends the walk too.
unfoldable pub step_entry : List Layer → String → ℕ → NextLeg → List VisitKey → Option JournalEntry
unfolding unwalked
step_entry layers cur r next visited = elim (get_elem? layers r) [
  | none ↦ none
  | some layer ↦ elim (lookup cur layer.journal) [
    | none ↦ none
    | some e ↦
        if e.from == "" || e.from == cur
        then none
        else if member (record { round = r; station = cur }) visited
        then none
        else some (unwalked layer cur next e)
  ]
]

unfoldable pub leg_of : String → JournalEntry → Leg
leg_of cur e = record {
  kind = e.kind;
  trip_id = if is_transit e.kind then e.trip_key.trip_id else "";
  date = if is_transit e.kind then e.trip_key.date else "";
  route_id = e.route_id;
  board_station = e.from;
  alight_station = cur;
  departure_unix = e.departure;
  arrival_unix = e.arrival;
}

-- The loop. The source appends the legs and reverses them at the end; a leg that is put in front
-- gives the same list. With `max_steps + 2` rounds of fuel the step limit ends the loop first.
unfoldable pub backtrack :
    ℕ
    → SearchState
    → List Layer
    → String
    → ℕ
    → NextLeg
    → List VisitKey
    → List Leg
    → Option (List Leg)
unfolding step_entry leg_of max_steps
backtrack zero s layers cur r next visited legs = none
backtrack (suc fuel) s layers cur r next visited legs =
    if cur == s.params.origin
    then some legs
    else if ltb (max_steps s) (length legs)
    then none
    else elim (step_entry layers cur r next visited) [
      | none ↦ none
      | some e ↦
          backtrack fuel s layers e.from e.from_round
            (record { prev_kind = some e.kind; prev_departure = e.departure })
            (record { round = r; station = cur } ∷ visited) (leg_of cur e ∷ legs)
    ]

unfoldable pub backtrack_legs : SearchState → List Layer → ℕ → Option (List Leg)
unfolding backtrack
backtrack_legs s layers round =
    backtrack (max_steps s + 2) s layers s.dest round
      (record { prev_kind = none; prev_departure = pos 0 }) [] []

-- The time spent on the legs that are not rides.
unfoldable pub walk_total : List Leg → ℤ → ℤ
walk_total [] acc = acc
walk_total (l ∷ ls) acc =
    walk_total ls
      (if is_transit l.kind then acc else add64 acc (sub64 l.arrival_unix l.departure_unix))

abbrev pub first_departure : List Leg → ℤ
first_departure [] = pos 0
first_departure (l ∷ ls) = l.departure_unix

unfoldable pub last_arrival : List Leg → ℤ
last_arrival [] = pos 0
last_arrival (l ∷ []) = l.arrival_unix
last_arrival (l ∷ m ∷ ls) = last_arrival (m ∷ ls)

unfoldable pub make_path : SearchState → ℕ → List Leg → JourneyPath
unfolding walk_total last_arrival
make_path s round legs = record {
  legs = legs;
  departure_unix = first_departure legs;
  arrival_unix = last_arrival legs;
  total_time_seconds = sub64 (last_arrival legs) (first_departure legs);
  wait_seconds = sub64 (first_departure legs) s.params.dep_time;
  transfers = transit_legs_of legs - 1;
  walk_seconds = walk_total legs (pos 0);
  rounds = round;
}

-- The live assertions at the end: the round bound and ValidatePath.
unfoldable pub check_path : SearchState → JourneyPath → Option JourneyPath
check_path s p =
    if ltb s.rounds (transit_legs_of p.legs)
    then none
    else elim (validate_path p s.params) [ none ↦ some p | some e ↦ none ]

abbrev pub checked_legs : SearchState → ℕ → Option (List Leg) → Option JourneyPath
checked_legs s round none = none
checked_legs s round (some []) = none
checked_legs s round (some (l ∷ ls)) = check_path s (make_path s round (l ∷ ls))

unfoldable pub build_path : SearchState → List Layer → ℕ → Option JourneyPath
unfolding backtrack_legs make_path check_path
build_path s layers round = checked_legs s round (backtrack_legs s layers round)
