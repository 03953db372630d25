-- ===== src/Raptor/Backtrack/Timetabled.antt =====
-- internal/raptor/engine.go: the legs that buildPath rebuilds are rides and walks of the timetable.
use multi_agent_travel.Raptor.Backtrack.Steps.{step_entry-IsEntry}
use multi_agent_travel.Raptor.Backtrack.Laws.{check_path-some, build_path-some}
use multi_agent_travel.Raptor.Reach.{walked, IsFootpath, ridden, IsTold, IsSound, IsRide}
use multi_agent_travel.Model.{walk, transit, JourneyPath, Leg}
use multi_agent_travel.Raptor.State.{Layer, JournalEntry, SearchState}
use multi_agent_travel.Raptor.Backtrack.{
  eq_VisitKey, backtrack_legs, make_path, max_steps, VisitKey, build_path, NextLeg, step_entry,
  backtrack, leg_of,
}
use multi_agent_travel.Prelude.{
  ℕ, zero, suc, ◌+◌, String, ◌≡◌, ap, inl, inr, none, some, List, [], ◌∷◌, arith, ltb, Bool-cases,
  Option-cases, ◌==◌, eq_ℕ, eq_String, length, get_elem?, All,
}
use multi_agent_travel.Prelude.Int.{ℤ, pos, eq_ℤ, add64}

-- A leg of the loaded timetable: a usable trip of a loaded route, with the leg's ids, that leaves the
-- boarding station and arrives at the later alighting station at the leg's times; or a footpath
-- between the two, of the leg's length.
pub data IsTimetabled (s : SearchState) (l : Leg) : Type 0 where
  by_trip :
      l.kind ≡ transit
      → (taken : IsRide s l.board_station l.departure_unix l.alight_station l.arrival_unix)
      → taken.dep ≡ l.departure_unix
      → taken.trip.key ≡ record { trip_id = l.trip_id; date = l.date }
      → taken.route.route_id ≡ l.route_id
      → IsTimetabled s l
  by_footpath :
      l.kind ≡ walk
      → (secs : ℤ) → IsFootpath s l.board_station l.alight_station secs
      → l.arrival_unix ≡ add64 l.departure_unix secs
      → IsTimetabled s l

-- The same ride, for a passenger who is there when the trip leaves.
abbrev just_in_time :
    {s : SearchState} {from to : String} {ready arr : ℤ} {e : ℤ}
    → (taken : IsRide s from ready to arr) → taken.dep ≡ e
    → IsRide s from e to arr
just_in_time {e} taken same = record {
  route_idx = taken.route_idx;
  route = taken.route;
  trips = taken.trips;
  trip_idx = taken.trip_idx;
  trip = taken.trip;
  board_pos = taken.board_pos;
  alight_pos = taken.alight_pos;
  dep = taken.dep;
  route_found = taken.route_found;
  trips_found = taken.trips_found;
  trip_found = taken.trip_found;
  usable = taken.usable;
  forwards = taken.forwards;
  boards = taken.boards;
  alights = taken.alights;
  departs = taken.departs;
  in_time = rw same (omega arith);
  arrives = taken.arrives;
}

leg_of-IsTimetabled :
    (s : SearchState) (k : ℕ) (cur : String) (e : JournalEntry)
    → IsTold s k cur e
    → IsTimetabled s (leg_of cur e)
unfolding leg_of
leg_of-IsTimetabled s k cur e (ridden kind r) =
    by_trip kind (just_in_time r.taken r.departs) r.departs (rw kind r.trip_named) r.route_named
leg_of-IsTimetabled s k cur e (walked kind r) = by_footpath kind r.secs r.footpath r.arrives

-- The layers of a sound search.
abbrev pub AreSound : SearchState → List Layer → Type 0
AreSound s layers = (i : ℕ) (layer : Layer) → get_elem? layers i ≡ some layer → IsSound s i layer

module _ (s : SearchState) (layers : List Layer) (sound : AreSound s layers) where
  step_entry-IsTold :
      (cur : String) (r : ℕ) (next : NextLeg) (visited : List VisitKey) (e : JournalEntry)
      → step_entry layers cur r next visited ≡ some e
      → IsTold s r cur e
  step_entry-IsTold cur r next visited e h =
      let (layer, el, entry) = step_entry-IsEntry layers cur r next visited e h in
      elim entry [
        | inl here ↦ (sound r layer el).told cur e here
        | inr (kept, before) ↦ (sound r layer el).kept cur e kept
      ]

  backtrack-IsTimetabled :
      (fuel : ℕ) (cur : String) (r : ℕ) (next : NextLeg) (visited : List VisitKey)
      (legs out : List Leg)
      → All (IsTimetabled s) legs
      → backtrack fuel s layers cur r next visited legs ≡ some out
      → All (IsTimetabled s) out
  unfolding backtrack
  backtrack-IsTimetabled zero cur r next visited legs out v h = cc
  backtrack-IsTimetabled (suc fuel) cur r next visited legs out v h =
      elim (Bool-cases (cur == s.params.origin)) [
        | inl home ↦
            let done : some legs ≡ some out = rw (backtrack, home) at h in
            let same : legs ≡ out = cc in rw (← same) v
        | inr away ↦ elim (Bool-cases (ltb (max_steps s) (length legs))) [
          | inl long ↦ cc (rw (backtrack, away, long) at h)
          | inr short ↦ elim (Option-cases (step_entry layers cur r next visited)) [
            | inl broken ↦ cc (rw (backtrack, away, short, broken) at h)
            | inr (e, ee) ↦
                backtrack-IsTimetabled fuel e.from e.from_round _ _ (leg_of cur e ∷ legs) out
                  (leg_of-IsTimetabled s r cur e (step_entry-IsTold cur r next visited e ee), v)
                  (rw (backtrack, away, short, ee) at h)
          ]
        ]
      ]

  -- Every leg of a journey that buildPath finds in a sound search is one of the timetable.
  pub build_path-IsTimetabled :
      (round : ℕ) (p : JourneyPath)
      → build_path s layers round ≡ some p
      → All (IsTimetabled s) p.legs
  build_path-IsTimetabled round p h =
      let (l, ls, found, k) = build_path-some s layers round p h in
      let (same, bound, it) = check_path-some s (make_path s round (l ∷ ls)) p k in
      let legs : l ∷ ls ≡ p.legs = unfold make_path in ap (λ (q : JourneyPath). q.legs) same in
      rw (← legs) (
        backtrack-IsTimetabled (max_steps s + 2) s.dest round
          (record { prev_kind = none; prev_departure = pos 0 }) [] [] (l ∷ ls) tt
          (unfold backtrack_legs in found))
