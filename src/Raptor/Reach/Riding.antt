-- ===== src/Raptor/Reach/Riding.antt =====
-- internal/raptor/engine.go: what holds of a ride in progress, and of the labels that scanRoute writes.
use multi_agent_travel.Raptor.Reach.Linked.{set_label-AreLinked, IsLinked, IsCaught, AreLinked}
use multi_agent_travel.Raptor.Reach.Labels.{set_label-IsSound}
use multi_agent_travel.Raptor.Boarding.{trip_usable}
use multi_agent_travel.Raptor.Scan.{Ride}
use multi_agent_travel.Prelude.GoMap.{member-add_member, lookup-insert, add_member, lookup, member}
use multi_agent_travel.Raptor.Reach.{
  IsTold, ready_time, by_transit, entry_leg, Reaches, LastLeg, IsSound,
}
use multi_agent_travel.Model.{transit, TripStopTimes, RouteEntry}
use multi_agent_travel.Raptor.State.{Layer, set_label, JournalEntry, Work, SearchState}
use multi_agent_travel.Prelude.{
  get_elem?-drop, sym, ℕ, suc, ◌+◌, ◌<◌, String, ◌≡◌, inl, inr, true, Option, none, some, List, ◌∷◌,
  arith, Bool-cases, ◌==◌, eq_ℕ, eq_String, get_elem?, drop,
}
use multi_agent_travel.Prelude.Int.{ℤ, ◌≤ℤ◌, eq_ℤ}

-- The stations from position `at` on.
abbrev pub IsTail : List String → List String → ℕ → Type 0
IsTail stops rest at = (m : ℕ) → get_elem? rest m ≡ get_elem? stops (at + m)

pub IsTail-next :
    (stops : List String) (station : String) (rest : List String) (at : ℕ)
    → IsTail stops (station ∷ rest) at
    → IsTail stops rest (at + 1)
IsTail-next stops station rest at h m =
    let e : at + suc m ≡ at + 1 + m = omega arith in rw (← e) (h (suc m))

pub IsTail-here :
    (stops : List String) (station : String) (rest : List String) (at : ℕ)
    → IsTail stops (station ∷ rest) at
    → get_elem? stops at ≡ some station
IsTail-here stops station rest at h = let e : at + 0 ≡ at = omega arith in rw e at (sym (h 0))

pub IsTail-drop : (stops : List String) (at : ℕ) → IsTail stops (drop at stops) at
IsTail-drop stops at m = get_elem?-drop at m stops

-- The passenger rides a usable trip of the route, which was boarded before position `at` from a
-- label of the round before.
pub record OnBoard (s : SearchState) (all : List Layer) (k : ℕ) (route : RouteEntry)
    (trips : List TripStopTimes) (r : Ride) (at : ℕ) : Type 0 where
  pub time : ℤ
  pub last : LastLeg
  pub reached : Reaches s k r.board_station time last
  pub trip_idx : ℕ
  pub trip_found : get_elem? trips trip_idx ≡ some r.trip
  pub usable : trip_usable s r.trip ≡ true
  pub board_pos : ℕ
  pub before : board_pos < at
  pub boards : get_elem? route.stop_ids board_pos ≡ some r.board_station
  pub departs : get_elem? r.trip.departures board_pos ≡ some r.board_dep
  pub in_time : ready_time s time last ≤ℤ r.board_dep
  pub caught : IsCaught s all k r.board_station r.board_dep

abbrev pub Riding :
    SearchState → List Layer → ℕ → RouteEntry → List TripStopTimes → Option Ride → ℕ → Type 0
Riding s all k route trips none at = Unit
Riding s all k route trips (some r) at = OnBoard s all k route trips r at

-- What holds of the work of a round while routes are scanned: the layer is sound, the rides that it
-- records were caught, and the stations improved so far were reached by transit.
pub record IsScanning (s : SearchState) (all : List Layer) (k : ℕ) (w : Work) : Type 0 where
  pub sound : IsSound s k w.layer
  pub linked : AreLinked s all w.layer
  pub improved :
      (at : String)
      → member at w.improved ≡ true
      → entry_leg (lookup at w.layer.journal) ≡ by_transit

pub set_ride-IsScanning :
    (s : SearchState) (all : List Layer) (k : ℕ) (w : Work) (station : String) (e : JournalEntry)
    → IsScanning s all k w
    → e.kind ≡ transit
    → Reaches s k station e.arrival by_transit
    → IsTold s k station e
    → IsLinked s all e
    → IsScanning s all k (set_label w station e)
set_ride-IsScanning s all k w station e v kind r n c = record {
  sound = set_label-IsSound s k w station e v.sound (rw kind r) n;
  linked = set_label-AreLinked s all w station e v.linked c;
  improved = λ at h. elim (Bool-cases (station == at)) [
    | inl same ↦ unfold set_label in rw (lookup-insert station at e w.layer.journal, same, kind)
    | inr other ↦
        unfold set_label in
        rw (lookup-insert station at e w.layer.journal, other)
          (v.improved at (rw (member-add_member station at w.improved, other) at (old at h)))
  ];
}
  where
    old :
        (at : String)
        → member at (set_label w station e).improved ≡ true
        → member at (add_member station w.improved) ≡ true
    old at h = unfold set_label in h
