-- ===== src/Raptor/Reach.antt =====
-- What a label of the search stands for: journeys over the timetable, independent of the search.
pub mod Labels
pub mod Linked
pub mod Riding
pub mod Scanning
pub mod Walking
pub mod Rounds
use multi_agent_travel.Schedule.Fifo.{compute_fifo}
use multi_agent_travel.Raptor.Boarding.{trip_usable}
use multi_agent_travel.Prelude.GoMap.{lookup}
use multi_agent_travel.Raptor.Walk.{footpaths_from}
use multi_agent_travel.Schedule.Buffer.{is_fifo, RouteBuffer}
use multi_agent_travel.Raptor.State.{Layer, SearchState, JournalEntry}
use multi_agent_travel.Model.{walk, transit, TripStopTimes, RouteEntry, LegKind}
use multi_agent_travel.Prelude.{
  ℕ, zero, suc, ◌+◌, ◌-◌, ◌*◌, ◌/◌, ◌≤◌, ◌<◌, String, ◌≡◌, refl, sym, ap, ◌∙◌, ◌≢◌, ◌↔◌, ◌⊎◌, inl,
  inr, Bool, true, false, not, ◌&&◌, ◌||◌, Option, none, some, List, [], ◌∷◌, ◌++◌, map, arith, ltb,
  leb, nat_eq, if◌then◌else◌, Bool-cases, Option-cases, ◌==◌, Eq, eq_ℕ, eq_String, eq→≡, ==_refl,
  length, get_elem?, take, drop, is_empty, All, All-map, All-get, All-append,
}
use multi_agent_travel.Prelude.Int.{
  ℤ, pos, negsuc, pos_part, neg_part, ltb_ℤ, leb_ℤ, ◌≤ℤ◌, ◌<ℤ◌, eq_ℤ, add64, max_int64,
}

-- How the passenger came to a station.
pub data LastLeg : Type 0 where
  at_start by_transit by_walk : LastLeg

abbrev pub leg_kind : LegKind → LastLeg
leg_kind transit = by_transit
leg_kind walk = by_walk

-- When the passenger can board: the minimum transfer time is due between two vehicles only.
abbrev pub ready_time : SearchState → ℤ → LastLeg → ℤ
ready_time s t at_start = t
ready_time s t by_transit = add64 t s.xfer_sec
ready_time s t by_walk = t

-- A ride from `from`, boarded not before `ready`, that arrives at `to` at time `arr`: a usable trip
-- of a loaded route that departs from an earlier position and arrives at a later one.
pub record IsRide (s : SearchState) (from : String) (ready : ℤ) (to : String) (arr : ℤ)
    : Type 0 where
  pub route_idx : ℕ
  pub route : RouteEntry
  pub trips : List TripStopTimes
  pub trip_idx : ℕ
  pub trip : TripStopTimes
  pub board_pos : ℕ
  pub alight_pos : ℕ
  pub dep : ℤ
  pub route_found : get_elem? s.routes.routes route_idx ≡ some route
  pub trips_found : get_elem? s.routes.stop_times route_idx ≡ some trips
  pub trip_found : get_elem? trips trip_idx ≡ some trip
  pub usable : trip_usable s trip ≡ true
  pub forwards : board_pos < alight_pos
  pub boards : get_elem? route.stop_ids board_pos ≡ some from
  pub alights : get_elem? route.stop_ids alight_pos ≡ some to
  pub departs : get_elem? trip.departures board_pos ≡ some dep
  pub in_time : ready ≤ℤ dep
  pub arrives : get_elem? trip.arrivals alight_pos ≡ some arr

pub record IsFootpath (s : SearchState) (from : String) (to : String) (secs : ℤ) : Type 0 where
  pub edge_idx : ℕ
  pub edge_found :
      get_elem? (footpaths_from s from) edge_idx
      ≡ some (record { neighbour_stop = to; walk_seconds = secs })

-- The passenger can be at a station at a time, having used at most k vehicles and never having
-- walked twice in a row.
pub data Reaches (s : SearchState) : ℕ → String → ℤ → LastLeg → Type 0 where
  start :
      {k : ℕ} {at : String} {t : ℤ}
      → at ≡ s.params.origin
      → t ≡ s.params.dep_time
      → Reaches s k at t at_start
  wait :
      {j k : ℕ} {at : String} {t : ℤ} {l : LastLeg}
      → k ≡ j + 1
      → Reaches s j at t l
      → Reaches s k at t l
  ride :
      {j k : ℕ} {from to : String} {t arr : ℤ} {l : LastLeg}
      → k ≡ j + 1
      → Reaches s j from t l
      → IsRide s from (ready_time s t l) to arr
      → Reaches s k to arr by_transit
  on_foot :
      {k : ℕ} {from to : String} {t secs arr : ℤ} {l : LastLeg}
      → Reaches s k from t l
      → l ≢ by_walk
      → IsFootpath s from to secs
      → arr ≡ add64 t secs
      → Reaches s k to arr by_walk

-- The last leg that the journal of a layer records for a station.
abbrev pub entry_leg : Option JournalEntry → LastLeg
entry_leg none = at_start
entry_leg (some e) = leg_kind e.kind

-- An entry of round k at station `at` tells a ride: the passenger reaches its boarding station in
-- the earlier round that it names, and from there the trip that it names, of the route that it
-- names, leaves at its departure, once the passenger is ready, and arrives at its arrival.
pub record IsRidden (s : SearchState) (k : ℕ) (at : String) (e : JournalEntry) : Type 0 where
  pub time : ℤ
  pub last : LastLeg
  pub reached : Reaches s e.from_round e.from time last
  pub earlier : e.from_round < k
  pub taken : IsRide s e.from (ready_time s time last) at e.arrival
  pub departs : taken.dep ≡ e.departure
  pub trip_named : taken.trip.key ≡ e.trip_key
  pub route_named : taken.route.route_id ≡ e.route_id

-- An entry tells a walk: the passenger reaches the station that it names at its departure, not on
-- foot, and walks a footpath of the timetable from there.
pub record IsWalked (s : SearchState) (k : ℕ) (at : String) (e : JournalEntry) : Type 0 where
  pub last : LastLeg
  pub reached : Reaches s e.from_round e.from e.departure last
  pub not_walked : last ≢ by_walk
  pub no_later : e.from_round ≤ k
  pub secs : ℤ
  pub footpath : IsFootpath s e.from at secs
  pub arrives : e.arrival ≡ add64 e.departure secs

pub data IsTold (s : SearchState) (k : ℕ) (at : String) (e : JournalEntry) : Type 0 where
  ridden : e.kind ≡ transit → IsRidden s k at e → IsTold s k at e
  walked : e.kind ≡ walk → IsWalked s k at e → IsTold s k at e

-- What an entry tells in a round, it tells in the next one.
pub IsTold-next :
    (s : SearchState) (j k : ℕ) (at : String) (e : JournalEntry)
    → k ≡ j + 1
    → IsTold s j at e
    → IsTold s k at e
IsTold-next s j k at e succ (ridden kind r) = ridden kind (record {
  time = r.time;
  last = r.last;
  reached = r.reached;
  earlier = omega (arith, r.earlier);
  taken = r.taken;
  departs = r.departs;
  trip_named = r.trip_named;
  route_named = r.route_named;
})
IsTold-next s j k at e succ (walked kind r) = walked kind (record {
  last = r.last;
  reached = r.reached;
  not_walked = r.not_walked;
  no_later = omega (arith, r.no_later);
  secs = r.secs;
  footpath = r.footpath;
  arrives = r.arrives;
})

-- Every label of a layer is the time of a journey whose last leg is of the kind that the journal
-- has, and the entries of the journal, and those kept aside when walks are written, tell real legs.
pub record IsSound (s : SearchState) (k : ℕ) (layer : Layer) : Type 0 where
  pub reached :
      (at : String) (t : ℤ)
      → lookup at layer.tau ≡ some t
      → Reaches s k at t (entry_leg (lookup at layer.journal))
  pub recorded :
      (at : String) (e : JournalEntry)
      → lookup at layer.journal ≡ some e
      → lookup at layer.tau ≡ some e.arrival
  pub told : (at : String) (e : JournalEntry) → lookup at layer.journal ≡ some e → IsTold s k at e
  pub kept : (at : String) (e : JournalEntry) → lookup at layer.pre_walk ≡ some e → IsTold s k at e

-- The loader measured the routes that it marks FIFO.
abbrev pub IsMeasured : RouteBuffer → Type 0
IsMeasured b =
    (i : ℕ) (trips : List TripStopTimes)
    → is_fifo b (pos i) ≡ true
    → get_elem? b.stop_times i ≡ some trips
    → compute_fifo trips ≡ true
