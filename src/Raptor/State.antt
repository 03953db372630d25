-- ===== src/Raptor/State.antt =====
-- internal/raptor/engine.go, the state of one search. The maps tau[k], journal[k] and preWalk[k] of
-- round k are together the k-th `Layer`; a round writes its own layer, `best` and the set of
-- stations that it improved, which are the `Work`, and reads the finished layer of the round before.
use multi_agent_travel.Prelude.{
  ℕ, String, Bool, true, false, List, Option, none, some, if◌then◌else◌, eq_String,
}
use multi_agent_travel.Prelude.Int.{ℤ, ltb_ℤ, leb_ℤ, add64}
use multi_agent_travel.Prelude.GoMap.{GoMap, lookup, insert, add_member}
use multi_agent_travel.Model.{SearchParams, TripKey, SeatSignal, LegKind, is_transit}
use multi_agent_travel.Schedule.Buffer.{RouteBuffer}

-- `from_round` is a round of this search, k or k - 1 with 1 ≤ k, so a natural number.
pub record JournalEntry : Type 0 where
  pub kind : LegKind
  pub from_round : ℕ
  pub from : String
  pub trip_key : TripKey
  pub route_id : String
  pub departure : ℤ
  pub arrival : ℤ

pub record Layer : Type 0 where
  pub tau : GoMap String ℤ
  pub journal : GoMap String JournalEntry
  pub pre_walk : GoMap String JournalEntry

abbrev pub SignalBuffer : Type 0
SignalBuffer = GoMap TripKey SeatSignal

-- The fields of searchState that a search never changes.
pub record SearchState : Type 0 where
  pub params : SearchParams
  pub rounds : ℕ
  pub xfer_sec : ℤ
  pub dest : String
  pub routes : RouteBuffer
  pub signals : SignalBuffer
  pub allowed : List String

pub record Work : Type 0 where
  pub layer : Layer
  pub best : GoMap String ℤ
  pub improved : List String

-- improves: local dominance and target pruning.
unfoldable pub improves : GoMap String ℤ → String → ℤ → String → Bool
improves best dest arr station =
    let pruned : Bool = elim (lookup dest best) [ none ↦ false | some bd ↦ leb_ℤ bd arr ] in
    if pruned then false else elim (lookup station best) [ none ↦ true | some b ↦ ltb_ℤ arr b ]

-- The four writes of a new label, which every kind of leg makes alike.
unfoldable pub set_label : Work → String → JournalEntry → Work
set_label w station e = record {
  layer = record w.layer {
    tau = insert station e.arrival w.layer.tau;
    journal = insert station e w.layer.journal;
  };
  best = insert station e.arrival w.best;
  improved = add_member station w.improved;
}

-- When a passenger at a station in a finished round can board: changing vehicles takes time,
-- arriving on foot or starting there does not.
unfoldable pub ready_at : Layer → ℤ → String → Option ℤ
ready_at prev xfer_sec station = elim (lookup station prev.tau) [
  | none ↦ none
  | some t ↦ elim (lookup station prev.journal) [
    | none ↦ some t
    | some e ↦ some (if is_transit e.kind then add64 t xfer_sec else t)
  ]
]
