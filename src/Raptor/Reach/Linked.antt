-- ===== src/Raptor/Reach/Linked.antt =====
-- internal/raptor/engine.go: a ride that the journal records was caught in the round before it.
use multi_agent_travel.Model.{Footpath, walk}
use multi_agent_travel.Raptor.Walk.{
  walk_entry, snapshot_sources, footpaths_from, WalkSource, relax_sources, relax_footpaths,
  relax_edges, relax_edge, keep_pre_walk,
}
use multi_agent_travel.Raptor.Rounds.{start_round, round_zero, origin_work}
use multi_agent_travel.Prelude.GoMap.{lookup-insert, insert, lookup, GoMap}
use multi_agent_travel.Raptor.State.{
  improves, Work, set_label, ready_at, JournalEntry, Layer, SearchState,
}
use multi_agent_travel.Prelude.{
  ℕ, String, ◌≡◌, refl, inl, inr, some, List, [], ◌∷◌, Bool-cases, Option-cases, ◌==◌, eq_ℕ,
  eq_String, get_elem?,
}
use multi_agent_travel.Prelude.Int.{ℤ, ◌≤ℤ◌, eq_ℤ, add64}

-- Among the layers of a search, the passenger at `from` in round j is ready when the trip leaves:
-- where a vehicle brought the passenger there, the transfer time has passed.
pub record IsCaught (s : SearchState) (all : List Layer) (j : ℕ) (from : String) (dep : ℤ)
    : Type 0 where
  pub source : Layer
  pub ready : ℤ
  pub source_found : get_elem? all j ≡ some source
  pub ready_found : ready_at source s.xfer_sec from ≡ some ready
  pub catchable : ready ≤ℤ dep

pub data IsLinked (s : SearchState) (all : List Layer) (e : JournalEntry) : Type 0 where
  linked_ride : IsCaught s all e.from_round e.from e.departure → IsLinked s all e
  linked_walk : e.kind ≡ walk → IsLinked s all e

-- Every ride that a layer records was caught.
pub record AreLinked (s : SearchState) (all : List Layer) (layer : Layer) : Type 0 where
  pub in_journal :
      (at : String) (e : JournalEntry) → lookup at layer.journal ≡ some e → IsLinked s all e
  pub in_pre_walk :
      (at : String) (e : JournalEntry) → lookup at layer.pre_walk ≡ some e → IsLinked s all e

module _ (s : SearchState) (all : List Layer) where
  insert-IsLinked :
      (m : GoMap String JournalEntry) (station : String) (e : JournalEntry)
      → IsLinked s all e
      → ((at : String) (f : JournalEntry) → lookup at m ≡ some f → IsLinked s all f)
      → (at : String) (f : JournalEntry) → lookup at (insert station e m) ≡ some f
      → IsLinked s all f
  insert-IsLinked m station e v old at f h = elim (Bool-cases (station == at)) [
    | inl same ↦
        let here : some e ≡ some f = rw (lookup-insert station at e m, same) at h in
        let entry : e ≡ f = cc in rw (← entry) v
    | inr other ↦ old at f (rw (lookup-insert station at e m, other) at h)
  ]

  pub set_label-AreLinked :
      (w : Work) (station : String) (e : JournalEntry)
      → AreLinked s all w.layer
      → IsLinked s all e
      → AreLinked s all (set_label w station e).layer
  unfolding set_label
  set_label-AreLinked w station e v n = record {
    in_journal = insert-IsLinked w.layer.journal station e n v.in_journal;
    in_pre_walk = v.in_pre_walk;
  }

  relax_edge-AreLinked :
      (k : ℕ) (src : WalkSource) (fp : Footpath) (w : Work)
      → AreLinked s all w.layer
      → AreLinked s all (relax_edge s k src fp w).layer
  unfolding relax_edge
  relax_edge-AreLinked k src fp w v =
      let arr = add64 src.depart fp.walk_seconds in
      elim (Bool-cases (improves w.best s.dest arr fp.neighbour_stop)) [
        | inr worse ↦ rw worse v
        | inl better ↦ rw better (
            set_label-AreLinked w fp.neighbour_stop (walk_entry k src arr) v
              (linked_walk (unfold walk_entry in refl)))
      ]

  relax_edges-AreLinked :
      (k : ℕ) (src : WalkSource) (fps : List Footpath) (w : Work)
      → AreLinked s all w.layer
      → AreLinked s all (relax_edges s k src fps w).layer
  unfolding relax_edges
  relax_edges-AreLinked k src [] w v = v
  relax_edges-AreLinked k src (fp ∷ fps) w v =
      relax_edges-AreLinked k src fps (relax_edge s k src fp w) (relax_edge-AreLinked k src fp w v)

  relax_sources-AreLinked :
      (k : ℕ) (srcs : List WalkSource) (w : Work)
      → AreLinked s all w.layer
      → AreLinked s all (relax_sources s k srcs w).layer
  unfolding relax_sources
  relax_sources-AreLinked k [] w v = v
  relax_sources-AreLinked k (src ∷ rest) w v =
      relax_sources-AreLinked k rest (relax_edges s k src (footpaths_from s src.from) w)
        (relax_edges-AreLinked k src (footpaths_from s src.from) w v)

  keep_pre_walk-IsLinked :
      (journal : GoMap String JournalEntry) (srcs : List WalkSource)
      (pre : GoMap String JournalEntry)
      → ((at : String) (e : JournalEntry) → lookup at journal ≡ some e → IsLinked s all e)
      → ((at : String) (e : JournalEntry) → lookup at pre ≡ some e → IsLinked s all e)
      → (at : String) (e : JournalEntry) → lookup at (keep_pre_walk journal srcs pre) ≡ some e
      → IsLinked s all e
  unfolding keep_pre_walk
  keep_pre_walk-IsLinked journal [] pre v kept at e h = kept at e h
  keep_pre_walk-IsLinked journal (src ∷ rest) pre v kept at e h =
      elim (Option-cases (lookup src.from journal)) [
        | inl fresh ↦
            keep_pre_walk-IsLinked journal rest pre v kept at e (rw (keep_pre_walk, fresh) at h)
        | inr (f, ef) ↦
            keep_pre_walk-IsLinked journal rest (insert src.from f pre) v
              (insert-IsLinked pre src.from f (v src.from f ef) kept) at e
              (rw (keep_pre_walk, ef) at h)
      ]

  pub relax_footpaths-AreLinked :
      (k : ℕ) (sources : List String) (w : Work)
      → AreLinked s all w.layer
      → AreLinked s all (relax_footpaths s k sources w).layer
  unfolding relax_footpaths
  relax_footpaths-AreLinked k sources w v =
      let srcs = snapshot_sources s w.layer.tau sources in
      relax_sources-AreLinked k srcs _ (record {
        in_journal = v.in_journal;
        in_pre_walk =
            keep_pre_walk-IsLinked w.layer.journal srcs w.layer.pre_walk v.in_journal v.in_pre_walk;
      })

  pub start_round-AreLinked :
      (prev : Layer) (best : GoMap String ℤ)
      → AreLinked s all prev
      → AreLinked s all (start_round prev best).layer
  unfolding start_round lookup
  start_round-AreLinked prev best v = record {
    in_journal = v.in_journal;
    in_pre_walk = λ at e h. cc;
  }

  origin_work-AreLinked : AreLinked s all (origin_work s).layer
  unfolding origin_work lookup
  origin_work-AreLinked = record { in_journal = λ at e h. cc; in_pre_walk = λ at e h. cc }

  pub round_zero-AreLinked : AreLinked s all (round_zero s).layer
  unfolding round_zero
  round_zero-AreLinked =
      relax_footpaths-AreLinked 0 (s.params.origin ∷ []) (origin_work s) origin_work-AreLinked
