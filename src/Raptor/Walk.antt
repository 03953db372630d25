-- ===== src/Raptor/Walk.antt =====
-- internal/raptor/engine.go: relaxFootpaths.
use multi_agent_travel.Prelude.{
  ℕ, String, List, [], ◌∷◌, Option, none, some, if◌then◌else◌, eq_String,
}
use multi_agent_travel.Prelude.Int.{ℤ, add64}
use multi_agent_travel.Prelude.GoMap.{GoMap, lookup, lookup_or, insert}
use multi_agent_travel.Model.{Footpath, walk, walk_route_id}
use multi_agent_travel.Raptor.State.{SearchState, Work, JournalEntry, improves, set_label}

pub record WalkSource : Type 0 where
  pub from : String
  pub depart : ℤ

unfoldable pub footpaths_from : SearchState → String → List Footpath
footpaths_from s from = lookup_or [] from s.routes.footpaths

-- The first loop: when each source is left, as the labels stand before any walk is written. A
-- source with no footpath, or with no label, is dropped.
unfoldable pub snapshot_source : SearchState → GoMap String ℤ → String → Option WalkSource
unfolding footpaths_from
snapshot_source s tau from = elim (footpaths_from s from) [
  | [] ↦ none
  | fp ∷ fps ↦ elim (lookup from tau) [
    | none ↦ none
    | some depart ↦ some (record { from = from; depart = depart })
  ]
]

unfoldable pub snapshot_sources : SearchState → GoMap String ℤ → List String → List WalkSource
snapshot_sources s tau [] = []
snapshot_sources s tau (from ∷ rest) =
    let srcs = snapshot_sources s tau rest in
    elim (snapshot_source s tau from) [ none ↦ srcs | some src ↦ src ∷ srcs ]

-- The entries that the sources were reached by, kept in preWalk[k].
unfoldable pub keep_pre_walk :
    GoMap String JournalEntry
    → List WalkSource
    → GoMap String JournalEntry
    → GoMap String JournalEntry
keep_pre_walk journal [] pre = pre
keep_pre_walk journal (src ∷ rest) pre =
    keep_pre_walk journal rest
      (elim (lookup src.from journal) [ none ↦ pre | some e ↦ insert src.from e pre ])

unfoldable pub walk_entry : ℕ → WalkSource → ℤ → JournalEntry
walk_entry k src arr = record {
  kind = walk;
  from_round = k;
  from = src.from;
  trip_key = record { trip_id = ""; date = "" };
  route_id = walk_route_id;
  departure = src.depart;
  arrival = arr;
}

-- The second loop, over the sources and over the footpaths of each.
unfoldable pub relax_edge : SearchState → ℕ → WalkSource → Footpath → Work → Work
relax_edge s k src fp w =
    let arr = add64 src.depart fp.walk_seconds in
    if improves w.best s.dest arr fp.neighbour_stop
    then set_label w fp.neighbour_stop (walk_entry k src arr)
    else w

unfoldable pub relax_edges : SearchState → ℕ → WalkSource → List Footpath → Work → Work
relax_edges s k src [] w = w
relax_edges s k src (fp ∷ fps) w = relax_edges s k src fps (relax_edge s k src fp w)

unfoldable pub relax_sources : SearchState → ℕ → List WalkSource → Work → Work
relax_sources s k [] w = w
relax_sources s k (src ∷ rest) w =
    relax_sources s k rest (relax_edges s k src (footpaths_from s src.from) w)

unfoldable pub relax_footpaths : SearchState → ℕ → List String → Work → Work
unfolding relax_sources
relax_footpaths s k sources w =
    let srcs = snapshot_sources s w.layer.tau sources in
    relax_sources s k srcs (record w {
      layer = record w.layer { pre_walk = keep_pre_walk w.layer.journal srcs w.layer.pre_walk };
    })
