-- ===== src/Raptor/Reach/Walking.antt =====
-- internal/raptor/engine.go: relaxFootpaths writes labels of journeys only.
use multi_agent_travel.Raptor.Reach.Labels.{set_label-IsSound}
use multi_agent_travel.Prelude.GoMap.{lookup-insert, insert, GoMap, lookup}
use multi_agent_travel.Raptor.Reach.{
  walked, IsTold, on_foot, by_walk, entry_leg, Reaches, IsSound, LastLeg,
}
use multi_agent_travel.Model.{Footpath}
use multi_agent_travel.Raptor.Walk.{
  keep_pre_walk, walk_entry, footpaths_from, snapshot_sources, snapshot_source, relax_sources,
  relax_footpaths, relax_edges, relax_edge, WalkSource,
}
use multi_agent_travel.Raptor.State.{JournalEntry, improves, Work, Layer, SearchState}
use multi_agent_travel.Prelude.{
  eq→≡, ◌==◌, ℕ, suc, ◌+◌, String, ◌≡◌, refl, sym, ◌≢◌, ◌⊎◌, inl, inr, some, List, [], ◌∷◌, arith,
  Bool-cases, Option-cases, eq_ℕ, eq_String, get_elem?, All,
}
use multi_agent_travel.Prelude.Int.{ℤ, eq_ℤ, add64}

-- A source is left from a label that was not reached on foot.
record IsSource (s : SearchState) (k : ℕ) (src : WalkSource) : Type 0 where
  last : LastLeg
  reached : Reaches s k src.from src.depart last
  not_walked : last ≢ by_walk

module _ (s : SearchState) (k : ℕ) where
  snapshot_source-IsSource :
      (layer : Layer) (from : String) (src : WalkSource)
      → IsSound s k layer
      → entry_leg (lookup from layer.journal) ≢ by_walk
      → snapshot_source s layer.tau from ≡ some src
      → IsSource s k src
  unfolding snapshot_source
  snapshot_source-IsSource layer from src v unwalked_ h = elim (empty_or (footpaths_from s from)) [
    | inl nothing ↦ cc (rw (snapshot_source, nothing) at h)
    | inr (fp, fps, e) ↦ elim (Option-cases (lookup from layer.tau)) [
      | inl gone ↦ cc (rw (snapshot_source, e, gone) at h)
      | inr (t, et) ↦
          let made : some (source from t) ≡ some src = rw (snapshot_source, e, et) at h in
          let same : source from t ≡ src = cc in
          rw (← same) (record {
            last = entry_leg (lookup from layer.journal);
            reached = v.reached from t et;
            not_walked = unwalked_;
          })
    ]
  ]
    where
      empty_or :
          (l : List Footpath)
          → (l ≡ []) ⊎ ((fp : Footpath) × (fps : List Footpath) × (l ≡ fp ∷ fps))
      empty_or [] = inl refl
      empty_or (fp ∷ fps) = inr (fp, fps, refl)

      source : String → ℤ → WalkSource
      source from t = record { from = from; depart = t }

  snapshot_sources-IsSource :
      (layer : Layer) (sources : List String)
      → IsSound s k layer
      → All (λ at. entry_leg (lookup at layer.journal) ≢ by_walk) sources
      → All (IsSource s k) (snapshot_sources s layer.tau sources)
  unfolding snapshot_sources
  snapshot_sources-IsSource layer [] v h = tt
  snapshot_sources-IsSource layer (from ∷ rest) v h =
      let others = snapshot_sources-IsSource layer rest v h.1 in
      elim (Option-cases (snapshot_source s layer.tau from)) [
        | inl dropped ↦ rw (snapshot_sources, dropped) others
        | inr (src, e) ↦
            rw (snapshot_sources, e) (snapshot_source-IsSource layer from src v h.0 e, others)
      ]

  walk_entry-IsTold :
      (src : WalkSource) (fp : Footpath) (i : ℕ)
      → IsSource s k src
      → get_elem? (footpaths_from s src.from) i ≡ some fp
      → IsTold s k fp.neighbour_stop (walk_entry k src (add64 src.depart fp.walk_seconds))
  unfolding walk_entry
  walk_entry-IsTold src fp i ok e = walked refl (record {
    last = ok.last;
    reached = ok.reached;
    not_walked = ok.not_walked;
    no_later = omega arith;
    secs = fp.walk_seconds;
    footpath = record { edge_idx = i; edge_found = e };
    arrives = refl;
  })

  relax_edge-IsSound :
      (src : WalkSource) (fp : Footpath) (i : ℕ) (w : Work)
      → IsSource s k src
      → get_elem? (footpaths_from s src.from) i ≡ some fp
      → IsSound s k w.layer
      → IsSound s k (relax_edge s k src fp w).layer
  unfolding relax_edge
  relax_edge-IsSound src fp i w ok e v =
      let arr = add64 src.depart fp.walk_seconds in
      elim (Bool-cases (improves w.best s.dest arr fp.neighbour_stop)) [
        | inr worse ↦ rw worse v
        | inl better ↦ rw better (
            set_label-IsSound s k w fp.neighbour_stop (walk_entry k src arr) v
              (unfold walk_entry in
                on_foot ok.reached ok.not_walked (record { edge_idx = i; edge_found = e }) refl)
              (walk_entry-IsTold src fp i ok e))
      ]

  relax_edges-IsSound :
      (src : WalkSource) (fps : List Footpath) (n : ℕ) (w : Work)
      → IsSource s k src
      → ((m : ℕ) → get_elem? fps m ≡ get_elem? (footpaths_from s src.from) (n + m))
      → IsSound s k w.layer
      → IsSound s k (relax_edges s k src fps w).layer
  unfolding relax_edges
  relax_edges-IsSound src [] n w ok tl v = v
  relax_edges-IsSound src (fp ∷ fps) n w ok tl v =
      let e : n + 0 ≡ n = omega arith in
      relax_edges-IsSound src fps (n + 1) (relax_edge s k src fp w) ok
        (λ m. let f : n + suc m ≡ n + 1 + m = omega arith in rw (← f) (tl (suc m)))
        (relax_edge-IsSound src fp n w ok (rw e at (sym (tl 0))) v)

  relax_sources-IsSound :
      (srcs : List WalkSource) (w : Work)
      → All (IsSource s k) srcs
      → IsSound s k w.layer
      → IsSound s k (relax_sources s k srcs w).layer
  unfolding relax_sources
  relax_sources-IsSound [] w ok v = v
  relax_sources-IsSound (src ∷ rest) w ok v =
      relax_sources-IsSound rest (relax_edges s k src (footpaths_from s src.from) w) ok.1 (
        relax_edges-IsSound src (footpaths_from s src.from) 0 w ok.0
          (λ m. let e : m ≡ 0 + m = omega arith in rw (← e)) v)

  -- The entries that are kept come from the journal.
  keep_pre_walk-IsTold :
      (journal : GoMap String JournalEntry) (srcs : List WalkSource)
      (pre : GoMap String JournalEntry)
      → ((at : String) (e : JournalEntry) → lookup at journal ≡ some e → IsTold s k at e)
      → ((at : String) (e : JournalEntry) → lookup at pre ≡ some e → IsTold s k at e)
      → (at : String) (e : JournalEntry) → lookup at (keep_pre_walk journal srcs pre) ≡ some e
      → IsTold s k at e
  unfolding keep_pre_walk
  keep_pre_walk-IsTold journal [] pre told kept at e h = kept at e h
  keep_pre_walk-IsTold journal (src ∷ rest) pre told kept at e h =
      elim (Option-cases (lookup src.from journal)) [
        | inl fresh ↦
            keep_pre_walk-IsTold journal rest pre told kept at e (rw (keep_pre_walk, fresh) at h)
        | inr (f, ef) ↦
            keep_pre_walk-IsTold journal rest (insert src.from f pre) told
              (λ there g eg. elim (Bool-cases (src.from == there)) [
                | inl same ↦
                    let here : some f ≡ some g =
                      rw (lookup-insert src.from there f pre, same) at eg in
                    let entry : f ≡ g = cc in
                    rw (← eq→≡ src.from there same, ← entry) (told src.from f ef)
                | inr other ↦ kept there g (rw (lookup-insert src.from there f pre, other) at eg)
              ])
              at e (rw (keep_pre_walk, ef) at h)
      ]

  -- Relaxing from stations that were not reached on foot writes labels of journeys only.
  pub relax_footpaths-IsSound :
      (sources : List String) (w : Work)
      → All (λ at. entry_leg (lookup at w.layer.journal) ≢ by_walk) sources
      → IsSound s k w.layer
      → IsSound s k (relax_footpaths s k sources w).layer
  unfolding relax_footpaths
  relax_footpaths-IsSound sources w ok v =
      relax_sources-IsSound (snapshot_sources s w.layer.tau sources) _
        (snapshot_sources-IsSource w.layer sources v ok)
        (record {
          reached = v.reached;
          recorded = v.recorded;
          told = v.told;
          kept =
              keep_pre_walk-IsTold w.layer.journal (snapshot_sources s w.layer.tau sources)
                w.layer.pre_walk v.told v.kept;
        })
