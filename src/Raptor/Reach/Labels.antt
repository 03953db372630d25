-- ===== src/Raptor/Reach/Labels.antt =====
-- The writes of a label keep a layer sound.
use multi_agent_travel.Prelude.GoMap.{lookup, lookup-insert}
use multi_agent_travel.Model.{walk, transit, is_transit, LegKind}
use multi_agent_travel.Raptor.Reach.{
  IsTold, at_start, ready_time, leg_kind, Reaches, LastLeg, IsSound,
}
use multi_agent_travel.Raptor.State.{JournalEntry, Work, set_label, Layer, ready_at, SearchState}
use multi_agent_travel.Prelude.{
  ℕ, String, ◌≡◌, inl, inr, some, arith, if◌then◌else◌, Bool-cases, Option-cases, ◌==◌, eq_ℕ,
  eq_String, eq→≡,
}
use multi_agent_travel.Prelude.Int.{ℤ, eq_ℤ, add64}

module _ (s : SearchState) (k : ℕ) where
  pub set_label-IsSound :
      (w : Work) (station : String) (e : JournalEntry)
      → IsSound s k w.layer
      → Reaches s k station e.arrival (leg_kind e.kind)
      → IsTold s k station e
      → IsSound s k (set_label w station e).layer
  unfolding set_label
  set_label-IsSound w station e v r n = record {
    reached = λ at t h. elim (Bool-cases (station == at)) [
      | inl same ↦
          let here : some e.arrival ≡ some t =
            rw (lookup-insert station at e.arrival w.layer.tau, same) at h in
          let when : e.arrival ≡ t = cc in
          rw (lookup-insert station at e w.layer.journal, same, ← eq→≡ station at same, ← when) r
      | inr other ↦
          rw (lookup-insert station at e w.layer.journal, other)
            (v.reached at t (rw (lookup-insert station at e.arrival w.layer.tau, other) at h))
    ];
    recorded = λ at f h. elim (Bool-cases (station == at)) [
      | inl same ↦
          let here : some e ≡ some f = rw (lookup-insert station at e w.layer.journal, same) at h in
          let entry : e ≡ f = cc in rw (lookup-insert station at e.arrival w.layer.tau, same, entry)
      | inr other ↦
          rw (lookup-insert station at e.arrival w.layer.tau, other)
            (v.recorded at f (rw (lookup-insert station at e w.layer.journal, other) at h))
    ];
    told = λ at f h. elim (Bool-cases (station == at)) [
      | inl same ↦
          let here : some e ≡ some f = rw (lookup-insert station at e w.layer.journal, same) at h in
          let entry : e ≡ f = cc in rw (← eq→≡ station at same, ← entry) n
      | inr other ↦ v.told at f (rw (lookup-insert station at e w.layer.journal, other) at h)
    ];
    kept = v.kept;
  }

-- A station of the round before is left at its ready time.
pub ready_at-Reaches :
    (s : SearchState) (k : ℕ) (prev : Layer) (station : String) (ready : ℤ)
    → IsSound s k prev
    → ready_at prev s.xfer_sec station ≡ some ready
    → (t : ℤ) × (l : LastLeg) × Reaches s k station t l × (ready ≡ ready_time s t l)
unfolding ready_at
ready_at-Reaches s k prev station ready v h = elim (Option-cases (lookup station prev.tau)) [
  | inl gone ↦ cc (rw (ready_at, gone) at h)
  | inr (t, et) ↦ elim (Option-cases (lookup station prev.journal)) [
    | inl fresh ↦
        let same : some t ≡ some ready = rw (ready_at, et, fresh) at h in
        (t, at_start, rw fresh at (v.reached station t et), ground arith)
    | inr (e, ee) ↦
        let same : some (if is_transit e.kind then add64 t s.xfer_sec else t) ≡ some ready =
          rw (ready_at, et, ee) at h in
        (t, leg_kind e.kind, rw ee at (v.reached station t et), by_kind e.kind t same)
  ]
]
  where
    by_kind :
        (kind : LegKind) (t : ℤ)
        → some (if is_transit kind then add64 t s.xfer_sec else t) ≡ some ready
        → ready ≡ ready_time s t (leg_kind kind)
    by_kind transit t e = cc
    by_kind walk t e = cc
