-- ===== src/Raptor/Backtrack/Steps.antt =====
-- internal/raptor/engine.go: where buildPath finds the entry that it steps back over.
use multi_agent_travel.Prelude.GoMap.{member, lookup}
use multi_agent_travel.Raptor.State.{JournalEntry, Layer}
use multi_agent_travel.Raptor.Backtrack.{
  eq_VisitKey, VisitKey, is_walk_before, NextLeg, unwalked, step_entry,
}
use multi_agent_travel.Model.{transit, walk, LegKind}
use multi_agent_travel.Prelude.{
  ℕ, String, ◌≡◌, refl, ◌⊎◌, inl, inr, true, not, ◌&&◌, ◌||◌, Option, none, some, List, Bool-cases,
  Option-cases, ◌==◌, eq_ℕ, eq_String, get_elem?,
}
use multi_agent_travel.Prelude.Int.{leb_ℤ, eq_ℤ}

-- An entry of the journal of a layer, or one that was kept aside, where a walk comes next.
abbrev pub IsEntry : Layer → String → NextLeg → JournalEntry → Type 0
IsEntry layer cur next e =
    (lookup cur layer.journal ≡ some e)
    ⊎ ((lookup cur layer.pre_walk ≡ some e) × (next.prev_kind ≡ some walk))

before_walk :
    (prev : Option LegKind) (kind : LegKind) → is_walk_before prev kind ≡ true → prev ≡ some walk
before_walk none walk h = cc
before_walk none transit h = cc
before_walk (some walk) kind h = refl
before_walk (some transit) walk h = cc
before_walk (some transit) transit h = cc

unwalked-IsEntry :
    (layer : Layer) (cur : String) (next : NextLeg) (e : JournalEntry)
    → lookup cur layer.journal ≡ some e
    → IsEntry layer cur next (unwalked layer cur next e)
unfolding unwalked
unwalked-IsEntry layer cur next e h = elim (Bool-cases (is_walk_before next.prev_kind e.kind)) [
  | inr single ↦ rw single (inl h)
  | inl twice ↦ elim (Option-cases (lookup cur layer.pre_walk)) [
    | inl missing ↦ rw (twice, unwalked, missing) (inl h)
    | inr (pre, ep) ↦
        elim (Bool-cases (not (pre.from == "") && leb_ℤ pre.arrival next.prev_departure)) [
          | inl fits ↦
              rw (twice, unwalked, ep, fits) (inr (refl, before_walk next.prev_kind e.kind twice))
          | inr late ↦ rw (twice, unwalked, ep, late) (inl h)
        ]
  ]
]

pub step_entry-IsEntry :
    (layers : List Layer) (cur : String) (r : ℕ) (next : NextLeg) (visited : List VisitKey)
    (e : JournalEntry)
    → step_entry layers cur r next visited ≡ some e
    → (layer : Layer) × (get_elem? layers r ≡ some layer) × IsEntry layer cur next e
unfolding step_entry
step_entry-IsEntry layers cur r next visited e h = elim (Option-cases (get_elem? layers r)) [
  | inl past ↦ cc (rw (step_entry, past) at h)
  | inr (layer, el) ↦ elim (Option-cases (lookup cur layer.journal)) [
    | inl fresh ↦ cc (rw (step_entry, el, fresh) at h)
    | inr (f, ef) ↦ elim (Bool-cases (f.from == "" || f.from == cur)) [
      | inl broken ↦ cc (rw (step_entry, el, ef, broken) at h)
      | inr whole ↦ elim (Bool-cases (member (record { round = r; station = cur }) visited)) [
        | inl cyclic ↦ cc (rw (step_entry, el, ef, whole, cyclic) at h)
        | inr first ↦
            let taken : some (unwalked layer cur next f) ≡ some e =
              rw (step_entry, el, ef, whole, first) at h in
            let same : unwalked layer cur next f ≡ e = cc in
            (layer, el, rw (← same) (unwalked-IsEntry layer cur next f ef))
      ]
    ]
  ]
]
