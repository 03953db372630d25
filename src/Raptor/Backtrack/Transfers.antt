-- ===== src/Raptor/Backtrack/Transfers.antt =====
-- internal/raptor/engine.go: the journeys that buildPath rebuilds keep the minimum transfer time.
use multi_agent_travel.Raptor.Backtrack.Steps.{step_entry-IsEntry, IsEntry}
use multi_agent_travel.Raptor.Backtrack.Laws.{check_path-some, build_path-some}
use multi_agent_travel.Prelude.GoMap.{lookup}
use multi_agent_travel.Raptor.Reach.Linked.{linked_walk, linked_ride, IsLinked, IsCaught, AreLinked}
use multi_agent_travel.Raptor.Backtrack.Timetabled.{AreSound}
use multi_agent_travel.Raptor.Backtrack.{
  backtrack_legs, make_path, step_entry, max_steps, build_path, leg_of, backtrack, VisitKey,
  NextLeg,
}
use multi_agent_travel.Raptor.State.{ready_at, JournalEntry, Layer, SearchState}
use multi_agent_travel.Model.{transit, LegKind, walk, JourneyPath, is_transit, Leg}
use multi_agent_travel.Prelude.{
  ℕ, zero, suc, ◌+◌, String, ◌≡◌, refl, sym, ap, ◌∙◌, ◌⊎◌, inl, inr, Bool, true, ◌&&◌, none, some,
  List, [], ◌∷◌, arith, ltb, if◌then◌else◌, Bool-cases, Option-cases, ◌==◌, eq_ℕ, eq_String, length,
  get_elem?,
}
use multi_agent_travel.Prelude.Int.{ℤ, pos, leb_ℤ, eq_ℤ, add64}

-- Between two rides the transfer time passes.
abbrev pub transfer_kept : ℤ → Leg → Leg → Bool
transfer_kept xfer_sec l m =
    if is_transit l.kind && is_transit m.kind
    then leb_ℤ (add64 l.arrival_unix xfer_sec) m.departure_unix
    else true

abbrev pub KeepsTransfers : ℤ → List Leg → Type 0
KeepsTransfers xfer_sec [] = Unit
KeepsTransfers xfer_sec (l ∷ []) = Unit
KeepsTransfers xfer_sec (l ∷ m ∷ ls) =
    (transfer_kept xfer_sec l m ≡ true) × KeepsTransfers xfer_sec (m ∷ ls)

-- Every layer of a search records rides that were caught.
abbrev pub AllLinked : SearchState → List Layer → Type 0
AllLinked s layers =
    (i : ℕ) (layer : Layer) → get_elem? layers i ≡ some layer → AreLinked s layers layer

-- The leg found last is a walk, or its trip was caught at the station reached.
abbrev HeadCaught : SearchState → List Layer → List Leg → String → ℕ → NextLeg → Type 0
HeadCaught s layers [] cur r next = Unit
HeadCaught s layers (l ∷ ls) cur r next =
    (next.prev_kind ≡ some l.kind) × ((l.kind ≡ walk) ⊎ IsCaught s layers r cur l.departure_unix)

module _ (s : SearchState) (layers : List Layer) (sound : AreSound s layers)
    (linked : AllLinked s layers) where
  step_entry-IsLinked :
      (cur : String) (r : ℕ) (next : NextLeg) (visited : List VisitKey) (e : JournalEntry)
      → step_entry layers cur r next visited ≡ some e
      → IsLinked s layers e
  step_entry-IsLinked cur r next visited e h =
      let (layer, el, entry) = step_entry-IsEntry layers cur r next visited e h in
      elim entry [
        | inl here ↦ (linked r layer el).in_journal cur e here
        | inr (kept, before) ↦ (linked r layer el).in_pre_walk cur e kept
      ]

  -- The next trip leaves after the entry's vehicle has come and the transfer time has passed.
  caught_after :
      (cur : String) (r : ℕ) (layer : Layer) (e : JournalEntry) (dep : ℤ)
      → get_elem? layers r ≡ some layer
      → lookup cur layer.journal ≡ some e
      → e.kind ≡ transit
      → IsCaught s layers r cur dep
      → leb_ℤ (add64 e.arrival s.xfer_sec) dep ≡ true
  unfolding ready_at
  caught_after cur r layer e dep el ee kind c =
      let source : some layer ≡ some c.source = sym el ∙ c.source_found in
      let same : layer ≡ c.source = cc in
      let ready : ready_at layer s.xfer_sec cur ≡ some c.ready = rw same c.ready_found in
      let found : some (add64 e.arrival s.xfer_sec) ≡ some c.ready =
        rw (ready_at, (sound r layer el).recorded cur e ee, ee, kind) at ready in
      let when : add64 e.arrival s.xfer_sec ≡ c.ready = cc in
      let in_time = c.catchable in rw when (ground arith)

  step_entry-transfer :
      (cur : String) (r : ℕ) (next : NextLeg) (visited : List VisitKey) (e : JournalEntry) (l : Leg)
      (ls : List Leg)
      → step_entry layers cur r next visited ≡ some e
      → HeadCaught s layers (l ∷ ls) cur r next
      → transfer_kept s.xfer_sec (leg_of cur e) l ≡ true
  unfolding leg_of
  step_entry-transfer cur r next visited e l ls h (prev, inl walks) = rw walks (ground arith)
  step_entry-transfer cur r next visited e l ls h (prev, inr c) =
      let (layer, el, entry) = step_entry-IsEntry layers cur r next visited e h in
      by_kinds e.kind l.kind refl refl layer el entry
    where
      by_kinds :
          (a b : LegKind)
          → e.kind ≡ a
          → l.kind ≡ b
          → (layer : Layer) → get_elem? layers r ≡ some layer
          → IsEntry layer cur next e
          → transfer_kept s.xfer_sec (leg_of cur e) l ≡ true
      by_kinds walk b ea eb layer el entry = rw ea refl
      by_kinds transit walk ea eb layer el entry = rw (ea, eb) refl
      by_kinds transit transit ea eb layer el (inl here) =
          rw (ea, eb) (caught_after cur r layer e l.departure_unix el here ea c)
      by_kinds transit transit ea eb layer el (inr (kept, before)) = absurd cc

  step_entry-HeadCaught :
      (cur : String) (r : ℕ) (next : NextLeg) (visited : List VisitKey) (e : JournalEntry)
      (legs : List Leg)
      → step_entry layers cur r next visited ≡ some e
      → HeadCaught s layers
          (leg_of cur e ∷ legs)
          e.from
          e.from_round
          (record { prev_kind = some e.kind; prev_departure = e.departure })
  unfolding leg_of
  step_entry-HeadCaught cur r next visited e legs h =
      elim (step_entry-IsLinked cur r next visited e h) [
        | linked_ride c ↦ (refl, inr c)
        | linked_walk kind ↦ (refl, inl kind)
      ]

  put_in_front :
      (cur : String) (r : ℕ) (next : NextLeg) (visited : List VisitKey) (e : JournalEntry)
      (legs : List Leg)
      → step_entry layers cur r next visited ≡ some e
      → HeadCaught s layers legs cur r next
      → KeepsTransfers s.xfer_sec legs
      → KeepsTransfers s.xfer_sec (leg_of cur e ∷ legs)
  put_in_front cur r next visited e [] h c v = tt
  put_in_front cur r next visited e (l ∷ ls) h c v =
      (step_entry-transfer cur r next visited e l ls h c, v)

  backtrack-KeepsTransfers :
      (fuel : ℕ) (cur : String) (r : ℕ) (next : NextLeg) (visited : List VisitKey)
      (legs out : List Leg)
      → HeadCaught s layers legs cur r next
      → KeepsTransfers s.xfer_sec legs
      → backtrack fuel s layers cur r next visited legs ≡ some out
      → KeepsTransfers s.xfer_sec out
  unfolding backtrack
  backtrack-KeepsTransfers zero cur r next visited legs out c v h = cc
  backtrack-KeepsTransfers (suc fuel) cur r next visited legs out c v h =
      elim (Bool-cases (cur == s.params.origin)) [
        | inl home ↦
            let done : some legs ≡ some out = rw (backtrack, home) at h in
            let same : legs ≡ out = cc in rw (← same) v
        | inr away ↦ elim (Bool-cases (ltb (max_steps s) (length legs))) [
          | inl long ↦ cc (rw (backtrack, away, long) at h)
          | inr short ↦ elim (Option-cases (step_entry layers cur r next visited)) [
            | inl broken ↦ cc (rw (backtrack, away, short, broken) at h)
            | inr (e, ee) ↦
                backtrack-KeepsTransfers fuel e.from e.from_round _ _ (leg_of cur e ∷ legs) out
                  (step_entry-HeadCaught cur r next visited e legs ee)
                  (put_in_front cur r next visited e legs ee c v)
                  (rw (backtrack, away, short, ee) at h)
          ]
        ]
      ]

  -- A journey that buildPath finds in such a search keeps the transfer time between its rides.
  pub build_path-KeepsTransfers :
      (round : ℕ) (p : JourneyPath)
      → build_path s layers round ≡ some p
      → KeepsTransfers s.xfer_sec p.legs
  build_path-KeepsTransfers round p h =
      let (l, ls, found, k) = build_path-some s layers round p h in
      let (same, bound, it) = check_path-some s (make_path s round (l ∷ ls)) p k in
      let legs : l ∷ ls ≡ p.legs = unfold make_path in ap (λ (q : JourneyPath). q.legs) same in
      rw (← legs) (
        backtrack-KeepsTransfers (max_steps s + 2) s.dest round
          (record { prev_kind = none; prev_departure = pos 0 }) [] [] (l ∷ ls) tt tt
          (unfold backtrack_legs in found))
