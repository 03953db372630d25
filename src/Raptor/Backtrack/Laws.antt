-- ===== src/Raptor/Backtrack/Laws.antt =====
-- internal/raptor/engine.go: what buildPath returns.
use multi_agent_travel.Prelude.GoMap.{member, lookup}
use multi_agent_travel.Raptor.Reach.{IsSound}
use multi_agent_travel.Raptor.Itinerary.{validate_path}
use multi_agent_travel.Raptor.Itinerary.Laws.{validate_path_iff, IsItinerary}
use multi_agent_travel.Model.{transit_legs_of, JourneyPath, Leg}
use multi_agent_travel.Raptor.State.{JournalEntry, Layer, SearchState}
use multi_agent_travel.Raptor.Backtrack.{
  unwalked, first_departure, checked_legs, make_path, last_arrival, check_path, build_path,
  backtrack_legs, leg_of, step_entry, max_steps, VisitKey, NextLeg, backtrack,
}
use mathlib.Core.List.{append_assoc}
use multi_agent_travel.Prelude.{
  ap, ◌||◌, sym, ◌∙◌, refl, ◌-◌, [], ◌++◌, none, get_elem?, Option, some, ℕ, zero, suc, ◌+◌, ◌≤◌,
  ◌<◌, String, ◌≡◌, inl, inr, List, ◌∷◌, arith, ltb, Bool-cases, Option-cases, ◌==◌, eq_ℕ,
  eq_String, length,
}
use multi_agent_travel.Prelude.Int.{pos, ℤ, eq_ℤ}

backtrack-enough :
    (extra fuel : ℕ) (s : SearchState) (layers : List Layer) (cur : String) (r : ℕ) (next : NextLeg)
    (visited : List VisitKey) (legs : List Leg)
    → max_steps s + 2 ≤ length legs + fuel
    → 0 < fuel
    → backtrack (fuel + extra) s layers cur r next visited legs
      ≡ backtrack fuel s layers cur r next visited legs
unfolding backtrack
backtrack-enough extra zero s layers cur r next visited legs h p = absurd (omega arith)
backtrack-enough extra (suc fuel) s layers cur r next visited legs h p =
    let more : suc fuel + extra ≡ suc (fuel + extra) = omega arith in
    rw more (elim (Bool-cases (cur == s.params.origin)) [
      | inl home ↦ rw (backtrack, home)
      | inr away ↦ elim (Bool-cases (ltb (max_steps s) (length legs))) [
        | inl long ↦ rw (backtrack, away, long)
        | inr short ↦ elim (Option-cases (step_entry layers cur r next visited)) [
          | inl broken ↦ rw (backtrack, away, short, broken)
          | inr (e, ee) ↦
              rw (backtrack, away, short, ee)
                (backtrack-enough extra fuel s layers e.from e.from_round _ _ (leg_of cur e ∷ legs)
                  (omega arith) (ground arith))
        ]
      ]
    ])

-- The fuel of the model is never what ends the loop of buildPath: any larger amount gives the same
-- legs, in every round and for any journal, broken or cyclic.
pub backtrack_legs-fuel :
    (extra : ℕ) (s : SearchState) (layers : List Layer) (round : ℕ)
    → backtrack
        (max_steps s + 2 + extra)
        s
        layers
        s.dest
        round
        (record { prev_kind = none; prev_departure = pos 0 })
        []
        []
      ≡ backtrack_legs s layers round
unfolding backtrack_legs
backtrack_legs-fuel extra s layers round =
    backtrack-enough extra (max_steps s + 2) s layers s.dest round _ [] [] (omega arith)
      (omega arith)

-- What buildPath promises of a journey: it can be travelled, keeps the round limit, and its summary
-- tells its legs.
pub record IsAnswer (s : SearchState) (round : ℕ) (p : JourneyPath) : Type 0 where
  pub itinerary : IsItinerary s.params p.legs
  pub round_bound : transit_legs_of p.legs ≤ s.rounds
  pub transfers_counted : p.transfers ≡ transit_legs_of p.legs - 1
  pub departs_first : p.departure_unix ≡ first_departure p.legs
  pub arrives_last : p.arrival_unix ≡ last_arrival p.legs
  pub round_kept : p.rounds ≡ round

pub check_path-some :
    (s : SearchState) (q p : JourneyPath)
    → check_path s q ≡ some p
    → (q ≡ p) × (transit_legs_of q.legs ≤ s.rounds) × IsItinerary s.params q.legs
unfolding check_path
check_path-some s q p h = elim (Bool-cases (ltb s.rounds (transit_legs_of q.legs))) [
  | inl over ↦ cc (rw over at h)
  | inr within ↦ elim (Option-cases (validate_path q s.params)) [
    | inr (e, wrong) ↦ cc (rw (within, check_path, wrong) at h)
    | inl valid ↦
        let same : some q ≡ some p = rw (check_path, within, valid) at h in
        (cc, ground arith, (validate_path_iff q s.params).0 valid)
  ]
]

made-IsAnswer :
    (s : SearchState) (round : ℕ) (legs : List Leg)
    → transit_legs_of legs ≤ s.rounds
    → IsItinerary s.params legs
    → IsAnswer s round (make_path s round legs)
unfolding make_path
made-IsAnswer s round legs bound it = record {
  itinerary = it;
  round_bound = bound;
  transfers_counted = refl;
  departs_first = refl;
  arrives_last = refl;
  round_kept = refl;
}

pub build_path-some :
    (s : SearchState) (layers : List Layer) (round : ℕ) (p : JourneyPath)
    → build_path s layers round ≡ some p
    → (l : Leg) × (ls : List Leg) × (backtrack_legs s layers round ≡ some (l ∷ ls))
      × (check_path s (make_path s round (l ∷ ls)) ≡ some p)
unfolding build_path
build_path-some s layers round p h = by_legs (backtrack_legs s layers round) refl h
  where
    by_legs :
        (o : Option (List Leg))
        → backtrack_legs s layers round ≡ o
        → checked_legs s round o ≡ some p
        → (l : Leg) × (ls : List Leg) × (backtrack_legs s layers round ≡ some (l ∷ ls))
          × (check_path s (make_path s round (l ∷ ls)) ≡ some p)
    by_legs none e k = cc
    by_legs (some []) e k = cc
    by_legs (some (l ∷ ls)) e k = (l, ls, e, k)

-- Whatever the journal holds, a journey that buildPath returns can be travelled from the origin at
-- the requested time to the destination, has no more rides than the round limit, counts its
-- transfers as its rides less one, and has the times of its first and last legs.
pub build_path-IsAnswer :
    (s : SearchState) (layers : List Layer) (round : ℕ) (p : JourneyPath)
    → build_path s layers round ≡ some p
    → IsAnswer s round p
build_path-IsAnswer s layers round p h =
    let (l, ls, e, k) = build_path-some s layers round p h in
    let (same, bound, it) = check_path-some s (make_path s round (l ∷ ls)) p k in
    rw (← same)
      (made-IsAnswer s round (l ∷ ls) (unfold make_path in bound) (unfold make_path in it))

-- The legs found so far stay at the end.
backtrack-suffix :
    (fuel : ℕ) (s : SearchState) (layers : List Layer) (cur : String) (r : ℕ) (next : NextLeg)
    (visited : List VisitKey) (legs out : List Leg)
    → backtrack fuel s layers cur r next visited legs ≡ some out
    → (front : List Leg) × (out ≡ front ++ legs)
unfolding backtrack
backtrack-suffix zero s layers cur r next visited legs out h = cc
backtrack-suffix (suc fuel) s layers cur r next visited legs out h =
    elim (Bool-cases (cur == s.params.origin)) [
      | inl home ↦ let same : some legs ≡ some out = rw (backtrack, home) at h in ([], cc)
      | inr away ↦ elim (Bool-cases (ltb (max_steps s) (length legs))) [
        | inl long ↦ cc (rw (backtrack, away, long) at h)
        | inr short ↦ elim (Option-cases (step_entry layers cur r next visited)) [
          | inl broken ↦ cc (rw (backtrack, away, short, broken) at h)
          | inr (e, ee) ↦
              let (front, split) =
                backtrack-suffix fuel s layers e.from e.from_round _ _ (leg_of cur e ∷ legs) out
                  (rw (backtrack, away, short, ee) at h) in
              (
                front ++ leg_of cur e ∷ [],
                split ∙ sym (append_assoc front (leg_of cur e ∷ []) legs),
              )
        ]
      ]
    ]

last_arrival-append : (front : List Leg) (l : Leg) → last_arrival (front ++ l ∷ []) ≡ l.arrival_unix
unfolding last_arrival
last_arrival-append [] l = refl
last_arrival-append (x ∷ []) l = refl
last_arrival-append (x ∷ y ∷ front) l = last_arrival-append (y ∷ front) l

-- With no leg after it, an entry is taken as the journal has it.
step_entry-first :
    (layers : List Layer) (cur : String) (r : ℕ) (layer : Layer) (d : ℤ) (e : JournalEntry)
    → get_elem? layers r ≡ some layer
    → step_entry layers cur r (record { prev_kind = none; prev_departure = d }) [] ≡ some e
    → lookup cur layer.journal ≡ some e
unfolding step_entry
step_entry-first layers cur r layer d e f h = elim (Option-cases (lookup cur layer.journal)) [
  | inl gone ↦ cc (rw (step_entry, f, gone) at h)
  | inr (e', ee) ↦ elim (Bool-cases (e'.from == "" || e'.from == cur)) [
    | inl broken ↦ cc (rw (step_entry, f, ee, broken) at h)
    | inr whole ↦
        let same : some e' ≡ some e =
          unfold unwalked member in rw (step_entry, f, ee, whole) at h in
        ee ∙ same
  ]
]

backtrack-last :
    (fuel : ℕ) (s : SearchState) (layers : List Layer) (round : ℕ) (layer : Layer) (d : ℤ) (l : Leg)
    (ls : List Leg)
    → get_elem? layers round ≡ some layer
    → backtrack fuel s layers s.dest round (record { prev_kind = none; prev_departure = d }) [] []
      ≡ some (l ∷ ls)
    → (e : JournalEntry) × (lookup s.dest layer.journal ≡ some e)
      × (last_arrival (l ∷ ls) ≡ e.arrival)
unfolding backtrack
backtrack-last zero s layers round layer d l ls f h = cc
backtrack-last (suc fuel) s layers round layer d l ls f h =
    let next : NextLeg = record { prev_kind = none; prev_departure = d } in
    elim (Bool-cases (s.dest == s.params.origin)) [
      | inl home ↦ cc (rw (backtrack, home) at h)
      | inr away ↦ elim (Bool-cases (ltb (max_steps s) 0)) [
        | inl long ↦ cc (rw (backtrack, away, long) at h)
        | inr short ↦ elim (Option-cases (step_entry layers s.dest round next [])) [
          | inl broken ↦ cc (rw (backtrack, away, short, broken) at h)
          | inr (e, ee) ↦
              let (front, split) =
                backtrack-suffix fuel s layers e.from e.from_round _ _ (leg_of s.dest e ∷ [])
                  (l ∷ ls) (rw (backtrack, away, short, ee) at h) in
              (
                e,
                step_entry-first layers s.dest round layer d e f ee,
                rw split (last_arrival-append front (leg_of s.dest e) ∙ (unfold leg_of in refl)),
              )
        ]
      ]
    ]

-- A journey that buildPath finds for a round of a sound search arrives exactly at the time that
-- the round's label of the destination promises.
pub build_path-arrival :
    (s : SearchState) (layers : List Layer) (round : ℕ) (layer : Layer) (p : JourneyPath)
    → get_elem? layers round ≡ some layer
    → IsSound s round layer
    → build_path s layers round ≡ some p
    → lookup s.dest layer.tau ≡ some p.arrival_unix
build_path-arrival s layers round layer p f v h =
    let (l, ls, found, k) = build_path-some s layers round p h in
    let (same, bound, it) = check_path-some s (make_path s round (l ∷ ls)) p k in
    let (e, recorded, last) =
      backtrack-last (max_steps s + 2) s layers round layer (pos 0) l ls f
        (unfold backtrack_legs in found) in
    let made : last_arrival (l ∷ ls) ≡ p.arrival_unix =
      unfold make_path in ap (λ (q : JourneyPath). q.arrival_unix) same in
    v.recorded s.dest e recorded ∙ ap some (sym last ∙ made)
