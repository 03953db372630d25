-- ===== src/Raptor/Boarding/Forward.antt =====
-- internal/raptor/engine.go: the forward scan of earliestTrip and the predicate of its binary search.
use multi_agent_travel.Prelude.{
  get_elem?_of_lt, ℕ, zero, suc, ◌+◌, ◌≤◌, ◌<◌, ◌≡◌, refl, inl, inr, true, false, none, some, List,
  [], ◌∷◌, arith, Bool-cases, Option-cases, eq_ℕ, eq_String, length, get_elem?, take,
}
use multi_agent_travel.Prelude.Int.{leb_ℤ→≤ℤ, ℤ, leb_ℤ, ◌≤ℤ◌, ◌<ℤ◌, eq_ℤ}
use multi_agent_travel.Schedule.Fifo.Order.{Below-get, Below-none}
use multi_agent_travel.Raptor.State.{SearchState}
use multi_agent_travel.Schedule.Fifo.Laws.{compute_fifo-Below}
use multi_agent_travel.Raptor.Boarding.BinarySearch.{sort_search-IsBoundary, IsBoundary}
use multi_agent_travel.Raptor.Boarding.{trip_usable, scan_forward, sort_search, departs_from}
use multi_agent_travel.Schedule.Fifo.{compute_fifo}
use multi_agent_travel.Model.{TripStopTimes}

module _ (trips : List TripStopTimes) (fifo : compute_fifo trips ≡ true) (at : ℕ) (ready : ℤ) where
  departs_from_monotone :
      (i j : ℕ)
      → i ≤ j
      → j < length trips
      → departs_from trips at ready i ≡ true
      → departs_from trips at ready j ≡ true
  unfolding departs_from
  departs_from_monotone i j le inside h =
      let (u, eu) = get_elem?_of_lt trips j inside in
      let (t, et) = get_elem?_of_lt trips i (omega arith) in
      let below = (compute_fifo-Below trips i j t u fifo le et eu).0 in
      elim (Option-cases (get_elem? t.departures at)) [
        | inl none_at ↦
            let missing = Below-none t.departures u.departures at below none_at in
            rw (departs_from, eu, missing)
        | inr (d, ed) ↦
            let (e, ee, le') = Below-get t.departures u.departures at below ed in
            let later : leb_ℤ ready d ≡ true = rw (departs_from, et, ed) at h in
            rw (departs_from, eu, ee) (ground arith)
      ]

  pub first-IsBoundary :
      IsBoundary
        (length trips)
        (departs_from trips at ready)
        (sort_search (length trips) (departs_from trips at ready))
  first-IsBoundary =
      sort_search-IsBoundary (length trips) (departs_from trips at ready) departs_from_monotone

abbrev pub IsOrderedAt : ℕ → List TripStopTimes → Type 0
IsOrderedAt at ts =
    (i j : ℕ) (t u : TripStopTimes) (d e : ℤ)
    → i ≤ j
    → get_elem? ts i ≡ some t
    → get_elem? ts j ≡ some u
    → get_elem? t.departures at ≡ some d
    → get_elem? u.departures at ≡ some e
    → d ≤ℤ e

-- Trip k can be taken: it passes the filters and leaves before `must_beat`.
pub record CanTake (s : SearchState) (ts : List TripStopTimes) (at : ℕ) (must_beat : ℤ) (k : ℕ)
    : Type 0 where
  pub trip : TripStopTimes
  pub dep : ℤ
  pub found : get_elem? ts k ≡ some trip
  pub departs : get_elem? trip.departures at ≡ some dep
  pub usable : trip_usable s trip ≡ true
  pub in_time : dep <ℤ must_beat

module _ (s : SearchState) (at : ℕ) (must_beat : ℤ) where
  pub scan_forward-some :
      (ts : List TripStopTimes) (lo r : ℕ)
      → scan_forward s ts lo at must_beat ≡ some r
      → (k : ℕ) × (r ≡ lo + k)
        × CanTake s ts at must_beat k
        × ((j : ℕ) (u : TripStopTimes) (e : ℤ)
            → j < k
            → get_elem? ts j ≡ some u
            → get_elem? u.departures at ≡ some e
            → trip_usable s u ≡ false)
  unfolding scan_forward
  scan_forward-some [] lo r h = cc
  scan_forward-some (t ∷ ts) lo r h = elim (Option-cases (get_elem? t.departures at)) [
    | inl gone ↦
        let (k, e, take, first) = scan_forward-some ts (lo + 1) r (rw (scan_forward, gone) at h) in
        (suc k, omega arith, later take, skip k first (λ e p. cc))
    | inr (d, ed) ↦ elim (Bool-cases (leb_ℤ must_beat d)) [
      | inl late ↦ cc (rw (scan_forward, ed, late) at h)
      | inr soon ↦ elim (Bool-cases (trip_usable s t)) [
        | inl usable ↦
            let here : some lo ≡ some r = rw (scan_forward, ed, soon, usable) at h in
            (
              0,
              ground arith,
              record {
                trip = t;
                dep = d;
                found = refl;
                departs = ed;
                usable = usable;
                in_time = ground arith;
              },
              λ j u e p. absurd (omega arith),
            )
        | inr unusable ↦
            let (k, e, take, first) =
              scan_forward-some ts (lo + 1) r (rw (scan_forward, ed, soon, unusable) at h) in
            (suc k, omega arith, later take, skip k first (λ e p. unusable))
      ]
    ]
  ]
    where
      later : {k : ℕ} → CanTake s ts at must_beat k → CanTake s (t ∷ ts) at must_beat (suc k)
      later c = record {
        trip = c.trip;
        dep = c.dep;
        found = c.found;
        departs = c.departs;
        usable = c.usable;
        in_time = c.in_time;
      }

      skip :
          (k : ℕ)
          → ((j : ℕ) (u : TripStopTimes) (e : ℤ)
              → j < k
              → get_elem? ts j ≡ some u
              → get_elem? u.departures at ≡ some e
              → trip_usable s u ≡ false)
          → ((e : ℤ) → get_elem? t.departures at ≡ some e → trip_usable s t ≡ false)
          → (j : ℕ) (u : TripStopTimes) (e : ℤ) → j < suc k
          → get_elem? (t ∷ ts) j ≡ some u
          → get_elem? u.departures at ≡ some e
          → trip_usable s u ≡ false
      skip k first this zero u e p f g =
          let same : t ≡ u = cc in rw (← same) (this e (rw (← same) at g))
      skip k first this (suc j) u e p f g = first j u e (omega arith) f g

  pub scan_forward-none :
      (ts : List TripStopTimes) (lo : ℕ)
      → IsOrderedAt at ts
      → scan_forward s ts lo at must_beat ≡ none
      → (j : ℕ) (u : TripStopTimes) (e : ℤ) → get_elem? ts j ≡ some u
      → get_elem? u.departures at ≡ some e
      → trip_usable s u ≡ true
      → must_beat ≤ℤ e
  unfolding scan_forward
  scan_forward-none [] lo ord h j u e f g p = cc
  scan_forward-none (t ∷ ts) lo ord h j u e f g p =
      let rest =
        scan_forward-none ts (lo + 1)
          (λ i k v w a b le x y. ord (suc i) (suc k) v w a b (omega arith) x y) in
      elim (Option-cases (get_elem? t.departures at)) [
        | inl gone ↦ tail (rest (rw (scan_forward, gone) at h)) j f (λ d q. cc)
        | inr (d, ed) ↦ elim (Bool-cases (leb_ℤ must_beat d)) [
          | inl late ↦
              omega (arith, leb_ℤ→≤ℤ must_beat d late, ord 0 j t u d e (omega arith) refl f ed g)
          | inr soon ↦ elim (Bool-cases (trip_usable s t)) [
            | inl usable ↦ cc (rw (scan_forward, ed, soon, usable) at h)
            | inr unusable ↦
                tail (rest (rw (scan_forward, ed, soon, unusable) at h)) j f (λ d q. unusable)
          ]
        ]
      ]
    where
      tail :
          ((j : ℕ) (v : TripStopTimes) (a : ℤ)
            → get_elem? ts j ≡ some v
            → get_elem? v.departures at ≡ some a
            → trip_usable s v ≡ true
            → must_beat ≤ℤ a)
          → (j : ℕ) → get_elem? (t ∷ ts) j ≡ some u
          → ((d : ℤ) → get_elem? t.departures at ≡ some d → trip_usable s t ≡ false)
          → must_beat ≤ℤ e
      tail rest zero f this =
          let same : t ≡ u = cc in cc (this e (rw (← same) at g), rw (← same) at p)
      tail rest (suc j) f this = rest j u e f g p

pub departs_from-ready :
    (trips : List TripStopTimes) (at : ℕ) (ready : ℤ) (i : ℕ) (t : TripStopTimes) (d : ℤ)
    → get_elem? trips i ≡ some t
    → get_elem? t.departures at ≡ some d
    → departs_from trips at ready i ≡ leb_ℤ ready d
unfolding departs_from
departs_from-ready trips at ready i t d e f = rw (departs_from, e, f)
