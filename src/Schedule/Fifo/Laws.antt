-- ===== src/Schedule/Fifo/Laws.antt =====
-- internal/schedule/buffer.go: what computeFIFO decides.
use multi_agent_travel.Prelude.{
  ◌↔◌, ℕ, zero, suc, ◌≤◌, ◌≡◌, refl, true, List, [], ◌∷◌, some, arith, length, get_elem?, All,
  All-map, All-get,
}
use multi_agent_travel.Prelude.Int.{ℤ, ◌≤ℤ◌}
use multi_agent_travel.Model.{TripStopTimes}
use multi_agent_travel.Schedule.Fifo.{same_stops, ordered_after, compute_fifo}
use multi_agent_travel.Schedule.Fifo.Order.{
  no_earlier_of_get, Below-get, Below, Below-refl, Below-trans, no_earlier-Below,
}

-- No trip overtakes a later one: they serve as many stops, and at every position the later trip
-- neither arrives nor departs before the earlier one.
pub record NoOvertaking (trips : List TripStopTimes) : Type 0 where
  pub stops_alike :
      (i j : ℕ) (t u : TripStopTimes)
      → get_elem? trips i ≡ some t
      → get_elem? trips j ≡ some u
      → (length t.departures ≡ length u.departures) × (length t.arrivals ≡ length u.departures)
  pub departures_ordered :
      (i j at : ℕ) (t u : TripStopTimes) (d e : ℤ)
      → i ≤ j
      → get_elem? trips i ≡ some t
      → get_elem? trips j ≡ some u
      → get_elem? t.departures at ≡ some d
      → get_elem? u.departures at ≡ some e
      → d ≤ℤ e
  pub arrivals_ordered :
      (i j at : ℕ) (t u : TripStopTimes) (d e : ℤ)
      → i ≤ j
      → get_elem? trips i ≡ some t
      → get_elem? trips j ≡ some u
      → get_elem? t.arrivals at ≡ some d
      → get_elem? u.arrivals at ≡ some e
      → d ≤ℤ e

abbrev pub TripBelow : TripStopTimes → TripStopTimes → Type 0
TripBelow t u = Below t.departures u.departures × Below t.arrivals u.arrivals

TripBelow-trans : (t u v : TripStopTimes) → TripBelow t u → TripBelow u v → TripBelow t v
TripBelow-trans t u v h k =
    (Below-trans _ u.departures _ h.0 k.0, Below-trans _ u.arrivals _ h.1 k.1)

abbrev HasStops : ℕ → TripStopTimes → Type 0
HasStops n t = (length t.departures ≡ n) × (length t.arrivals ≡ n)

same_stops-HasStops :
    (n : ℕ) (ts : List TripStopTimes) → same_stops n ts ≡ true → All (HasStops n) ts
unfolding same_stops
same_stops-HasStops n [] h = tt
same_stops-HasStops n (t ∷ ts) h = (ground arith, same_stops-HasStops n ts (ground arith))

HasStops-same_stops :
    (n : ℕ) (ts : List TripStopTimes) → All (HasStops n) ts → same_stops n ts ≡ true
unfolding same_stops
HasStops-same_stops n [] h = refl
HasStops-same_stops n (t ∷ ts) h = ground (arith, h.0, HasStops-same_stops n ts h.1)

-- The order of neighbours is transitive, so it holds of all pairs.
ordered_after-Below :
    (n : ℕ) (t : TripStopTimes) (ts : List TripStopTimes)
    → HasStops n t
    → All (HasStops n) ts
    → ordered_after t ts ≡ true
    → All (TripBelow t) ts
unfolding ordered_after
ordered_after-Below n t [] p q h = tt
ordered_after-Below n t (u ∷ ts) p q h =
    let below : TripBelow t u = (
      no_earlier-Below t.departures u.departures (omega (arith, q.0)) (ground arith),
      no_earlier-Below t.arrivals u.arrivals (omega (arith, q.0)) (ground arith),
    ) in
    let rest = ordered_after-Below n u ts q.0 q.1 (ground arith) in
    (below, All-map (TripBelow u) (TripBelow t) (λ v. TripBelow-trans t u v below) ts rest)

ordered_after-tail :
    (t u : TripStopTimes) (ts : List TripStopTimes)
    → ordered_after t (u ∷ ts) ≡ true
    → ordered_after u ts ≡ true
unfolding ordered_after
ordered_after-tail t u ts h = ground arith

ordered_get :
    (n : ℕ) (t : TripStopTimes) (ts : List TripStopTimes) (i j : ℕ) (u v : TripStopTimes)
    → HasStops n t
    → All (HasStops n) ts
    → ordered_after t ts ≡ true
    → i ≤ j
    → get_elem? (t ∷ ts) i ≡ some u
    → get_elem? (t ∷ ts) j ≡ some v
    → TripBelow u v
ordered_get n t ts zero zero u v p q h le e f =
    let same : u ≡ v = cc in rw same (Below-refl _, Below-refl _)
ordered_get n t ts zero (suc j) u v p q h le e f =
    let same : t ≡ u = cc in
    rw (← same) (All-get (TripBelow t) ts j v (ordered_after-Below n t ts p q h) f)
ordered_get n t ts (suc i) zero u v p q h le e f = absurd (omega arith)
ordered_get n t [] (suc i) (suc j) u v p q h le e f = cc
ordered_get n t (w ∷ ts) (suc i) (suc j) u v p q h le e f =
    ordered_get n w ts i j u v q.0 q.1 (ordered_after-tail t w ts h) (omega arith) e f

compute_fifo-parts :
    (t u : TripStopTimes) (ts : List TripStopTimes)
    → compute_fifo (t ∷ u ∷ ts) ≡ true
    → All (HasStops (length t.departures)) (t ∷ u ∷ ts) × (ordered_after t (u ∷ ts) ≡ true)
unfolding compute_fifo
compute_fifo-parts t u ts h =
    (same_stops-HasStops (length t.departures) (t ∷ u ∷ ts) (ground arith), ground arith)

-- The trips of a route that computeFIFO passes are in order, at every two indices.
pub compute_fifo-Below :
    (trips : List TripStopTimes) (i j : ℕ) (u v : TripStopTimes)
    → compute_fifo trips ≡ true
    → i ≤ j
    → get_elem? trips i ≡ some u
    → get_elem? trips j ≡ some v
    → TripBelow u v
compute_fifo-Below [] i j u v h le e f = cc
compute_fifo-Below (t ∷ []) zero zero u v h le e f =
    let same : u ≡ v = cc in rw same (Below-refl _, Below-refl _)
compute_fifo-Below (t ∷ []) zero (suc j) u v h le e f = cc
compute_fifo-Below (t ∷ []) (suc i) j u v h le e f = cc
compute_fifo-Below (t ∷ w ∷ ts) i j u v h le e f =
    let parts = compute_fifo-parts t w ts h in
    ordered_get (length t.departures) t (w ∷ ts) i j u v parts.0.0 parts.0.1 parts.1 le e f

pub Below_le :
    (xs ys : List ℤ) (i : ℕ) (x y : ℤ)
    → Below xs ys
    → get_elem? xs i ≡ some x
    → get_elem? ys i ≡ some y
    → x ≤ℤ y
Below_le xs ys i x y h e f =
    let (z, g, le) = Below-get xs ys i h e in let same : z ≡ y = cc in rw (← same) le

stops_of :
    (trips : List TripStopTimes) (n i : ℕ) (t : TripStopTimes)
    → All (HasStops n) trips
    → get_elem? trips i ≡ some t
    → HasStops n t
stops_of trips n i t h e = All-get (HasStops n) trips i t h e

fifo_NoOvertaking :
    (t u : TripStopTimes) (ts : List TripStopTimes)
    → compute_fifo (t ∷ u ∷ ts) ≡ true
    → NoOvertaking (t ∷ u ∷ ts)
fifo_NoOvertaking t u ts h =
    let trips = t ∷ u ∷ ts in
    let (stops, order) = compute_fifo-parts t u ts h in
    record {
      stops_alike = λ i j v w e f.
          let p = stops_of trips (length t.departures) i v stops e in
          let q = stops_of trips (length t.departures) j w stops f in
          (omega (arith, p, q), omega (arith, p, q));
      departures_ordered = λ i j at v w d e le p q f g.
          Below_le v.departures w.departures at d e (compute_fifo-Below trips i j v w h le p q).0 f
            g;
      arrivals_ordered = λ i j at v w d e le p q f g.
          Below_le v.arrivals w.arrivals at d e (compute_fifo-Below trips i j v w h le p q).1 f g;
    }

All-of_get {κ} :
    (P : TripStopTimes → Type κ) (ts : List TripStopTimes)
    → ((i : ℕ) (t : TripStopTimes) → get_elem? ts i ≡ some t → P t)
    → All P ts
All-of_get P [] h = tt
All-of_get P (t ∷ ts) h = (h 0 t refl, All-of_get P ts (λ i u e. h (suc i) u e))

ordered_after_of_get :
    (t : TripStopTimes) (ts : List TripStopTimes)
    → NoOvertaking (t ∷ ts)
    → ordered_after t ts ≡ true
unfolding ordered_after
ordered_after_of_get t [] h = refl
ordered_after_of_get t (u ∷ ts) h =
    let deps =
      no_earlier_of_get t.departures u.departures
        (λ i x y e f. h.departures_ordered 0 1 i t u x y (omega arith) refl refl e f) in
    let arrs =
      no_earlier_of_get t.arrivals u.arrivals
        (λ i x y e f. h.arrivals_ordered 0 1 i t u x y (omega arith) refl refl e f) in
    let rest = ordered_after_of_get u ts (record {
      stops_alike = λ i j v w e f. h.stops_alike (suc i) (suc j) v w e f;
      departures_ordered = λ i j at v w d e le p q f g.
          h.departures_ordered (suc i) (suc j) at v w d e (omega arith) p q f g;
      arrivals_ordered = λ i j at v w d e le p q f g.
          h.arrivals_ordered (suc i) (suc j) at v w d e (omega arith) p q f g;
    }) in
    ground (arith, deps, arrs, rest)

NoOvertaking-fifo :
    (t u : TripStopTimes) (ts : List TripStopTimes)
    → NoOvertaking (t ∷ u ∷ ts)
    → compute_fifo (t ∷ u ∷ ts) ≡ true
unfolding compute_fifo
NoOvertaking-fifo t u ts h =
    let stops = HasStops-same_stops (length t.departures) (t ∷ u ∷ ts) (
      All-of_get (HasStops (length t.departures)) (t ∷ u ∷ ts)
        (λ i v e. h.stops_alike i 0 v t e refl)) in
    rw stops (ordered_after_of_get t (u ∷ ts) h)

-- For two trips or more, computeFIFO answers true exactly when all trips serve as many stops and no
-- trip overtakes a later one, at any position and between any two indices.
pub compute_fifo_iff :
    (trips : List TripStopTimes)
    → 2 ≤ length trips
    → (compute_fifo trips ≡ true) ↔ NoOvertaking trips
compute_fifo_iff [] h = absurd (omega arith)
compute_fifo_iff (t ∷ []) h = absurd (omega arith)
compute_fifo_iff (t ∷ u ∷ ts) h = (fifo_NoOvertaking t u ts, NoOvertaking-fifo t u ts)
