-- ===== src/Schedule/Loader/Rows.antt =====
-- internal/schedule/loader.go: the arrays of a loaded buffer agree with each other.
use multi_agent_travel.Raptor.Reach.{IsMeasured}
use multi_agent_travel.Schedule.Fifo.{compute_fifo}
use multi_agent_travel.Prelude.Sorting.{All-sort}
use multi_agent_travel.Prelude.GoMap.{lookup_or, GoMap}
use multi_agent_travel.Schedule.Loader.{
  group_rows, trip_less, stations, trip_stop_times, add_route, StopRecord, ScheduleRow,
  same_pattern, route_times, load_schedule, load_routes, load_route, TripRecord,
}
use multi_agent_travel.Schedule.Buffer.{new_route_buffer, is_fifo, RouteBuffer}
use multi_agent_travel.Model.{TripStopTimes, RouteEntry}
use multi_agent_travel.Prelude.{
  keep_if, ℕ, zero, suc, String, ◌≡◌, refl, sym, ap, ◌∙◌, ◌≢◌, inl, inr, Bool, true, false, none,
  some, List, [], ◌∷◌, ◌++◌, map, arith, Bool-cases, ◌==◌, eq_ℕ, eq_String, eq→≡, length, get_elem?,
  is_empty, All, All-map,
}
use multi_agent_travel.Prelude.Int.{eq_ℤ}

-- A loaded route: what holds of its trips, its stations and its FIFO mark.
pub record IsRow (route : RouteEntry) (trips : List TripStopTimes) (fifo : Bool) : Type 0 where
  pub has_stops : route.stop_ids ≢ []
  pub has_trips : trips ≢ []
  pub keys_listed : route.trip_keys ≡ map (λ t. t.key) trips
  pub arrivals_fit : All (λ t. length t.arrivals ≡ length route.stop_ids) trips
  pub departures_fit : All (λ t. length t.departures ≡ length route.stop_ids) trips
  pub stations_fit : All (λ t. t.station_ids ≡ route.stop_ids) trips
  pub measured : fifo ≡ compute_fifo trips

-- The arrays run in parallel.
abbrev pub AreRows : List RouteEntry → List (List TripStopTimes) → List Bool → Type 0
AreRows [] [] [] = Unit
AreRows (r ∷ rs) (ts ∷ tss) (b ∷ bs) = IsRow r ts b × AreRows rs tss bs
AreRows _ _ _ = ⊥

AreRows-append_one :
    (rs : List RouteEntry) (tss : List (List TripStopTimes)) (bs : List Bool) (r : RouteEntry)
    (ts : List TripStopTimes) (b : Bool)
    → AreRows rs tss bs
    → IsRow r ts b
    → AreRows (rs ++ (r ∷ [])) (tss ++ (ts ∷ [])) (bs ++ (b ∷ []))
AreRows-append_one [] [] [] r ts b h k = (k, tt)
AreRows-append_one (r' ∷ rs) (ts' ∷ tss) (b' ∷ bs) r ts b h k =
    (h.0, AreRows-append_one rs tss bs r ts b h.1 k)
AreRows-append_one [] [] (b' ∷ bs) r ts b h k = absurd h
AreRows-append_one [] (ts' ∷ tss) bs r ts b h k = absurd h
AreRows-append_one (r' ∷ rs) [] bs r ts b h k = absurd h
AreRows-append_one (r' ∷ rs) (ts' ∷ tss) [] r ts b h k = absurd h

-- The trips kept for a route have its stops.
abbrev Fits : List String → TripStopTimes → Type 0
Fits ids t =
    (length t.arrivals ≡ length ids) × (length t.departures ≡ length ids) × (t.station_ids ≡ ids)

same_pattern-stations :
    (ids : List String) (stops : List StopRecord)
    → same_pattern ids stops ≡ true
    → map (λ s. s.station_id) stops ≡ ids
unfolding same_pattern
same_pattern-stations [] [] h = refl
same_pattern-stations [] (s ∷ stops) h = absurd cc
same_pattern-stations (id ∷ ids) [] h = absurd cc
same_pattern-stations (id ∷ ids) (s ∷ stops) h = elim (Bool-cases (s.station_id == id)) [
  | inr other ↦ absurd (ground (arith, (rw other at h)))
  | inl same ↦
      rw (eq→≡ s.station_id id same) (ap (◌∷◌ id) (same_pattern-stations ids stops (rw same at h)))
]

length-map : {A B : Type 0} (f : A → B) (xs : List A) → length (map f xs) ≡ length xs
length-map f [] = refl
length-map f (x ∷ xs) = ap suc (length-map f xs)

trip_stop_times-Fits :
    (ids : List String) (t : TripRecord)
    → same_pattern ids t.stops ≡ true
    → Fits ids (trip_stop_times t)
trip_stop_times-Fits ids t h =
    let e = same_pattern-stations ids t.stops h in
    let n = length-map (λ (s : StopRecord). s.station_id) t.stops in
    let m : length t.stops ≡ length ids = sym n ∙ ap length e in
    (
      length-map (λ (s : StopRecord). s.arrival_unix) t.stops ∙ m,
      length-map (λ (s : StopRecord). s.departure_unix) t.stops ∙ m,
      e,
    )

kept-Fits :
    (ids : List String) (trips : List TripRecord)
    → All (Fits ids) (map trip_stop_times (keep_if (λ t. same_pattern ids t.stops) trips))
kept-Fits ids [] = tt
kept-Fits ids (t ∷ ts) = elim (Bool-cases (same_pattern ids t.stops)) [
  | inl same ↦ rw same (trip_stop_times-Fits ids t same, kept-Fits ids ts)
  | inr other ↦ rw other (kept-Fits ids ts)
]

route_times-Fits :
    (ids : List String) (trips : List TripRecord) → All (Fits ids) (route_times ids trips)
unfolding route_times
route_times-Fits ids trips = All-sort trip_less (Fits ids) _ (kept-Fits ids trips)

is_empty→≢ : {A : Type 0} (xs : List A) → is_empty xs ≡ false → xs ≢ []
is_empty→≢ [] h = absurd cc
is_empty→≢ (x ∷ xs) h = λ e. absurd cc

-- The arrays of a buffer.
abbrev pub IsLoaded : RouteBuffer → Type 0
IsLoaded b = AreRows b.routes b.stop_times b.route_fifo

load_route-IsLoaded :
    (id : String) (trips : List TripRecord) (b : RouteBuffer)
    → IsLoaded b
    → IsLoaded (load_route id trips b)
unfolding load_route add_route
load_route-IsLoaded id [] b h = h
load_route-IsLoaded id (t ∷ ts) b h =
    let ids = stations t.stops in
    let times = route_times ids (t ∷ ts) in
    elim (Bool-cases (is_empty ids)) [
      | inl bare ↦ rw bare h
      | inr stopping ↦ elim (Bool-cases (is_empty times)) [
        | inl idle ↦ rw (stopping, idle) h
        | inr running ↦
            let fits = route_times-Fits ids (t ∷ ts) in
            rw (stopping, running)
              (AreRows-append_one b.routes b.stop_times b.route_fifo _ times (compute_fifo times) h
                (record {
                  has_stops = is_empty→≢ ids stopping;
                  has_trips = is_empty→≢ times running;
                  keys_listed = refl;
                  arrivals_fit = All-map (Fits ids) _ (λ u f. f.0) times fits;
                  departures_fit = All-map (Fits ids) _ (λ u f. f.1) times fits;
                  stations_fit = All-map (Fits ids) _ (λ u f. f.2) times fits;
                  measured = refl;
                }))
      ]
    ]

load_routes-IsLoaded :
    (ids : List String) (route_trips : GoMap String (List TripRecord)) (b : RouteBuffer)
    → IsLoaded b
    → IsLoaded (load_routes route_trips ids b)
unfolding load_routes
load_routes-IsLoaded [] route_trips b h = h
load_routes-IsLoaded (id ∷ ids) route_trips b h =
    load_routes-IsLoaded ids route_trips (load_route id (lookup_or [] id route_trips) b)
      (load_route-IsLoaded id (lookup_or [] id route_trips) b h)

-- Whatever the rows of the query, in whatever order: the buffer that they load has for each route
-- its trips and its FIFO mark at the same index; each trip has an arrival and a departure for each
-- stop of its route and the same stations; the trip keys are listed in the order of the trips; no
-- route is empty; and a route is marked FIFO exactly when the measurement says so.
pub load_schedule-IsLoaded : (rows : List ScheduleRow) → IsLoaded (load_schedule rows)
unfolding load_schedule new_route_buffer
load_schedule-IsLoaded rows =
    let g = group_rows rows (record { route_trips = []; route_order = []; current = none }) in
    load_routes-IsLoaded g.route_order g.route_trips new_route_buffer tt

some_inj : {A : Type 0} {x y : A} → some x ≡ some y → x ≡ y
some_inj q = cc

AreRows-get :
    (rs : List RouteEntry) (tss : List (List TripStopTimes)) (bs : List Bool) (i : ℕ)
    (ts : List TripStopTimes)
    → AreRows rs tss bs
    → (elim (get_elem? bs i) [ none ↦ false | some fifo ↦ fifo ]) ≡ true
    → get_elem? tss i ≡ some ts
    → compute_fifo ts ≡ true
AreRows-get [] [] [] i ts h f e = absurd cc
AreRows-get (r ∷ rs) (ts' ∷ tss) (b ∷ bs) zero ts h f e =
    let m = h.0.measured in let k = some_inj e in ground (arith, m, k)
AreRows-get (r ∷ rs) (ts' ∷ tss) (b ∷ bs) (suc i) ts h f e = AreRows-get rs tss bs i ts h.1 f e
AreRows-get [] [] (b' ∷ bs) i ts h f e = absurd h
AreRows-get [] (ts' ∷ tss) bs i ts h f e = absurd h
AreRows-get (r' ∷ rs) [] bs i ts h f e = absurd h
AreRows-get (r' ∷ rs) (ts' ∷ tss) [] i ts h f e = absurd h

-- In a buffer that the loader built from any rows, the trips of a route that IsFIFO accepts pass
-- computeFIFO, as the search assumes.
pub load_schedule-IsMeasured : (rows : List ScheduleRow) → IsMeasured (load_schedule rows)
unfolding is_fifo
load_schedule-IsMeasured rows i ts f e =
    let b = load_schedule rows in
    AreRows-get b.routes b.stop_times b.route_fifo i ts (load_schedule-IsLoaded rows) f e
