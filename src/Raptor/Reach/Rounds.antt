-- ===== src/Raptor/Reach/Rounds.antt =====
-- internal/raptor/engine.go: every label of every round of a search is the time of a journey.
use multi_agent_travel.Raptor.Reach.Linked.{
  start_round-AreLinked, round_zero-AreLinked, relax_footpaths-AreLinked, AreLinked,
}
use multi_agent_travel.Raptor.Reach.Riding.{IsScanning}
use multi_agent_travel.Prelude.Sorting.{All-sort, str_ltb, sort}
use multi_agent_travel.Raptor.Scan.{scan_route}
use multi_agent_travel.Raptor.Reach.Scanning.{scan_route-IsScanning}
use multi_agent_travel.Raptor.Reach.Walking.{relax_footpaths-IsSound}
use multi_agent_travel.Raptor.Reach.{
  IsTold-next, start, by_walk, entry_leg, wait, IsSound, IsMeasured,
}
use multi_agent_travel.Raptor.State.{Work, Layer, SearchState}
use multi_agent_travel.Raptor.Rounds.{
  search_layers, run_rounds, scan_order, collect_queue, origin_work, start_round, scan_routes,
  run_round, round_zero,
}
use multi_agent_travel.Prelude.GoMap.{insert, lookup_or, lookup, GoMap, member}
use multi_agent_travel.Prelude.{
  get_elem?-length, get_elem?-append, length-append, get_elem?-append_one, ℕ, zero, suc, ◌+◌,
  String, ◌≡◌, refl, sym, ◌≢◌, inl, inr, Bool, true, some, List, [], ◌∷◌, ◌++◌, arith, Bool-cases,
  ◌==◌, Eq, eq_ℕ, eq_String, eq→≡, ==_refl, length, get_elem?, is_empty, All, All-map,
}
use multi_agent_travel.Prelude.Int.{ℤ, pos, eq_ℤ}

scan_routes-IsScanning :
    (s : SearchState) (all : List Layer) (k prev_round : ℕ)
    → k ≡ prev_round + 1
    → IsMeasured s.routes
    → (prev : Layer) → get_elem? all prev_round ≡ some prev
    → IsSound s prev_round prev
    → (queue : GoMap ℤ ℤ) (order : List ℤ) (w : Work) → IsScanning s all k w
    → IsScanning s all k (scan_routes s prev_round prev queue order w)
unfolding scan_routes
scan_routes-IsScanning s all k prev_round succ measured prev found sound queue [] w v = v
scan_routes-IsScanning s all k prev_round succ measured prev found sound queue (ri ∷ order) w v =
    scan_routes-IsScanning s all k prev_round succ measured prev found sound queue order
      (scan_route s prev_round prev ri (lookup_or (pos 0) ri queue) w)
      (scan_route-IsScanning s all k prev_round succ measured prev found sound ri
        (lookup_or (pos 0) ri queue) w v)

start_round-IsScanning :
    (s : SearchState) (all : List Layer) (k prev_round : ℕ) (prev : Layer) (best : GoMap String ℤ)
    → k ≡ prev_round + 1
    → IsSound s prev_round prev
    → AreLinked s all prev
    → IsScanning s all k (start_round prev best)
unfolding start_round member lookup
start_round-IsScanning s all k prev_round prev best succ v n = record {
  linked = start_round-AreLinked s all prev best n;
  sound = record {
    reached = λ at t h. wait succ (v.reached at t h);
    recorded = v.recorded;
    told = λ at e h. IsTold-next s prev_round k at e succ (v.told at e h);
    kept = λ at e h. cc;
  };
  improved = λ at h. cc;
}

All-member : {A : Type 0} ⦃e : Eq A⦄ (xs : List A) → All (λ x. member x xs ≡ true) xs
unfolding member
All-member [] = tt
All-member (x ∷ xs) = (
  rw (==_refl x),
  All-map (λ y. member y xs ≡ true) (λ y. member y (x ∷ xs) ≡ true) more xs (All-member xs),
)
  where
    more : (y : _) → member y xs ≡ true → member y (x ∷ xs) ≡ true
    more y h = ground arith

-- A layer of a search whose layers are `all`.
abbrev IsDone : SearchState → List Layer → ℕ → Layer → Type 0
IsDone s all k layer = IsSound s k layer × AreLinked s all layer

run_round-IsDone :
    (s : SearchState) (all : List Layer) (k prev_round : ℕ) (prev : Layer) (best : GoMap String ℤ)
    (marked : List String)
    → k ≡ prev_round + 1
    → IsMeasured s.routes
    → get_elem? all prev_round ≡ some prev
    → IsDone s all prev_round prev
    → IsDone s all k (run_round s prev_round prev best marked).layer
unfolding run_round
run_round-IsDone s all k prev_round prev best marked succ measured found v =
    let queue = collect_queue s marked [] in
    let w = scan_routes s prev_round prev queue (scan_order queue) (start_round prev best) in
    let scanned =
      scan_routes-IsScanning s all k prev_round succ measured prev found v.0 queue
        (scan_order queue) (start_round prev best)
        (start_round-IsScanning s all k prev_round prev best succ v.0 v.1) in
    let by_ride = All-sort str_ltb _ w.improved (
      All-map (λ at. member at w.improved ≡ true) _ (λ at h walked. cc (scanned.improved at h))
        w.improved (All-member w.improved)) in
    rw (← succ) (
      relax_footpaths-IsSound s k (sort str_ltb w.improved) w by_ride scanned.sound,
      relax_footpaths-AreLinked s all k (sort str_ltb w.improved) w scanned.linked,
    )

origin_work-IsSound : (s : SearchState) → IsSound s 0 (origin_work s).layer
unfolding origin_work lookup insert
origin_work-IsSound s = record {
  reached = λ at t h. elim (Bool-cases (s.params.origin == at)) [
    | inl same ↦
        let here : some s.params.dep_time ≡ some t = rw same at h in
        start (sym (eq→≡ s.params.origin at same)) (ground arith)
    | inr other ↦ cc (rw other at h)
  ];
  recorded = λ at e h. cc;
  told = λ at e h. cc;
  kept = λ at e h. cc;
}

origin_not_walked :
    (s : SearchState) → entry_leg (lookup s.params.origin (origin_work s).layer.journal) ≢ by_walk
unfolding origin_work lookup
origin_not_walked s e = cc

round_zero-IsSound : (s : SearchState) → IsSound s 0 (round_zero s).layer
unfolding round_zero
round_zero-IsSound s =
    relax_footpaths-IsSound s 0 (s.params.origin ∷ []) (origin_work s) (origin_not_walked s, tt)
      (origin_work-IsSound s)

-- The first layers of a search whose layers are `all`.
abbrev AllDone : SearchState → List Layer → List Layer → Type 0
AllDone s all layers =
    (i : ℕ) (layer : Layer) → get_elem? layers i ≡ some layer → IsDone s all i layer

AllDone-append :
    (s : SearchState) (all layers : List Layer) (last : Layer)
    → AllDone s all layers
    → IsDone s all (length layers) last
    → AllDone s all (layers ++ last ∷ [])
AllDone-append s all layers last h v i layer e = elim (get_elem?-append_one layers last i layer e) [
  | inl old ↦ h i layer old
  | inr (at_end, same) ↦ rw (at_end, ← same) v
]

-- The layers that are finished stay in place.
run_rounds-prefix :
    (cancelled : ℕ → Bool) (s : SearchState) (left prev_round : ℕ) (layers : List Layer)
    (prev : Layer) (best : GoMap String ℤ) (marked : List String) (out : List Layer)
    → run_rounds cancelled s left prev_round layers prev best marked ≡ some out
    → (i : ℕ) (layer : Layer) → get_elem? layers i ≡ some layer
    → get_elem? out i ≡ some layer
unfolding run_rounds
run_rounds-prefix cancelled s zero prev_round layers prev best marked out e i layer f =
    let same : layers ≡ out = cc in rw (← same) f
run_rounds-prefix cancelled s (suc left) prev_round layers prev best marked out e i layer f =
    let w = run_round s prev_round prev best marked in
    let later = get_elem?-append layers (w.layer ∷ []) i layer f in
    elim (Bool-cases (cancelled (prev_round + 1))) [
      | inl stopped ↦ cc (rw stopped at e)
      | inr going ↦ elim (Bool-cases (is_empty w.improved)) [
        | inl quiet ↦
            let ends : some (layers ++ w.layer ∷ []) ≡ some out = rw (going, quiet) at e in
            let same : layers ++ w.layer ∷ [] ≡ out = cc in rw (← same) later
        | inr busy ↦
            run_rounds-prefix cancelled s left (prev_round + 1) (layers ++ w.layer ∷ []) w.layer
              w.best w.improved out (rw (going, busy) at e) i layer later
      ]
    ]

run_rounds-AllDone :
    (cancelled : ℕ → Bool) (s : SearchState)
    → IsMeasured s.routes
    → (left prev_round : ℕ) (layers : List Layer) (prev : Layer) (best : GoMap String ℤ)
      (marked : List String) (out : List Layer)
    → length layers ≡ prev_round + 1
    → get_elem? layers prev_round ≡ some prev
    → AllDone s out layers
    → run_rounds cancelled s left prev_round layers prev best marked ≡ some out
    → AllDone s out out
unfolding run_rounds
run_rounds-AllDone cancelled s m zero prev_round layers prev best marked out len last h e =
    let same : layers ≡ out = cc in λ i layer f. h i layer (rw same f)
run_rounds-AllDone cancelled s m (suc left) prev_round layers prev best marked out len last h e =
    let w = run_round s prev_round prev best marked in
    let found =
      run_rounds-prefix cancelled s (suc left) prev_round layers prev best marked out e prev_round
        prev last in
    let done =
      run_round-IsDone s out (prev_round + 1) prev_round prev best marked refl m found
        (h prev_round prev last) in
    let all = AllDone-append s out layers w.layer h (rw len done) in
    elim (Bool-cases (cancelled (prev_round + 1))) [
      | inl stopped ↦ cc (rw stopped at e)
      | inr going ↦ elim (Bool-cases (is_empty w.improved)) [
        | inl quiet ↦
            let ends : some (layers ++ w.layer ∷ []) ≡ some out = rw (going, quiet) at e in
            let same : layers ++ w.layer ∷ [] ≡ out = cc in λ i layer f. all i layer (rw same f)
        | inr busy ↦
            run_rounds-AllDone cancelled s m left (prev_round + 1) (layers ++ w.layer ∷ []) w.layer
              w.best w.improved out (omega (arith, length-append layers (w.layer ∷ [])))
              (rw (← len) (get_elem?-length layers w.layer)) all (rw (going, busy) at e)
      ]
    ]

search_layers-IsDone :
    (cancelled : ℕ → Bool) (s : SearchState)
    → IsMeasured s.routes
    → (layers : List Layer) → search_layers cancelled s ≡ some layers
    → AllDone s layers layers
unfolding search_layers
search_layers-IsDone cancelled s m layers e =
    let w = round_zero s in
    run_rounds-AllDone cancelled s m s.rounds 0 (w.layer ∷ []) w.layer w.best w.improved layers
      (omega arith) refl only_zero e
  where
    only_zero : AllDone s layers ((round_zero s).layer ∷ [])
    only_zero zero l g =
        let same : (round_zero s).layer ≡ l = cc in
        rw (← same) (round_zero-IsSound s, round_zero-AreLinked s layers)
    only_zero (suc i) l g = cc

-- Over a buffer whose FIFO marks were measured, every label of round k of a search is the time of a
-- journey with at most k vehicles that the timetable, the seat filter and the transfer time allow
-- and that never walks twice in a row. Where the journal has an entry for a station, the label is
-- the arrival of the entry, and the entry names a real last leg: either a usable trip of a route of
-- the timetable, by the trip's key and the route's id, with its departure at a station that such a
-- journey reaches in the earlier round named, in time to board, and its arrival; or a footpath from
-- a station that such a journey reaches at the entry's departure, not on foot, in a round up to k.
-- The entries that are set aside when walks are written name a real last leg too.
pub search_layers-IsSound :
    (cancelled : ℕ → Bool) (s : SearchState)
    → IsMeasured s.routes
    → (layers : List Layer) → search_layers cancelled s ≡ some layers
    → (k : ℕ) (layer : Layer) → get_elem? layers k ≡ some layer
    → IsSound s k layer
search_layers-IsSound cancelled s m layers e k layer f =
    (search_layers-IsDone cancelled s m layers e k layer f).0

-- Every ride that a round of such a search records was caught in the round that it names.
pub search_layers-AreLinked :
    (cancelled : ℕ → Bool) (s : SearchState)
    → IsMeasured s.routes
    → (layers : List Layer) → search_layers cancelled s ≡ some layers
    → (k : ℕ) (layer : Layer) → get_elem? layers k ≡ some layer
    → AreLinked s layers layer
search_layers-AreLinked cancelled s m layers e k layer f =
    (search_layers-IsDone cancelled s m layers e k layer f).1
