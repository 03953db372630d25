-- ===== src/Raptor/Search/Sound.antt =====
-- internal/raptor/engine.go: every journey that RaptorSearch returns is real.
use multi_agent_travel.Raptor.Backtrack.Transfers.{
  build_path-KeepsTransfers, KeepsTransfers, AllLinked,
}
use multi_agent_travel.Raptor.Backtrack.Timetabled.{build_path-IsTimetabled, IsTimetabled, AreSound}
use multi_agent_travel.Raptor.Frontier.Covers.{All-deduplicate_from}
use multi_agent_travel.Raptor.Reach.Rounds.{search_layers-AreLinked, search_layers-IsSound}
use multi_agent_travel.Raptor.Rounds.{search_layers}
use multi_agent_travel.Prelude.Sorting.{All-sort}
use multi_agent_travel.Raptor.Frontier.Laws.{All-pareto_from}
use multi_agent_travel.Raptor.Backtrack.{build_path}
use multi_agent_travel.Schedule.Buffer.{RouteBuffer}
use multi_agent_travel.Raptor.Reach.{entry_leg, Reaches, IsMeasured, LastLeg}
use multi_agent_travel.Raptor.Backtrack.Laws.{build_path-arrival, build_path-IsAnswer, IsAnswer}
use multi_agent_travel.Prelude.GoMap.{lookup}
use multi_agent_travel.Model.{SearchParams, JourneyPath}
use multi_agent_travel.Raptor.State.{SignalBuffer, Layer, SearchState}
use multi_agent_travel.Raptor.Search.{new_search, raptor_search}
use multi_agent_travel.Raptor.Frontier.{
  path_less, max_int32, pareto_filter, deduplicate_paths, truncate_to, frontier, extract_rounds,
  extract, deduplicate_from,
}
use multi_agent_travel.Prelude.{
  All-take, ℕ, suc, ◌+◌, ◌≡◌, refl, sym, inl, inr, Bool, ◌&&◌, ◌||◌, some, List, [], ◌∷◌, arith,
  ltb, Bool-cases, Option-cases, ◌==◌, eq_ℕ, eq_String, length, get_elem?, is_empty, All,
}
use multi_agent_travel.Prelude.Int.{ℤ, pos, pos_part, ltb_ℤ, leb_ℤ, eq_ℤ, max_int64}

-- What a returned journey is: buildPath's promises, each leg is one of the loaded timetable, the
-- transfer time passes between its rides, and the arrival is that of a journey over that timetable
-- with at most as many vehicles as its round.
pub record IsReal (s : SearchState) (p : JourneyPath) : Type 0 where
  pub answer : IsAnswer s p.rounds p
  pub legs_timetabled : All (IsTimetabled s) p.legs
  pub transfers_kept : KeepsTransfers s.xfer_sec p.legs
  pub last : LastLeg
  pub reached : Reaches s p.rounds s.dest p.arrival_unix last

build_path-IsReal :
    (s : SearchState) (layers : List Layer) (k : ℕ) (layer : Layer) (p : JourneyPath)
    → AreSound s layers
    → AllLinked s layers
    → get_elem? layers k ≡ some layer
    → build_path s layers k ≡ some p
    → IsReal s p
build_path-IsReal s layers k layer p sound linked f h =
    let v = sound k layer f in
    let a = build_path-IsAnswer s layers k p h in
    let r = v.reached s.dest p.arrival_unix (build_path-arrival s layers k layer p f v h) in
    record {
      answer = record {
        itinerary = a.itinerary;
        round_bound = a.round_bound;
        transfers_counted = a.transfers_counted;
        departs_first = a.departs_first;
        arrives_last = a.arrives_last;
        round_kept = refl;
      };
      legs_timetabled = build_path-IsTimetabled s layers sound k p h;
      transfers_kept = build_path-KeepsTransfers s layers sound linked k p h;
      last = entry_leg (lookup s.dest layer.journal);
      reached = rw a.round_kept r;
    }

extract_rounds-IsReal :
    (s : SearchState) (all rest : List Layer) (k : ℕ) (best : ℤ)
    → AreSound s all
    → AllLinked s all
    → ((m : ℕ) → get_elem? rest m ≡ get_elem? all (k + m))
    → All (IsReal s) (extract_rounds s all rest k best)
unfolding extract_rounds
extract_rounds-IsReal s all [] k best v n tl = tt
extract_rounds-IsReal s all (layer ∷ rest) k best v n tl =
    let next = λ (m : ℕ).
      let f : k + suc m ≡ k + 1 + m = omega arith in
      let g : get_elem? rest m ≡ get_elem? all (k + 1 + m) = rw (← f) (tl (suc m)) in g in
    let skipped = extract_rounds-IsReal s all rest (k + 1) best v n next in
    let e : k + 0 ≡ k = omega arith in
    let here : get_elem? all k ≡ some layer = rw e at (sym (tl 0)) in
    elim (Option-cases (lookup s.dest layer.tau)) [
      | inl unreached ↦ rw (extract_rounds, unreached) skipped
      | inr (arr, ea) ↦ elim (Bool-cases (leb_ℤ best arr)) [
        | inl late ↦ rw (extract_rounds, ea, late) skipped
        | inr better ↦ elim (Option-cases (build_path s all k)) [
          | inl broken ↦ rw (extract_rounds, ea, better, broken) skipped
          | inr (p, ep) ↦
              rw (extract_rounds, ea, better, ep)
                (
                  build_path-IsReal s all k layer p v n here ep,
                  extract_rounds-IsReal s all rest (k + 1) arr v n next,
                )
        ]
      ]
    ]

All-frontier : (P : JourneyPath → Type 0) (ps : List JourneyPath) → All P ps → All P (frontier ps)
unfolding frontier deduplicate_paths pareto_filter
All-frontier P ps h =
    All-pareto_from P max_int32 _
      (All-sort path_less P (deduplicate_from [] ps) (All-deduplicate_from P [] ps h))

All-truncate_to :
    (P : JourneyPath → Type 0) (top_k : ℤ) (ps : List JourneyPath)
    → All P ps
    → All P (truncate_to top_k ps)
unfolding truncate_to
All-truncate_to P top_k ps h =
    elim (Bool-cases (ltb_ℤ (pos 0) top_k && ltb (pos_part top_k) (length ps))) [
      | inl cut ↦ rw cut (All-take P (pos_part top_k) ps h)
      | inr whole ↦ rw whole h
    ]

pub extract-IsReal :
    (s : SearchState) (layers : List Layer) (top_k : ℤ)
    → AreSound s layers
    → AllLinked s layers
    → All (IsReal s) (extract s layers top_k)
unfolding extract
extract-IsReal s layers top_k v n = All-truncate_to (IsReal s) top_k _ (
    All-frontier (IsReal s) _ (
      extract_rounds-IsReal s layers layers 0 max_int64 v n
        (λ m. let e : m ≡ 0 + m = omega arith in rw (← e))))

-- Every journey that RaptorSearch returns, over a buffer whose FIFO marks were measured: it can be
-- travelled from the origin at the requested time to the destination, within the round limit; its
-- transfers and times agree with its legs; each of its legs is a usable trip of a loaded route, with
-- the trip and route ids and the times that the timetable has at the two stations, or a loaded
-- footpath of the leg's length; between a ride and a ride that comes next at least the transfer time
-- passes; and its arrival is that of a journey over usable trips and footpaths of the loaded
-- timetable, with the transfer time kept, at most as many vehicles as its round, and never two walks
-- in a row. This holds for any date window, seat signals, cancellation and topK.
pub raptor_search-IsReal :
    (cancelled : ℕ → Bool) (signals : SignalBuffer) (routes : RouteBuffer) (params : SearchParams)
    (top_k : ℤ)
    → IsMeasured routes
    → All
        (IsReal (new_search signals routes params))
        (raptor_search cancelled signals routes params top_k)
unfolding raptor_search
raptor_search-IsReal cancelled signals routes params top_k m =
    let s = new_search signals routes params in
    elim (Bool-cases (is_empty routes.routes)) [
      | inl nothing ↦ rw nothing tt
      | inr loaded ↦
          elim (Bool-cases (
            params.origin == ""
            || params.destination == ""
            || params.origin == params.destination)) [
              | inl refused ↦ rw (loaded, refused) tt
              | inr asked ↦ elim (Option-cases (search_layers cancelled s)) [
                | inl stopped ↦ rw (loaded, asked, raptor_search, stopped) tt
                | inr (layers, e) ↦
                    rw (loaded, asked, raptor_search, e)
                      (extract-IsReal s layers top_k
                        (search_layers-IsSound cancelled s (unfold new_search in m) layers e)
                        (search_layers-AreLinked cancelled s (unfold new_search in m) layers e))
              ]
            ]
    ]
