-- ===== src/Raptor/Frontier.antt =====
-- internal/raptor/engine.go: extract, deduplicatePaths and paretoFilter.
pub mod Laws
pub mod Undominated
pub mod Covers
use Prim.Native.String.{◌++◌ as append}
use multi_agent_travel.Prelude.{
  ℕ, suc, ◌+◌, String, Bool, true, false, List, [], ◌∷◌, Option, none, some, if◌then◌else◌, ◌&&◌,
  eq_String, ltb, length, take,
}
use multi_agent_travel.Prelude.Int.{ℤ, pos, pos_part, eqb_ℤ, ltb_ℤ, leb_ℤ, max_int64}
use multi_agent_travel.Prelude.GoMap.{lookup, member}
use multi_agent_travel.Prelude.Sorting.{sort}
use multi_agent_travel.Model.{Leg, JourneyPath}
use multi_agent_travel.Raptor.State.{SearchState, Layer}
use multi_agent_travel.Raptor.Backtrack.{build_path}

-- The loop over the rounds, from round k on, with `bestSoFar`. A round that was never run has no
-- layer; `all` are the layers that buildPath walks back through.
unfoldable pub extract_rounds : SearchState → List Layer → List Layer → ℕ → ℤ → List JourneyPath
extract_rounds s all [] k best_so_far = []
extract_rounds s all (layer ∷ layers) k best_so_far =
    let skipped = extract_rounds s all layers (k + 1) best_so_far in
    elim (lookup s.dest layer.tau) [
      | none ↦ skipped
      | some arr ↦ elim (leb_ℤ best_so_far arr) [
        | true ↦ skipped
        | false ↦ elim (build_path s all k) [
          | none ↦ skipped
          | some p ↦ p ∷ extract_rounds s all layers (k + 1) arr
        ]
      ]
    ]

unfoldable pub legs_fingerprint : List Leg → String
legs_fingerprint [] = ""
legs_fingerprint (l ∷ ls) = append l.route_id (
    append "|" (
      append l.trip_id (
        append "|" (
          append l.board_station
            (append ">" (append l.alight_station (append ";" (legs_fingerprint ls))))))))

unfoldable pub path_fingerprint : JourneyPath → String
unfolding legs_fingerprint
path_fingerprint p = legs_fingerprint p.legs

-- The loop of deduplicatePaths, with the fingerprints seen.
unfoldable pub deduplicate_from : List String → List JourneyPath → List JourneyPath
deduplicate_from seen [] = []
deduplicate_from seen (p ∷ ps) =
    let fresh = p ∷ deduplicate_from (path_fingerprint p ∷ seen) ps in
    let repeated = deduplicate_from seen ps in
    if member (path_fingerprint p) seen then repeated else fresh

unfoldable pub deduplicate_paths : List JourneyPath → List JourneyPath
unfolding deduplicate_from
deduplicate_paths ps = deduplicate_from [] ps

-- The order of sort.SliceStable: by arrival, then by transfers.
unfoldable pub path_less : JourneyPath → JourneyPath → Bool
path_less p q =
    if eqb_ℤ p.arrival_unix q.arrival_unix
    then ltb p.transfers q.transfers
    else ltb_ℤ p.arrival_unix q.arrival_unix

abbrev pub max_int32 : ℕ
max_int32 = 2_147_483_647

-- The loop of paretoFilter, with `bestTransfers`.
unfoldable pub pareto_from : ℕ → List JourneyPath → List JourneyPath
pareto_from best [] = []
pareto_from best (p ∷ ps) =
    let kept = p ∷ pareto_from p.transfers ps in
    let dropped = pareto_from best ps in if ltb p.transfers best then kept else dropped

unfoldable pub pareto_filter : List JourneyPath → List JourneyPath
unfolding pareto_from
pareto_filter ps = pareto_from max_int32 ps

-- `out[:topK]`, if topK is positive and shorter.
unfoldable pub truncate_to : ℤ → List JourneyPath → List JourneyPath
truncate_to top_k ps =
    if ltb_ℤ (pos 0) top_k && ltb (pos_part top_k) (length ps) then take (pos_part top_k) ps else ps

unfoldable pub frontier : List JourneyPath → List JourneyPath
unfolding deduplicate_paths path_less pareto_filter sort
frontier ps = pareto_filter (sort path_less (deduplicate_paths ps))

unfoldable pub extract : SearchState → List Layer → ℤ → List JourneyPath
unfolding extract_rounds frontier truncate_to
extract s layers top_k = truncate_to top_k (frontier (extract_rounds s layers layers 0 max_int64))
