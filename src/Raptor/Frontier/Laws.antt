-- ===== src/Raptor/Frontier/Laws.antt =====
-- internal/raptor/engine.go: what the frontier of a search is.
use multi_agent_travel.Prelude.Sorted.{sort-IsSorted}
use multi_agent_travel.Raptor.State.{Layer, SearchState}
use multi_agent_travel.Prelude.Sorting.{IsSorted}
use multi_agent_travel.Raptor.Frontier.{
  deduplicate_paths, max_int32, extract_rounds, pareto_filter, frontier, truncate_to, path_less,
  pareto_from, extract,
}
use multi_agent_travel.Model.{JourneyPath}
use multi_agent_travel.Prelude.{
  ltb→lt, All-take, ℕ, zero, suc, ◌<◌, ◌≡◌, inl, inr, true, false, ◌&&◌, List, [], ◌∷◌, arith, ltb,
  Bool-cases, eq_ℕ, eq_String, length, take, All, All-map,
}
use multi_agent_travel.Prelude.Int.{ℤ, pos, pos_part, ltb_ℤ, ◌<ℤ◌, eq_ℤ, max_int64}

-- Each journey arrives strictly before every later one and needs strictly more transfers, so none
-- is as good as another.
abbrev pub IsFrontier : List JourneyPath → Type 0
IsFrontier [] = Unit
IsFrontier (p ∷ ps) =
    All (λ q. (p.arrival_unix <ℤ q.arrival_unix) × (q.transfers < p.transfers)) ps × IsFrontier ps

pub path_less-asym : (p q : JourneyPath) → path_less p q ≡ true → path_less q p ≡ false
unfolding path_less
path_less-asym p q h = ground arith

pub path_less-weak :
    (p q r : JourneyPath) → path_less q p ≡ false → path_less r q ≡ false → path_less r p ≡ false
unfolding path_less
path_less-weak p q r h k = ground arith

pareto_from-below :
    (best : ℕ) (ps : List JourneyPath) → All (λ q. q.transfers < best) (pareto_from best ps)
unfolding pareto_from
pareto_from-below best [] = tt
pareto_from-below best (p ∷ ps) = elim (Bool-cases (ltb p.transfers best)) [
  | inl kept ↦ rw kept (
    ltb→lt p.transfers best kept,
    All-map (λ q. q.transfers < p.transfers) (λ q. q.transfers < best)
        (λ q h. omega (arith, h, ltb→lt p.transfers best kept)) _
        (pareto_from-below p.transfers ps),
  )
  | inr dropped ↦ rw dropped (pareto_from-below best ps)
]

pub All-pareto_from {κ} :
    (P : JourneyPath → Type κ) (best : ℕ) (ps : List JourneyPath)
    → All P ps
    → All P (pareto_from best ps)
unfolding pareto_from
All-pareto_from P best [] h = tt
All-pareto_from P best (p ∷ ps) h = elim (Bool-cases (ltb p.transfers best)) [
  | inl kept ↦ rw kept (h.0, All-pareto_from P p.transfers ps h.1)
  | inr dropped ↦ rw dropped (All-pareto_from P best ps h.1)
]

All-both :
    (P Q R : JourneyPath → Type 0)
    → ((q : JourneyPath) → P q → Q q → R q)
    → (ps : List JourneyPath) → All P ps
    → All Q ps
    → All R ps
All-both P Q R f [] h k = tt
All-both P Q R f (p ∷ ps) h k = (f p h.0 k.0, All-both P Q R f ps h.1 k.1)

after_fewer :
    (p q : JourneyPath)
    → path_less q p ≡ false
    → q.transfers < p.transfers
    → (p.arrival_unix <ℤ q.arrival_unix) × (q.transfers < p.transfers)
unfolding path_less
after_fewer p q h lt = (ground arith, lt)

pareto_from-IsFrontier :
    (best : ℕ) (ps : List JourneyPath) → IsSorted path_less ps → IsFrontier (pareto_from best ps)
unfolding pareto_from
pareto_from-IsFrontier best [] h = tt
pareto_from-IsFrontier best (p ∷ ps) h = elim (Bool-cases (ltb p.transfers best)) [
  | inr dropped ↦ rw dropped (pareto_from-IsFrontier best ps h.1)
  | inl kept ↦ rw kept (
    All-both (λ q. path_less q p ≡ false) (λ q. q.transfers < p.transfers) _ (after_fewer p)
        (pareto_from p.transfers ps)
        (All-pareto_from (λ q. path_less q p ≡ false) p.transfers ps h.0)
        (pareto_from-below p.transfers ps),
    pareto_from-IsFrontier p.transfers ps h.1,
  )
]

IsFrontier-take : (n : ℕ) (ps : List JourneyPath) → IsFrontier ps → IsFrontier (take n ps)
IsFrontier-take zero ps h = tt
IsFrontier-take (suc n) [] h = tt
IsFrontier-take (suc n) (p ∷ ps) h = (All-take _ n ps h.0, IsFrontier-take n ps h.1)

-- Whatever was found, the answer of extract is a frontier, best arrival first: of any two journeys
-- the earlier in the list arrives strictly earlier and needs strictly more transfers.
pub extract-IsFrontier :
    (s : SearchState) (layers : List Layer) (top_k : ℤ) → IsFrontier (extract s layers top_k)
unfolding extract truncate_to frontier pareto_filter
extract-IsFrontier s layers top_k =
    let ps = frontier (extract_rounds s layers layers 0 max_int64) in
    let sorted = pareto_from-IsFrontier max_int32 _ (
      sort-IsSorted path_less path_less-asym path_less-weak
        (deduplicate_paths (extract_rounds s layers layers 0 max_int64))) in
    elim (Bool-cases (ltb_ℤ (pos 0) top_k && ltb (pos_part top_k) (length ps))) [
      | inl cut ↦ rw cut (IsFrontier-take (pos_part top_k) ps sorted)
      | inr whole ↦ rw whole sorted
    ]
