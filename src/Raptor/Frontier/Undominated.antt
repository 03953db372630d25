-- ===== src/Raptor/Frontier/Undominated.antt =====
-- internal/raptor/engine.go and internal/model/types.go: the answer of a search by Path.Dominates.
use multi_agent_travel.Raptor.Rounds.{search_layers}
use multi_agent_travel.Schedule.Buffer.{RouteBuffer}
use multi_agent_travel.Raptor.State.{SignalBuffer}
use multi_agent_travel.Raptor.Frontier.Laws.{extract-IsFrontier, IsFrontier}
use multi_agent_travel.Raptor.Search.{new_search, raptor_search}
use multi_agent_travel.Model.{SearchParams, dominates, JourneyPath}
use multi_agent_travel.Prelude.{
  ℕ, ◌<◌, ◌≡◌, inl, inr, Bool, false, ◌||◌, List, [], ◌∷◌, arith, Bool-cases, Option-cases, ◌==◌,
  eq_ℕ, eq_String, is_empty, All, All-map,
}
use multi_agent_travel.Prelude.Int.{ℤ, ◌<ℤ◌, eq_ℤ}

-- No journey dominates another.
abbrev pub AreUndominated : List JourneyPath → Type 0
AreUndominated [] = Unit
AreUndominated (p ∷ ps) =
    All (λ q. (dominates p q ≡ false) × (dominates q p ≡ false)) ps × AreUndominated ps

IsFrontier-AreUndominated : (ps : List JourneyPath) → IsFrontier ps → AreUndominated ps
unfolding dominates
IsFrontier-AreUndominated [] h = tt
IsFrontier-AreUndominated (p ∷ ps) h = (
  All-map (λ q. (p.arrival_unix <ℤ q.arrival_unix) × (q.transfers < p.transfers)) _
      (λ q k. ground (arith, k.0, k.1)) ps h.0,
  IsFrontier-AreUndominated ps h.1,
)

-- In the answer of RaptorSearch, for any buffers, parameters and topK, no journey dominates another.
pub raptor_search-AreUndominated :
    (cancelled : ℕ → Bool) (signals : SignalBuffer) (routes : RouteBuffer) (params : SearchParams)
    (top_k : ℤ)
    → AreUndominated (raptor_search cancelled signals routes params top_k)
unfolding raptor_search
raptor_search-AreUndominated cancelled signals routes params top_k =
    let s = new_search signals routes params in
    elim (Bool-cases (is_empty routes.routes)) [
      | inl nothing ↦ rw nothing tt
      | inr loaded ↦
          elim (Bool-cases (
            params.origin == ""
            || params.destination == ""
            || params.origin == params.destination)) [
              | inl refused ↦ rw (loaded, refused) tt
              | inr asked ↦ elim (Option-cases (search_layers cancelled s)) [
                | inl stopped ↦ rw (loaded, asked, raptor_search, stopped) tt
                | inr (layers, e) ↦
                    rw (loaded, asked, raptor_search, e)
                      (IsFrontier-AreUndominated _ (extract-IsFrontier s layers top_k))
              ]
            ]
    ]
