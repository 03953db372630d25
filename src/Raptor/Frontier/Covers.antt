-- ===== src/Raptor/Frontier/Covers.antt =====
-- internal/raptor/engine.go: the frontier leaves out no journey that is not matched.
use multi_agent_travel.Raptor.Frontier.{path_fingerprint, pareto_from, deduplicate_from}
use multi_agent_travel.Prelude.GoMap.{member}
use multi_agent_travel.Model.{JourneyPath}
use multi_agent_travel.Prelude.{
  Any, ℕ, ◌≤◌, ◌<◌, String, ◌≡◌, ◌⊎◌, inl, inr, true, List, [], ◌∷◌, Bool-cases, eq_ℕ, eq_String,
  All,
}
use multi_agent_travel.Prelude.Int.{◌≤ℤ◌, eq_ℤ}

-- q arrives no later than p and needs no more transfers.
abbrev pub AsGood : JourneyPath → JourneyPath → Type 0
AsGood p q = (q.arrival_unix ≤ℤ p.arrival_unix) × (q.transfers ≤ p.transfers)

abbrev Covered : ℕ → List JourneyPath → JourneyPath → Type 0
Covered best ps p = p.transfers < best → Any (AsGood p) (pareto_from best ps)

abbrev SamePrint : JourneyPath → JourneyPath → Type 0
SamePrint p q = path_fingerprint q ≡ path_fingerprint p

abbrev Represented : List String → List JourneyPath → JourneyPath → Type 0
Represented seen ps p =
    (member (path_fingerprint p) seen ≡ true) ⊎ Any (SamePrint p) (deduplicate_from seen ps)

pub All-deduplicate_from :
    (P : JourneyPath → Type 0) (seen : List String) (ps : List JourneyPath)
    → All P ps
    → All P (deduplicate_from seen ps)
unfolding deduplicate_from
All-deduplicate_from P seen [] h = tt
All-deduplicate_from P seen (p ∷ ps) h = elim (Bool-cases (member (path_fingerprint p) seen)) [
  | inl again ↦ rw again (All-deduplicate_from P seen ps h.1)
  | inr new ↦ rw new (h.0, All-deduplicate_from P (path_fingerprint p ∷ seen) ps h.1)
]
