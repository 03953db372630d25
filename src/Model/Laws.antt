-- ===== src/Model/Laws.antt =====
-- internal/model/types.go: the round limit and the dominance order.
use multi_agent_travel.Model.{max_allowed_rounds, SearchParams, JourneyPath, rounds, dominates}
use multi_agent_travel.Prelude.{◌≡◌, true, false, arith, eq_ℕ, eq_String}
use multi_agent_travel.Prelude.Int.{pos, ◌≤ℤ◌, eq_ℤ}

-- Whatever a caller asks for, Rounds() is between 1 and 8.
pub rounds_bound : (p : SearchParams) → (pos 1 ≤ℤ rounds p) × (rounds p ≤ℤ max_allowed_rounds)
unfolding rounds
rounds_bound p = ground arith

-- Dominates is a strict order: it is transitive, and of two journeys at most one dominates the
-- other.
pub dominates_order :
    (p q r : JourneyPath)
    → dominates p q ≡ true
    → dominates q r ≡ true
    → (dominates p r ≡ true) × (dominates q p ≡ false)
unfolding dominates
dominates_order p q r h k = ground arith
