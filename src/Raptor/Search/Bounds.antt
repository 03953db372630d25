-- ===== src/Raptor/Search/Bounds.antt =====
-- internal/raptor/engine.go: how many rounds a search runs.
use multi_agent_travel.Prelude.GoMap.{GoMap}
use multi_agent_travel.Prelude.{eq_ℕ, eq_String}
use multi_agent_travel.Prelude.Int.{eq_ℤ}
