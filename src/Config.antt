-- ===== src/Config.antt =====
-- internal/config/config.go: the configuration and its check at boot. A duration is in nanoseconds.
pub mod Workable
use multi_agent_travel.Model.{max_allowed_rounds}
use multi_agent_travel.Prelude.{
  arith, String, ◌≡◌, refl, ◌≢◌, ◌↔◌, ◌⊎◌, Bool, true, false, not, ◌&&◌, ◌||◌, List, [], ◌∷◌,
  if◌then◌else◌, ◌==◌, eq_ℕ, eq_String, All,
}
use multi_agent_travel.Prelude.Int.{ℤ, pos, ltb_ℤ, ◌≤ℤ◌, eq_ℤ}

pub record Config : Type 0 where
  pub pg_dsn : String
  pub pg_max_conns : ℤ
  pub migrations_dir : String
  pub auto_migrate : Bool
  pub redis_url : String
  pub redis_addr : String
  pub redis_password : String
  pub redis_db : ℤ
  pub http_port : String
  pub http_read_timeout : ℤ
  pub request_timeout : ℤ
  pub body_limit_bytes : ℤ
  pub rate_limit_per_min : ℤ
  pub cors_origins : String
  pub web_root : String
  pub asynq_concurrency : ℤ
  pub watcher_interval : ℤ
  pub max_walk_seconds : ℤ
  pub max_footpaths_per_station : ℤ
  pub classify_interval : ℤ
  pub seat_provider : String
  pub seat_api_base_url : String
  pub seat_api_key : String
  pub seat_api_timeout : ℤ
  pub redis_mget_chunk : ℤ
  pub stream_batch_size : ℤ
  pub min_resync_interval : ℤ
  pub max_rounds : ℤ
  pub min_transfer_seconds : ℤ
  pub date_window_days : ℤ
  pub search_candidates : ℤ
  pub search_results : ℤ
  pub strict_seat_mode : Bool
  pub breaker_threshold : ℤ
  pub breaker_cooldown : ℤ
  pub log_level : String
  pub log_format : String

-- One for each message of Validate.
pub data Problem : Type 0 where
  no_pg_dsn few_conns no_workers bad_rounds bad_transfer bad_window few_results few_candidates :
      Problem
  bad_walk few_footpaths bad_chunk bad_batch bad_threshold bad_rate no_base_url bad_provider :
      Problem
  bad_level : Problem

-- Outside the bounds, which are included.
abbrev pub is_outside : ℤ → ℤ → ℤ → Bool
is_outside low high n = ltb_ℤ n low || ltb_ℤ high n

abbrev pub is_level : String → Bool
is_level l = l == "debug" || l == "info" || l == "warn" || l == "error"

-- The conditions in the order of the source, with what each reports.
unfoldable pub checks : Config → List (Bool × Problem)
checks c =
    (c.pg_dsn == "", no_pg_dsn)
    ∷ (ltb_ℤ c.pg_max_conns (pos 1), few_conns)
    ∷ (ltb_ℤ c.asynq_concurrency (pos 1), no_workers)
    ∷ (is_outside (pos 1) max_allowed_rounds c.max_rounds, bad_rounds)
    ∷ (ltb_ℤ c.min_transfer_seconds (pos 0), bad_transfer)
    ∷ (is_outside (pos 0) (pos 30) c.date_window_days, bad_window)
    ∷ (ltb_ℤ c.search_results (pos 1), few_results)
    ∷ (ltb_ℤ c.search_candidates c.search_results, few_candidates)
    ∷ (is_outside (pos 0) (pos 7_200) c.max_walk_seconds, bad_walk)
    ∷ (ltb_ℤ c.max_footpaths_per_station (pos 1), few_footpaths)
    ∷ (is_outside (pos 1) (pos 10_000) c.redis_mget_chunk, bad_chunk)
    ∷ (is_outside (pos 1) (pos 10_000) c.stream_batch_size, bad_batch)
    ∷ (ltb_ℤ c.breaker_threshold (pos 1), bad_threshold)
    ∷ (ltb_ℤ c.rate_limit_per_min (pos 0), bad_rate)
    ∷ (c.seat_provider == "http" && c.seat_api_base_url == "", no_base_url)
    ∷ (not (c.seat_provider == "mock" || c.seat_provider == "http"), bad_provider)
    ∷ (not (is_level c.log_level), bad_level)
    ∷ []

unfoldable pub reported : List (Bool × Problem) → List Problem
reported [] = []
reported ((wrong, p) ∷ cs) = let rest = reported cs in if wrong then p ∷ rest else rest

-- Validate; the empty list is a nil error.
unfoldable pub validate : Config → List Problem
unfolding checks reported
validate c = reported (checks c)
