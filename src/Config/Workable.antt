-- ===== src/Config/Workable.antt =====
-- internal/config/config.go: what Validate accepts.
use multi_agent_travel.Config.{Problem, validate, reported, is_outside, is_level, checks, Config}
use multi_agent_travel.Prelude.{
  String, ◌≡◌, refl, ◌≢◌, ◌↔◌, ◌⊎◌, Bool, true, false, not, ◌&&◌, ◌||◌, List, [], ◌∷◌, arith, ◌==◌,
  eq_ℕ, eq_String, All,
}
use multi_agent_travel.Prelude.Int.{ℤ, pos, ltb_ℤ, ◌≤ℤ◌, eq_ℤ}

-- What a configuration has to be for the process to run.
pub record IsWorkable (c : Config) : Type 0 where
  pub database_named : c.pg_dsn ≢ ""
  pub has_conns : pos 1 ≤ℤ c.pg_max_conns
  pub has_workers : pos 1 ≤ℤ c.asynq_concurrency
  pub rounds_bound : (pos 1 ≤ℤ c.max_rounds) × (c.max_rounds ≤ℤ pos 8)
  pub transfer_bound : pos 0 ≤ℤ c.min_transfer_seconds
  pub window_bound : (pos 0 ≤ℤ c.date_window_days) × (c.date_window_days ≤ℤ pos 30)
  pub has_results : pos 1 ≤ℤ c.search_results
  pub enough_candidates : c.search_results ≤ℤ c.search_candidates
  pub walk_bound : (pos 0 ≤ℤ c.max_walk_seconds) × (c.max_walk_seconds ≤ℤ pos 7_200)
  pub has_footpaths : pos 1 ≤ℤ c.max_footpaths_per_station
  pub chunk_bound : (pos 1 ≤ℤ c.redis_mget_chunk) × (c.redis_mget_chunk ≤ℤ pos 10_000)
  pub batch_bound : (pos 1 ≤ℤ c.stream_batch_size) × (c.stream_batch_size ≤ℤ pos 10_000)
  pub breaker_on : pos 1 ≤ℤ c.breaker_threshold
  pub rate_bound : pos 0 ≤ℤ c.rate_limit_per_min
  pub provider_known :
      (c.seat_provider ≡ "mock") ⊎ ((c.seat_provider ≡ "http") × (c.seat_api_base_url ≢ ""))
  pub level_known :
      (c.log_level ≡ "debug")
      ⊎ (c.log_level ≡ "info")
      ⊎ (c.log_level ≡ "warn")
      ⊎ (c.log_level ≡ "error")

reported_iff : (cs : List (Bool × Problem)) → (reported cs ≡ []) ↔ All (λ e. e.0 ≡ false) cs
unfolding reported
reported_iff [] = (λ h. tt, λ h. refl)
reported_iff ((true, p) ∷ cs) = (λ h. cc, λ h. cc)
reported_iff ((false, p) ∷ cs) = (λ h. (refl, (reported_iff cs).0 h), λ h. (reported_iff cs).1 h.1)

not_ltb_iff : (a b : ℤ) → (ltb_ℤ a b ≡ false) ↔ (b ≤ℤ a)
not_ltb_iff a b = (λ h. ground arith, λ h. ground arith)

inside_iff : (low high n : ℤ) → (is_outside low high n ≡ false) ↔ ((low ≤ℤ n) × (n ≤ℤ high))
inside_iff low high n = (λ h. ground arith, λ h. ground arith)

named_iff : (s t : String) → ((s == t) ≡ false) ↔ (s ≢ t)
named_iff s t =
    (λ h. ground (arith, eq_String.decides s t), λ h. ground (arith, eq_String.decides s t))

provider_iff :
    (p url : String)
    → (((p == "http" && url == "") ≡ false) × (not (p == "mock" || p == "http") ≡ false))
      ↔ ((p ≡ "mock") ⊎ ((p ≡ "http") × (url ≢ "")))
provider_iff p url = ground (
  arith,
  eq_String.decides p "mock",
  eq_String.decides p "http",
  eq_String.decides url "",
  mock_http,
)
  where
    mock_http : ◌≢◌ {A = String} "mock" "http"
    mock_http e = absurd (ground (arith, (eq_String.decides "mock" "http").1 e))

level_iff :
    (l : String)
    → (not (is_level l) ≡ false) ↔ ((l ≡ "debug") ⊎ (l ≡ "info") ⊎ (l ≡ "warn") ⊎ (l ≡ "error"))
level_iff l = ground (
  arith,
  eq_String.decides l "debug",
  eq_String.decides l "info",
  eq_String.decides l "warn",
  eq_String.decides l "error",
)

IsWorkable-of_checks : (c : Config) → All (λ e. e.0 ≡ false) (checks c) → IsWorkable c
unfolding checks
IsWorkable-of_checks c h =
    let (
      h0,
      (
        h1,
        (
          h2,
          (
            h3,
            (
              h4,
              (h5, (h6, (h7, (h8, (h9, (h10, (h11, (h12, (h13, (h14, (h15, (h16, end)))))))))))),
            ),
          ),
        ),
      ),
    ) =
      h in
    record {
      database_named = (named_iff c.pg_dsn "").0 h0;
      has_conns = (not_ltb_iff c.pg_max_conns (pos 1)).0 h1;
      has_workers = (not_ltb_iff c.asynq_concurrency (pos 1)).0 h2;
      rounds_bound = (inside_iff (pos 1) (pos 8) c.max_rounds).0 h3;
      transfer_bound = (not_ltb_iff c.min_transfer_seconds (pos 0)).0 h4;
      window_bound = (inside_iff (pos 0) (pos 30) c.date_window_days).0 h5;
      has_results = (not_ltb_iff c.search_results (pos 1)).0 h6;
      enough_candidates = (not_ltb_iff c.search_candidates c.search_results).0 h7;
      walk_bound = (inside_iff (pos 0) (pos 7_200) c.max_walk_seconds).0 h8;
      has_footpaths = (not_ltb_iff c.max_footpaths_per_station (pos 1)).0 h9;
      chunk_bound = (inside_iff (pos 1) (pos 10_000) c.redis_mget_chunk).0 h10;
      batch_bound = (inside_iff (pos 1) (pos 10_000) c.stream_batch_size).0 h11;
      breaker_on = (not_ltb_iff c.breaker_threshold (pos 1)).0 h12;
      rate_bound = (not_ltb_iff c.rate_limit_per_min (pos 0)).0 h13;
      provider_known = (provider_iff c.seat_provider c.seat_api_base_url).0 (h14, h15);
      level_known = (level_iff c.log_level).0 h16;
    }

checks_of_workable : (c : Config) → IsWorkable c → All (λ e. e.0 ≡ false) (checks c)
unfolding checks
checks_of_workable c w =
    let provider = (provider_iff c.seat_provider c.seat_api_base_url).1 w.provider_known in
    (
      (named_iff c.pg_dsn "").1 w.database_named,
      (
        (not_ltb_iff c.pg_max_conns (pos 1)).1 w.has_conns,
        (
          (not_ltb_iff c.asynq_concurrency (pos 1)).1 w.has_workers,
          (
            (inside_iff (pos 1) (pos 8) c.max_rounds).1 w.rounds_bound,
            (
              (not_ltb_iff c.min_transfer_seconds (pos 0)).1 w.transfer_bound,
              (
                (inside_iff (pos 0) (pos 30) c.date_window_days).1 w.window_bound,
                (
                  (not_ltb_iff c.search_results (pos 1)).1 w.has_results,
                  (
                    (not_ltb_iff c.search_candidates c.search_results).1 w.enough_candidates,
                    (
                      (inside_iff (pos 0) (pos 7_200) c.max_walk_seconds).1 w.walk_bound,
                      (
                        (not_ltb_iff c.max_footpaths_per_station (pos 1)).1 w.has_footpaths,
                        (
                          (inside_iff (pos 1) (pos 10_000) c.redis_mget_chunk).1 w.chunk_bound,
                          (
                            (inside_iff (pos 1) (pos 10_000) c.stream_batch_size).1 w.batch_bound,
                            (
                              (not_ltb_iff c.breaker_threshold (pos 1)).1 w.breaker_on,
                              (
                                (not_ltb_iff c.rate_limit_per_min (pos 0)).1 w.rate_bound,
                                (
                                  provider.0,
                                  (provider.1, ((level_iff c.log_level).1 w.level_known, tt)),
                                ),
                              ),
                            ),
                          ),
                        ),
                      ),
                    ),
                  ),
                ),
              ),
            ),
          ),
        ),
      ),
    )

-- Validate finds no problem exactly in a configuration that names the database, gives every limit a
-- value within its bounds, asks for at least as many candidates as results, knows its seat provider,
-- with the address of an HTTP one, and knows its log level.
pub validate_iff : (c : Config) → (validate c ≡ []) ↔ IsWorkable c
unfolding validate
validate_iff c = (
  λ h. IsWorkable-of_checks c ((reported_iff (checks c)).0 h),
  λ w. (reported_iff (checks c)).1 (checks_of_workable c w),
)
