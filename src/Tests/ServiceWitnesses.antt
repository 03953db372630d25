-- ===== src/Tests/ServiceWitnesses.antt =====
-- The theorems on the configuration, the publication and the polling zones at concrete inputs.
use multi_agent_travel.Tests.Network.{tiny_routes}
use multi_agent_travel.Zone.{classify_zone_mono, classify_zone}
use multi_agent_travel.Schedule.Buffer.{RouteBuffer}
use multi_agent_travel.Config.Workable.{validate_iff, IsWorkable}
use multi_agent_travel.Config.{Config}
use multi_agent_travel.Config
use multi_agent_travel.Schedule.Publish.{publish-IsHashed, publish, initial}
use multi_agent_travel.Prelude.{
  ◌≤◌, String, ◌≡◌, refl, ◌≢◌, ◌↔◌, inl, true, false, [], arith, if◌then◌else◌, eq_ℕ, eq_String,
  is_empty,
}
use multi_agent_travel.Prelude.Int.{◌-ℤ◌, pos, eq_ℤ}

abbrev pub sample_config : Config
sample_config = record {
  pg_dsn = "postgres://db";
  pg_max_conns = pos 10;
  migrations_dir = "./migrations";
  auto_migrate = true;
  redis_url = "redis://localhost";
  redis_addr = "localhost:6379";
  redis_password = "";
  redis_db = pos 0;
  http_port = "8080";
  http_read_timeout = pos 15;
  request_timeout = pos 10;
  body_limit_bytes = pos 1_048_576;
  rate_limit_per_min = pos 600;
  cors_origins = "*";
  web_root = "./web";
  asynq_concurrency = pos 20;
  watcher_interval = pos 30;
  max_walk_seconds = pos 900;
  max_footpaths_per_station = pos 64;
  classify_interval = pos 300;
  seat_provider = "mock";
  seat_api_base_url = "";
  seat_api_key = "";
  seat_api_timeout = pos 5;
  redis_mget_chunk = pos 512;
  stream_batch_size = pos 500;
  min_resync_interval = pos 30;
  max_rounds = pos 4;
  min_transfer_seconds = pos 0;
  date_window_days = pos 2;
  search_candidates = pos 9;
  search_results = pos 5;
  strict_seat_mode = false;
  breaker_threshold = pos 5;
  breaker_cooldown = pos 15;
  log_level = "info";
  log_format = "text";
}

Config_validate_iff_example : (Config.validate sample_config ≡ []) ↔ IsWorkable sample_config
Config_validate_iff_example = validate_iff sample_config

-- A hash that counts the routes.
abbrev count_digest : RouteBuffer → String
count_digest b = if is_empty b.routes then "none" else "some"

publish-IsHashed_example :
    (count_digest (publish count_digest tiny_routes initial).live ≡ "some")
    × ((publish count_digest tiny_routes initial).hash ≡ "some")
unfolding initial
publish-IsHashed_example = publish-IsHashed count_digest tiny_routes initial digest_named (inl refl)
  where
    digest_named : ◌≢◌ {A = String} "some" ""
    digest_named e = absurd (ground (arith, (eq_String.decides "some" "").1 e))

classify_zone_mono_example :
    (classify_zone (pos 50_000) (pos 10_000)).interval
    ≤ (classify_zone (pos 500_000) (pos 10_000)).interval
unfolding ◌-ℤ◌
classify_zone_mono_example =
    classify_zone_mono (pos 50_000) (pos 500_000) (pos 10_000) (omega arith)
      (omega arith, omega arith) (omega arith, omega arith)
