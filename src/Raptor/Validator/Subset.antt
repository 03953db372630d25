-- ===== src/Raptor/Validator/Subset.antt =====
-- internal/raptor/validator.go: Validate returns candidates only.
use multi_agent_travel.Raptor.Validator.Confirmed.{first_results-All}
use multi_agent_travel.Raptor.Validator.Verdicts.{truncate-first_results}
use multi_agent_travel.Breaker.{allow}
use multi_agent_travel.Raptor.Validator.{
  validate, truncate, seat_keys, fetch, is_full, Validator, Redis, unavailable, survivors,
  ask_redis,
}
use multi_agent_travel.Model.{JourneyPath}
use multi_agent_travel.Prelude.{
  true, ℕ, ◌+◌, String, inl, inr, Bool, List, [], ◌∷◌, Bool-cases, Option-cases, eq_ℕ, eq_String,
  length, is_empty, All,
}
use multi_agent_travel.Prelude.Int.{ℤ, pos_part, eq_ℤ}

survivors-All :
    (P : JourneyPath → Type 0) (max_results : ℤ) (ok : JourneyPath → Bool) (ps : List JourneyPath)
    (n : ℕ)
    → All P ps
    → All P (survivors max_results ok n ps)
unfolding survivors
survivors-All P max_results ok [] n h = tt
survivors-All P max_results ok (p ∷ ps) n h = elim (Bool-cases (ok p)) [
  | inr dropped ↦ rw dropped (survivors-All P max_results ok ps n h.1)
  | inl kept ↦ elim (Bool-cases (is_full max_results (n + 1))) [
    | inl full ↦ rw (kept, full) (h.0, tt)
    | inr room ↦ rw (kept, room) (h.0, survivors-All P max_results ok ps (n + 1) h.1)
  ]
]

truncate-All :
    (P : JourneyPath → Type 0) (v : Validator) (ps : List JourneyPath)
    → All P ps
    → All P (truncate v ps)
truncate-All P v ps h =
    rw (truncate-first_results v ps) (first_results-All P v.cfg.max_results ps h)

unavailable-All :
    (P : JourneyPath → Type 0) (v : Validator) (ps : List JourneyPath)
    → All P ps
    → All P (unavailable v ps)
unfolding unavailable
unavailable-All P v ps h = elim (Bool-cases v.cfg.strict) [
  | inl strict ↦ rw strict tt
  | inr lenient ↦ rw lenient (truncate-All P v ps h)
]

ask_redis-All :
    (P : JourneyPath → Type 0) (redis : Redis) (now : ℤ) (v : Validator) (ps : List JourneyPath)
    (class : String) (count : ℤ) (keys : List String)
    → All P ps
    → All P (ask_redis redis now v ps class count keys).1
unfolding ask_redis
ask_redis-All P redis now v ps class count keys h =
    elim (Option-cases (fetch redis (pos_part v.cfg.mget_chunk) (length keys) 0 keys [])) [
      | inl failed ↦ rw (ask_redis, failed) (unavailable-All P v ps h)
      | inr (cache, e) ↦ rw (ask_redis, e) (survivors-All P v.cfg.max_results _ ps 0 h)
    ]

-- What holds of every candidate holds of every journey that Validate returns, whatever Redis does.
pub validate-All :
    (P : JourneyPath → Type 0) (redis : Redis) (now later : ℤ) (v : Validator)
    (ps : List JourneyPath) (class : String) (count : ℤ)
    → All P ps
    → All P (validate redis now later v ps class count).1
unfolding validate
validate-All P redis now later v [] class count h = tt
validate-All P redis now later v (p ∷ ps) class count h =
    elim (Bool-cases (is_empty (seat_keys (p ∷ ps) []))) [
      | inl keyless ↦ rw keyless (truncate-All P v (p ∷ ps) h)
      | inr keyed ↦ elim (Bool-cases v.has_client) [
        | inr absent ↦ rw (keyed, absent) (unavailable-All P v (p ∷ ps) h)
        | inl client ↦ elim (Bool-cases (allow v.cb now).1) [
          | inr held ↦
              rw (keyed, client, held)
                (unavailable-All P
                  (record { has_client = true; cfg = v.cfg; cb = (allow v.cb now).0 }) (p ∷ ps) h)
          | inl admitted ↦
              rw (keyed, client, admitted)
                (ask_redis-All P redis later
                  (record { has_client = true; cfg = v.cfg; cb = (allow v.cb now).0 }) (p ∷ ps)
                  class count _ h)
        ]
      ]
    ]
