-- ===== src/Raptor/Validator.antt =====
-- internal/raptor/validator.go: Validator, the authoritative seat gate. Redis and the JSON decoder
-- are a parameter: what the i-th MGET of a call answers, and what a stored text decodes to.
pub mod Subset
pub mod Answers
pub mod Keys
pub mod Verdicts
pub mod Confirmed
use multi_agent_travel.Prelude.GoMap.{lookup_or, add_member, insert, GoMap}
use multi_agent_travel.Model.SeatKeys.{seat_map_key}
use multi_agent_travel.Model.{walk_route_id, is_transit, Leg, JourneyPath}
use multi_agent_travel.Prelude.{
  ℕ, zero, suc, ◌+◌, ◌-◌, ◌*◌, ◌/◌, ◌≤◌, ◌<◌, String, ◌≡◌, refl, sym, ap, ◌∙◌, ◌≢◌, ◌↔◌, ◌⊎◌, inl,
  inr, Bool, true, false, not, ◌&&◌, ◌||◌, Option, none, some, List, [], ◌∷◌, ◌++◌, map, arith, ltb,
  leb, nat_eq, if◌then◌else◌, Bool-cases, Option-cases, ◌==◌, Eq, eq_ℕ, eq_String, eq→≡, ==_refl,
  length, get_elem?, take, drop, is_empty, All, All-map, All-get, All-append,
}
use multi_agent_travel.Breaker
use multi_agent_travel.Breaker.{Breaker, State}
use multi_agent_travel.Prelude.Int.{
  ℤ, pos, negsuc, pos_part, neg_part, ltb_ℤ, leb_ℤ, ◌≤ℤ◌, ◌<ℤ◌, eq_ℤ, add64, max_int64,
}

-- A value of an MGET reply: nil, something that is no string, or a string.
pub data SeatValue : Type 0 where
  missing not_text : SeatValue
  text : String → SeatValue

-- `mget` is none where the call returns an error; `decode` is none where json.Unmarshal fails or
-- yields a nil map.
pub record Redis : Type 0 where
  pub mget : ℕ → List String → Option (List SeatValue)
  pub decode : String → Option (GoMap String ℤ)

pub record ValidatorConfig : Type 0 where
  pub strict : Bool
  pub mget_chunk : ℤ
  pub max_results : ℤ
  pub breaker_threshold : ℤ
  pub breaker_cooldown : ℤ

-- `has_client` is `rdb != nil`.
pub record Validator : Type 0 where
  pub has_client : Bool
  pub cfg : ValidatorConfig
  pub cb : Breaker

abbrev pub default_mget_chunk : ℤ
default_mget_chunk = pos 512

unfoldable pub new_validator : Bool → ValidatorConfig → Validator
new_validator has_client cfg = record {
  has_client = has_client;
  cfg =
      if leb_ℤ cfg.mget_chunk (pos 0) then record cfg { mget_chunk = default_mget_chunk } else cfg;
  cb = Breaker.new cfg.breaker_threshold cfg.breaker_cooldown;
}

-- Status and Healthy.
unfoldable pub status : Validator → ℤ → Option State
status v now = if v.has_client then some (Breaker.current_state v.cb now) else none

unfoldable pub healthy : Validator → ℤ → Bool
healthy v now = if v.has_client then Breaker.healthy v.cb now else false

-- A leg that is walked needs no seat.
unfoldable pub needs_seat : Leg → Bool
needs_seat leg = not (not (is_transit leg.kind) || leg.route_id == walk_route_id)

unfoldable pub leg_key : Leg → String
unfolding seat_map_key
leg_key leg = seat_map_key leg.trip_id leg.date

-- The distinct seat keys of the candidates, in whatever order the map is ranged over.
unfoldable pub add_leg_keys : List Leg → List String → List String
unfolding leg_key
add_leg_keys [] keys = keys
add_leg_keys (l ∷ ls) keys =
    add_leg_keys ls (if needs_seat l then add_member (leg_key l) keys else keys)

unfoldable pub seat_keys : List JourneyPath → List String → List String
unfolding add_leg_keys
seat_keys [] keys = keys
seat_keys (p ∷ ps) keys = seat_keys ps (add_leg_keys p.legs keys)

unfoldable pub seat_map_of : Redis → SeatValue → Option (GoMap String ℤ)
seat_map_of redis missing = none
seat_map_of redis not_text = none
seat_map_of redis (text s) = redis.decode s

abbrev pub Cache : Type 0
Cache = GoMap String (Option (GoMap String ℤ))

-- The inner loop: a key past the end of the reply has a nil map.
unfoldable pub fill_cache : Redis → List String → List SeatValue → Cache → Cache
fill_cache redis [] vals cache = cache
fill_cache redis (k ∷ ks) [] cache = fill_cache redis ks [] (insert k none cache)
fill_cache redis (k ∷ ks) (v ∷ vs) cache =
    fill_cache redis ks vs (insert k (seat_map_of redis v) cache)

-- The loop over the chunks; i counts the MGETs. A chunk has at least one key, so the number of keys
-- is fuel enough.
unfoldable pub fetch : Redis → ℕ → ℕ → ℕ → List String → Cache → Option Cache
unfolding fill_cache
fetch redis chunk zero i keys cache = some cache
fetch redis chunk (suc fuel) i [] cache = some cache
fetch redis chunk (suc fuel) i (k ∷ ks) cache = elim (redis.mget i (take chunk (k ∷ ks))) [
  | none ↦ none
  | some vals ↦
      fetch redis chunk fuel (i + 1) (drop chunk (k ∷ ks))
        (fill_cache redis (take chunk (k ∷ ks)) vals cache)
]

-- The seat check of one journey.
unfoldable pub has_seats : Cache → String → ℤ → List Leg → Bool
unfolding leg_key
has_seats cache class count [] = true
has_seats cache class count (l ∷ ls) =
    let rest = has_seats cache class count ls in
    if needs_seat l
    then elim (lookup_or none (leg_key l) cache) [
      | none ↦ false
      | some seats ↦ if ltb_ℤ (lookup_or (pos 0) class seats) count then false else rest
    ]
    else rest

abbrev pub is_full : ℤ → ℕ → Bool
is_full max_results n = ltb_ℤ (pos 0) max_results && leb_ℤ max_results (pos n)

-- The last loop, with n survivors so far; it stops when there are MaxResults of them.
unfoldable pub survivors : ℤ → (JourneyPath → Bool) → ℕ → List JourneyPath → List JourneyPath
survivors max_results ok n [] = []
survivors max_results ok n (p ∷ ps) =
    let kept = survivors max_results ok (n + 1) ps in
    let passed = survivors max_results ok n ps in
    if ok p then p ∷ (if is_full max_results (n + 1) then [] else kept) else passed

unfoldable pub truncate : Validator → List JourneyPath → List JourneyPath
truncate v paths =
    if ltb_ℤ (pos 0) v.cfg.max_results && ltb_ℤ v.cfg.max_results (pos (length paths))
    then take (pos_part v.cfg.max_results) paths
    else paths

-- An empty list stands for nil too.
unfoldable pub unavailable : Validator → List JourneyPath → List JourneyPath
unfolding truncate
unavailable v candidates = if v.cfg.strict then [] else truncate v candidates

-- The part of Validate after the breaker has let the call through.
unfoldable pub ask_redis :
    Redis
    → ℤ
    → Validator
    → List JourneyPath
    → String
    → ℤ
    → List String
    → Validator × List JourneyPath
unfolding unavailable fetch survivors has_seats
ask_redis redis now v candidates class count keys =
    elim (fetch redis (pos_part v.cfg.mget_chunk) (length keys) 0 keys []) [
      | none ↦ (record v { cb = Breaker.failure v.cb now }, unavailable v candidates)
      | some cache ↦ (
        record v { cb = Breaker.success v.cb },
        survivors v.cfg.max_results (λ p. has_seats cache class count p.legs) 0 candidates,
      )
    ]

-- Validate; `now` is the clock when Allow is called and `later` when a failure is recorded.
unfoldable pub validate :
    Redis → ℤ → ℤ → Validator → List JourneyPath → String → ℤ → Validator × List JourneyPath
unfolding seat_keys unavailable truncate ask_redis
validate redis now later v candidates class count =
    let keys = seat_keys candidates [] in
    let admitted = Breaker.allow v.cb now in
    let v' = record v { cb = admitted.0 } in
    if is_empty candidates
    then (v, [])
    else if is_empty keys
    then (v, truncate v candidates)
    else if not v.has_client
    then (v, unavailable v candidates)
    else if admitted.1
    then ask_redis redis later v' candidates class count keys
    else (v', unavailable v candidates)
