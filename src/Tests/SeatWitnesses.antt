-- ===== src/Tests/SeatWitnesses.antt =====
-- The theorems on the seat gate and its breaker at concrete inputs.
use multi_agent_travel.Breaker
use multi_agent_travel.Raptor.Validator.Confirmed.{validate-confirmed, confirmed, validate-strict}
use multi_agent_travel.Raptor.Validator.Answers.{
  first_results, Fails, store, has_stored_seats, Replies,
}
use multi_agent_travel.Raptor.Validator.{unavailable, text, validate, Validator, SeatValue, Redis}
use multi_agent_travel.Model.{transit, Leg, JourneyPath}
use multi_agent_travel.Breaker.Runs.{run-IsValid, fail, ask, run, admitted_once, admitted}
use multi_agent_travel.Breaker.Invariant.{allow-current_state, new-IsValid, IsValid}
use multi_agent_travel.Breaker.{current_state, open_state, Breaker}
use multi_agent_travel.Prelude.{
  ◌≤◌, String, ◌≡◌, refl, ◌⊎◌, inr, true, false, some, [], ◌∷◌, map, arith, if◌then◌else◌, eq_ℕ,
  eq_String, All,
}
use multi_agent_travel.Prelude.Int.{pos, eq_ℤ}

-- Every key has a seat map; its text decodes to nine seats in the lower class.
abbrev pub sample_reply : String → SeatValue
sample_reply k = text "9"

abbrev pub sample_redis : Redis
sample_redis = record {
  mget = λ i keys. some (map sample_reply keys);
  decode = λ s. some (("lower", pos 9) ∷ []);
}

pub sample-Replies : Replies sample_redis sample_reply
sample-Replies i keys = inr refl

abbrev sample_breaker : Breaker
sample_breaker = Breaker.new (pos 3) (pos 10)

abbrev sample_validator : Validator
sample_validator = record {
  has_client = true;
  cfg = record {
    strict = true;
    mget_chunk = pos 2;
    max_results = pos 5;
    breaker_threshold = pos 3;
    breaker_cooldown = pos 10;
  };
  cb = sample_breaker;
}

abbrev seated_leg : Leg
seated_leg = record {
  kind = transit;
  trip_id = "t";
  date = "2026-03-01";
  route_id = "r";
  board_station = "A";
  alight_station = "B";
  departure_unix = pos 120;
  arrival_unix = pos 200;
}

abbrev seated_journey : JourneyPath
seated_journey = record {
  legs = seated_leg ∷ [];
  departure_unix = pos 120;
  arrival_unix = pos 200;
  total_time_seconds = pos 80;
  wait_seconds = pos 15;
  transfers = 0;
  walk_seconds = pos 0;
  rounds = 1;
}

breaker_admits : (Breaker.allow sample_breaker (pos 7)).1 ≡ true
unfolding Breaker.allow Breaker.new
breaker_admits = refl

validate-confirmed_example :
    (((validate sample_redis
          (pos 7)
          (pos 8)
          sample_validator
          (seated_journey ∷ [])
          "lower"
          (pos 2)).1
        ≡ unavailable sample_validator (seated_journey ∷ []))
      × Fails sample_redis)
    ⊎ ((validate sample_redis
          (pos 7)
          (pos 8)
          sample_validator
          (seated_journey ∷ [])
          "lower"
          (pos 2)).1
        ≡ first_results
            (pos 5)
            (confirmed sample_redis sample_reply "lower" (pos 2) (seated_journey ∷ [])))
validate-confirmed_example =
    validate-confirmed sample_redis sample_reply (pos 7) (pos 8) sample_validator
      (seated_journey ∷ []) "lower" (pos 2) sample-Replies refl (omega arith) breaker_admits

validate-strict_example :
    All
      (λ p. has_stored_seats (store sample_redis sample_reply) "lower" (pos 2) p.legs ≡ true)
      (validate sample_redis
        (pos 7)
        (pos 8)
        sample_validator
        (seated_journey ∷ [])
        "lower"
        (pos 2)).1
validate-strict_example =
    validate-strict sample_redis sample_reply (pos 7) (pos 8) sample_validator (seated_journey ∷ [])
      "lower" (pos 2) sample-Replies (omega arith) refl

abbrev tripped_breaker : Breaker
tripped_breaker = record sample_breaker { failures = 3; state = open_state; opened_at = pos 20 }

tripped_breaker-IsValid : IsValid tripped_breaker
unfolding Breaker.new
tripped_breaker-IsValid = record {
  threshold_pos = omega arith;
  cooldown_pos = omega arith;
  probing_half = λ h. cc;
  half_probing = λ h. cc;
  closed_below = λ h. cc;
  tripped = λ h. omega arith;
}

run-IsValid_example : IsValid (
    run sample_breaker
      (ask (pos 1) ∷ fail (pos 2) ∷ fail (pos 3) ∷ fail (pos 4) ∷ ask (pos 20) ∷ []))
run-IsValid_example =
    run-IsValid (ask (pos 1) ∷ fail (pos 2) ∷ fail (pos 3) ∷ fail (pos 4) ∷ ask (pos 20) ∷ [])
      sample_breaker (new-IsValid (pos 3) (pos 10))

admitted_once_example : admitted tripped_breaker (pos 25 ∷ pos 31 ∷ pos 32 ∷ []) ≤ 1
admitted_once_example =
    admitted_once (pos 25 ∷ pos 31 ∷ pos 32 ∷ []) tripped_breaker tripped_breaker-IsValid (λ e. cc)

allow-current_state_example : (Breaker.allow tripped_breaker (pos 31)).1 ≡ (
    if tripped_breaker.probing
    then false
    else elim (current_state tripped_breaker (pos 31)) [ open_state ↦ false | _ ↦ true ])
unfolding Breaker.new
allow-current_state_example = allow-current_state tripped_breaker (pos 31) tripped_breaker-IsValid
