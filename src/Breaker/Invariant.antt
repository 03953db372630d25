-- ===== src/Breaker/Invariant.antt =====
-- internal/breaker/breaker.go: what holds of the breaker between two calls, and what each call does.
use multi_agent_travel.Prelude.{◌≤◌, ◌<◌, ◌≡◌, ◌≢◌, true, false, arith, if◌then◌else◌}
use multi_agent_travel.Prelude.Int.{ℤ, pos, ◌-ℤ◌, ◌<ℤ◌}
use multi_agent_travel.Breaker.{
  closed, open_state, half_open, Breaker, new, allow, success, failure, current_state,
}

pub record IsValid (b : Breaker) : Type 0 where
  pub threshold_pos : 0 < b.threshold
  pub cooldown_pos : pos 0 <ℤ b.cooldown
  -- A probe is out only while the breaker is half open, and a half-open breaker has one out.
  pub probing_half : b.probing ≡ true → b.state ≡ half_open
  pub half_probing : b.state ≡ half_open → b.probing ≡ true
  -- A closed breaker has not reached the threshold; any other has.
  pub closed_below : b.state ≡ closed → b.failures < b.threshold
  pub tripped : b.state ≢ closed → b.threshold ≤ b.failures

pub new-IsValid : (threshold cooldown : ℤ) → IsValid (new threshold cooldown)
unfolding new
new-IsValid threshold cooldown = ground arith

pub allow-IsValid : (b : Breaker) (now : ℤ) → IsValid b → IsValid (allow b now).0
unfolding allow
allow-IsValid b now v = ground arith

pub success-IsValid : (b : Breaker) → IsValid b → IsValid (success b)
unfolding success
success-IsValid b v = ground arith

pub failure-IsValid : (b : Breaker) (now : ℤ) → IsValid b → IsValid (failure b now)
unfolding failure
failure-IsValid b now v = ground arith

-- State() tells what Allow would do at the same time: a valid breaker admits a call exactly when no
-- probe is out and State() does not report open.
pub allow-current_state :
    (b : Breaker) (now : ℤ)
    → IsValid b
    → (allow b now).1
      ≡ (if b.probing then false else elim (current_state b now) [ open_state ↦ false | _ ↦ true ])
unfolding allow current_state ◌-ℤ◌
allow-current_state b now v = ground arith
