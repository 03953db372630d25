-- ===== src/Breaker.antt =====
-- internal/breaker/breaker.go: the circuit breaker. A method takes the reading of the clock, in
-- nanoseconds, and returns the new record; the mutex makes each call one step.
pub mod Invariant
pub mod Runs
use multi_agent_travel.Prelude.{ℕ, suc, ◌+◌, Bool, true, false, if◌then◌else◌, leb, ◌&&◌}
use multi_agent_travel.Prelude.Int.{ℤ, pos, negsuc, ltb_ℤ, leb_ℤ, max_int64, ◌-ℤ◌, pos_part}

pub data State : Type 0 where
  closed open_state half_open : State

-- `threshold` and `failures` are never negative: New replaces a threshold below 1.
pub record Breaker : Type 0 where
  pub threshold : ℕ
  pub cooldown : ℤ
  pub failures : ℕ
  pub state : State
  pub opened_at : ℤ
  pub probing : Bool

-- New: five failures and fifteen seconds take the place of values that are not positive.
unfoldable pub new : ℤ → ℤ → Breaker
new threshold cooldown = record {
  threshold = if leb_ℤ threshold (pos 0) then 5 else pos_part threshold;
  cooldown = if leb_ℤ cooldown (pos 0) then pos 15_000_000_000 else cooldown;
  failures = 0;
  state = closed;
  opened_at = pos 0;
  probing = false;
}

-- Whether the cooldown of an open breaker is still running.
unfoldable pub is_cooling : Breaker → ℤ → Bool
unfolding ◌-ℤ◌
is_cooling b now = ltb_ℤ (now -ℤ b.opened_at) b.cooldown

allow_in : State → Breaker → ℤ → Breaker × Bool
unfolding is_cooling
allow_in closed b now = (b, true)
allow_in open_state b now =
    if is_cooling b now then (b, false) else (record b { state = half_open; probing = true }, true)
allow_in half_open b now = if b.probing then (b, false) else (record b { probing = true }, true)

unfoldable pub allow : Breaker → ℤ → Breaker × Bool
unfolding allow_in
allow b now = allow_in b.state b now

unfoldable pub success : Breaker → Breaker
success b = record b { failures = 0; probing = false; state = closed }

abbrev pub is_half_open : State → Bool
is_half_open half_open = true
is_half_open _ = false

abbrev pub is_open : State → Bool
is_open open_state = true
is_open _ = false

abbrev pub is_closed : State → Bool
is_closed closed = true
is_closed _ = false

unfoldable pub failure : Breaker → ℤ → Breaker
failure b now =
    if is_half_open b.state
    then record b { probing = false; state = open_state; opened_at = now }
    else if leb b.threshold (b.failures + 1)
    then record b {
      probing = false;
      failures = b.failures + 1;
      state = open_state;
      opened_at = now;
    }
    else record b { probing = false; failures = b.failures + 1 }

-- State and Healthy, which change nothing.
unfoldable pub current_state : Breaker → ℤ → State
unfolding ◌-ℤ◌
current_state b now =
    if is_open b.state && leb_ℤ b.cooldown (now -ℤ b.opened_at) then half_open else b.state

unfoldable pub healthy : Breaker → ℤ → Bool
unfolding current_state
healthy b now = is_closed (current_state b now)
