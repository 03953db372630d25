-- ===== src/Api/Health.antt =====
-- internal/api/health.go and internal/api/middleware.go: the readiness gate and the health probes.
-- The share of stale signals is a quotient of floats in the source; it is compared with one half,
-- which the model does on the two counts.
use multi_agent_travel.Raptor.Validator.{Validator}
use multi_agent_travel.SeatState.{SeatState}
use multi_agent_travel.Raptor.Validator
use multi_agent_travel.Prelude.{
  ◌*◌, Bool, false, not, Option, none, some, ltb, nat_eq, if◌then◌else◌, eq_ℕ, eq_String,
}
use multi_agent_travel.Prelude.Int.{ℤ, eq_ℤ}

pub data Degradation : Type 0 where
  degraded_no_seat_data degraded_seat_validation_unavailable : Degradation
  degraded_stale_seat_data fully_ready : Degradation

-- StaleFraction() > staleAlertFraction.
unfoldable pub is_mostly_stale : SeatState → Bool
is_mostly_stale s =
    if nat_eq s.signal_count 0 then false else ltb s.signal_count (2 * s.stale_count)

unfoldable pub degradation : SeatState → Validator → ℤ → Degradation
unfolding is_mostly_stale
degradation s v now =
    if not s.seat_data_present
    then degraded_no_seat_data
    else if not (Validator.healthy v now)
    then degraded_seat_validation_unavailable
    else if is_mostly_stale s
    then degraded_stale_seat_data
    else fully_ready

pub data ReadyStatus : Type 0 where
  warming_up : ReadyStatus
  serving : Degradation → ReadyStatus

unfoldable pub handle_ready : SeatState → Validator → ℤ → ReadyStatus
unfolding degradation
handle_ready s v now = if not s.ready then warming_up else serving (degradation s v now)

-- readyGate; none is a 503.
unfoldable pub ready_gate {ℓ} : {A : Type ℓ} → SeatState → A → Option A
ready_gate s next = if not s.ready then none else some next
