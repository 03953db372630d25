-- ===== src/SeatState.antt =====
-- internal/state/signal.go: the published seat signals, the readiness flag and the counters. The
-- atomics are the fields of one record, and a publication is one step.
pub mod Laws
pub mod Runs
use multi_agent_travel.Prelude.{
  ℕ, suc, Bool, true, false, List, [], ◌∷◌, if◌then◌else◌, length, ltb, is_empty,
}
use multi_agent_travel.Prelude.Int.{ℤ, pos, eqb_ℤ, ◌-ℤ◌}
use multi_agent_travel.Raptor.State.{SignalBuffer}

-- `last_swap_unix` in seconds.
pub record SeatState : Type 0 where
  pub live_signal : SignalBuffer
  pub ready : Bool
  pub seat_data_present : Bool
  pub signal_count : ℕ
  pub stale_count : ℕ
  pub last_swap_unix : ℤ

unfoldable pub initial : SeatState
initial = record {
  live_signal = [];
  ready = false;
  seat_data_present = false;
  signal_count = 0;
  stale_count = 0;
  last_swap_unix = pos 0;
}

unfoldable pub count_stale : SignalBuffer → ℕ
count_stale [] = 0
count_stale ((key, sig) ∷ buf) = let n = count_stale buf in if sig.stale then suc n else n

unfoldable pub swap_signal : SignalBuffer → ℤ → SeatState → SeatState
unfolding count_stale
swap_signal staging now s = record s {
  live_signal = staging;
  signal_count = length staging;
  stale_count = count_stale staging;
  last_swap_unix = now;
  seat_data_present = if is_empty staging then s.seat_data_present else true;
}

unfoldable pub reset_seat_data_latch : SeatState → SeatState
reset_seat_data_latch s = record s {
  seat_data_present = false;
  live_signal = [];
  signal_count = 0;
  stale_count = 0;
  last_swap_unix = pos 0;
}

unfoldable pub mark_ready : SeatState → SeatState
mark_ready s = record s { ready = true }

unfoldable pub mark_not_ready : SeatState → SeatState
mark_not_ready s = record s { ready = false }

-- The age in seconds; zero if nothing was ever published.
unfoldable pub seat_data_age : SeatState → ℤ → ℤ
unfolding ◌-ℤ◌
seat_data_age s now = if eqb_ℤ s.last_swap_unix (pos 0) then pos 0 else now -ℤ s.last_swap_unix
