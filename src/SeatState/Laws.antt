-- ===== src/SeatState/Laws.antt =====
-- internal/state/signal.go: the counters describe the published buffer.
use multi_agent_travel.Raptor.State.{SignalBuffer}
use multi_agent_travel.SeatState.{
  reset_seat_data_latch, swap_signal, initial, count_stale, SeatState,
}
use multi_agent_travel.Prelude.{◌≤◌, ◌≡◌, refl, ◌≢◌, true, [], ◌∷◌, arith, eq_ℕ, eq_String, length}
use multi_agent_travel.Prelude.Int.{ℤ, eq_ℤ}

-- What the counters, the latch and the readiness mean between two operations.
pub record IsConsistent (s : SeatState) : Type 0 where
  pub counted : s.signal_count ≡ length s.live_signal
  pub stale_counted : s.stale_count ≡ count_stale s.live_signal
  pub stale_bound : s.stale_count ≤ s.signal_count
  pub present : s.live_signal ≢ [] → s.seat_data_present ≡ true

count_stale_bound : (buf : SignalBuffer) → count_stale buf ≤ length buf
unfolding count_stale
count_stale_bound [] = omega arith
count_stale_bound ((key, sig) ∷ buf) = ground (arith, count_stale_bound buf)

pub initial-IsConsistent : IsConsistent initial
unfolding initial count_stale
initial-IsConsistent = record {
  counted = refl;
  stale_counted = refl;
  stale_bound = omega arith;
  present = λ h. absurd (h refl);
}

pub swap_signal-IsConsistent :
    (staging : SignalBuffer) (now : ℤ) (s : SeatState) → IsConsistent (swap_signal staging now s)
unfolding swap_signal
swap_signal-IsConsistent [] now s = record {
  counted = refl;
  stale_counted = refl;
  stale_bound = count_stale_bound [];
  present = λ h. absurd (h refl);
}
swap_signal-IsConsistent (e ∷ staging) now s = record {
  counted = refl;
  stale_counted = refl;
  stale_bound = count_stale_bound (e ∷ staging);
  present = λ h. refl;
}

pub reset-IsConsistent : (s : SeatState) → IsConsistent (reset_seat_data_latch s)
unfolding reset_seat_data_latch count_stale
reset-IsConsistent s = record {
  counted = refl;
  stale_counted = refl;
  stale_bound = omega arith;
  present = λ h. absurd (h refl);
}
