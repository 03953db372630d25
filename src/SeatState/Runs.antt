-- ===== src/SeatState/Runs.antt =====
-- internal/state/signal.go: sequences of operations.
use multi_agent_travel.SeatState.{initial}
use multi_agent_travel.SeatState.Laws.{
  reset-IsConsistent, initial-IsConsistent, swap_signal-IsConsistent, IsConsistent,
}
use multi_agent_travel.SeatState.{
  mark_not_ready, mark_ready, reset_seat_data_latch, swap_signal, SeatState,
}
use multi_agent_travel.Raptor.State.{SignalBuffer}
use multi_agent_travel.Prelude.{List, [], ◌∷◌, eq_ℕ, eq_String}
use multi_agent_travel.Prelude.Int.{ℤ, eq_ℤ}

pub data Op : Type 0 where
  swap : SignalBuffer → ℤ → Op
  reset ready not_ready : Op

unfoldable pub apply : Op → SeatState → SeatState
unfolding swap_signal reset_seat_data_latch mark_ready mark_not_ready
apply (swap staging now) s = swap_signal staging now s
apply reset s = reset_seat_data_latch s
apply ready s = mark_ready s
apply not_ready s = mark_not_ready s

unfoldable pub run_ops : List Op → SeatState → SeatState
unfolding apply
run_ops [] s = s
run_ops (op ∷ ops) s = run_ops ops (apply op s)

apply-IsConsistent : (op : Op) (s : SeatState) → IsConsistent s → IsConsistent (apply op s)
unfolding apply
apply-IsConsistent (swap staging now) s h = swap_signal-IsConsistent staging now s
apply-IsConsistent reset s h = reset-IsConsistent s
apply-IsConsistent ready s h = record {
  counted = h.counted;
  stale_counted = h.stale_counted;
  stale_bound = h.stale_bound;
  present = h.present;
}
apply-IsConsistent not_ready s h = record {
  counted = h.counted;
  stale_counted = h.stale_counted;
  stale_bound = h.stale_bound;
  present = h.present;
}

run_ops-IsConsistent_from :
    (ops : List Op) (s : SeatState) → IsConsistent s → IsConsistent (run_ops ops s)
unfolding run_ops
run_ops-IsConsistent_from [] s h = h
run_ops-IsConsistent_from (op ∷ ops) s h =
    run_ops-IsConsistent_from ops (apply op s) (apply-IsConsistent op s h)

-- After any sequence of publications, resets and readiness changes the counters that the health
-- checks read are those of the published buffer: its size, and the number of its stale signals,
-- which is no greater; and if the buffer has a signal, HasSeatData reports it.
pub run_ops-IsConsistent : (ops : List Op) → IsConsistent (run_ops ops initial)
run_ops-IsConsistent ops = run_ops-IsConsistent_from ops initial initial-IsConsistent
