-- ===== src/Schedule/Fifo.antt =====
-- internal/schedule/buffer.go: computeFIFO, which measures whether the trips of a route overtake.
pub mod Order
pub mod Laws
use multi_agent_travel.Prelude.{
  ℕ, Bool, true, false, List, [], ◌∷◌, if◌then◌else◌, nat_eq, ltb, length, ◌&&◌, not,
}
use multi_agent_travel.Prelude.Int.{ℤ, leb_ℤ}
use multi_agent_travel.Model.{TripStopTimes}

unfoldable pub same_stops : ℕ → List TripStopTimes → Bool
same_stops n [] = true
same_stops n (t ∷ ts) =
    let rest = same_stops n ts in
    if not (nat_eq (length t.departures) n)
    then false
    else if not (nat_eq (length t.arrivals) n)
    then false
    else rest

-- The loop over the positions, for the times of two neighbouring trips of one length.
unfoldable pub no_earlier : List ℤ → List ℤ → Bool
no_earlier [] ys = true
no_earlier (x ∷ xs) [] = true
no_earlier (x ∷ xs) (y ∷ ys) = let rest = no_earlier xs ys in if leb_ℤ x y then rest else false

-- The loop over the neighbouring pairs.
unfoldable pub ordered_after : TripStopTimes → List TripStopTimes → Bool
unfolding no_earlier
ordered_after prev [] = true
ordered_after prev (curr ∷ ts) =
    let rest = ordered_after curr ts in
    if no_earlier prev.departures curr.departures
    then (if no_earlier prev.arrivals curr.arrivals then rest else false)
    else false

unfoldable pub compute_fifo : List TripStopTimes → Bool
unfolding same_stops ordered_after
compute_fifo [] = true
compute_fifo (t ∷ []) = true
compute_fifo (t ∷ u ∷ ts) =
    if same_stops (length t.departures) (t ∷ u ∷ ts) then ordered_after t (u ∷ ts) else false
