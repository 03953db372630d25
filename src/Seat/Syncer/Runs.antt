-- ===== src/Seat/Syncer/Runs.antt =====
-- internal/seat/refresher.go and luagate.go: the runs of the pollers and of the syncer together, from
-- a cold start that succeeds. Each pass of the syncer is one step; the pollers write at any moment
-- within it, and between two passes. The stream is not trimmed.
use multi_agent_travel.Prelude.GoMap.{keys, member}
use multi_agent_travel.Prelude.{String, ◌≡◌, true, map, eq_ℕ, eq_String}
use multi_agent_travel.Prelude.Int.{pos_part, eq_ℤ}
use multi_agent_travel.Model.{TripKey, eq_TripKey}
use multi_agent_travel.Schedule.Buffer.{RouteBuffer}
use multi_agent_travel.SeatState.{SeatState}
use multi_agent_travel.Seat.Gate.{SeatStore}
use multi_agent_travel.Seat.Syncer.{Syncer}
use multi_agent_travel.Seat.Syncer.History.{Writes}
use multi_agent_travel.Seat.Syncer.Fetched.{IsServed}
use multi_agent_travel.Seat.Syncer.Stream.{
  head_of, IsOrdered, read_after, message, Writes-IsOrdered,
}
use multi_agent_travel.Seat.Syncer.Dirty.{IsTrip}
use multi_agent_travel.Seat.Syncer.Carry.{IsCurrent}
use multi_agent_travel.Seat.Syncer.Current.{kept-IsCurrent, refresh-IsCurrent, cold-IsCurrent}
use multi_agent_travel.Seat.Syncer.Refresh.{Pass, refresh_batch, cold_start}

-- What a pass of the syncer meets: the pollers take the store from s to s', and Redis answers from
-- moments between them.
abbrev pub IsPass : (String → String) → String → Pass → SeatStore → SeatStore → Type 0
IsPass digest cursor p s s' = Writes digest cursor s s' × IsServed digest cursor p.replies s s'

-- The worlds that are reached: what Redis holds, the syncer and the published signals.
pub data Run (digest : String → String) (routes : RouteBuffer)
    : SeatStore → Syncer → SeatState → Type 0 where
  start :
      (s s' : SeatStore) (p : Pass) (sy : Syncer) (st : SeatState)
      → IsOrdered s.stream
      → p.routes ≡ routes
      → IsPass digest sy.cursor p s s'
      → (cold_start (head_of s.stream) p (sy, st)).1 ≡ true
      → Run digest routes s'
          (cold_start (head_of s.stream) p (sy, st)).0.0
          (cold_start (head_of s.stream) p (sy, st)).0.1
  restart :
      (s s' : SeatStore) (p : Pass) (sy : Syncer) (st : SeatState)
      → Run digest routes s sy st
      → p.routes ≡ routes
      → IsPass digest sy.cursor p s s'
      → (cold_start (head_of s.stream) p (sy, st)).1 ≡ true
      → Run digest routes s'
          (cold_start (head_of s.stream) p (sy, st)).0.0
          (cold_start (head_of s.stream) p (sy, st)).0.1
  poll :
      (s s' : SeatStore) (sy : Syncer) (st : SeatState)
      → Run digest routes s sy st
      → Writes digest sy.cursor s s'
      → Run digest routes s' sy st
  refresh :
      (s s' : SeatStore) (p : Pass) (sy : Syncer) (st : SeatState)
      → Run digest routes s sy st
      → IsPass digest sy.cursor p s s'
      → Run digest routes s'
          (refresh_batch
            (map message (read_after (pos_part sy.cfg.stream_batch) sy.cursor s.stream))
            p
            (sy, st)).0
          (refresh_batch
            (map message (read_after (pos_part sy.cfg.stream_batch) sy.cursor s.stream))
            p
            (sy, st)).1

Run-IsOrdered :
    (digest : String → String) (routes : RouteBuffer) (s : SeatStore) (sy : Syncer) (st : SeatState)
    → Run digest routes s sy st
    → IsOrdered s.stream
Run-IsOrdered digest routes s sy st (start s0 s1 p sy0 st0 o e pass ok) =
    Writes-IsOrdered digest sy0.cursor s0 s1 pass.0 o
Run-IsOrdered digest routes s sy st (restart s0 s1 p sy0 st0 run e pass ok) =
    Writes-IsOrdered digest sy0.cursor s0 s1 pass.0 (Run-IsOrdered digest routes s0 sy0 st0 run)
Run-IsOrdered digest routes s sy st (poll s0 s1 sy0 st0 run writes) =
    Writes-IsOrdered digest sy0.cursor s0 s1 writes (Run-IsOrdered digest routes s0 sy0 st0 run)
Run-IsOrdered digest routes s sy st (refresh s0 s1 p sy0 st0 run pass) =
    Writes-IsOrdered digest sy0.cursor s0 s1 pass.0 (Run-IsOrdered digest routes s0 sy0 st0 run)

-- In every world that is reached from a cold start that succeeds, for a scheduled trip with an id and
-- a date of the calendar: the published seats are those that Redis holds, or an entry of the stream
-- after the cursor names the trip. Pollers write at any moment and fetches of a batch may fail. The
-- schedule that the cold starts see stays the same, the stream is not trimmed, a new entry has an id
-- after those before it, and a pipeline that succeeds answers from one moment of its pass.
pub Run-IsCurrent :
    (digest : String → String) (routes : RouteBuffer) (k : TripKey)
    → IsTrip k
    → member k (keys routes.trip_index) ≡ true
    → (s : SeatStore) (sy : Syncer) (st : SeatState) → Run digest routes s sy st
    → IsCurrent k sy.cursor st.live_signal s
Run-IsCurrent digest routes k trip known s sy st (start s0 s1 p sy0 st0 o e pass ok) =
    cold-IsCurrent digest k s0 s1 p sy0 st0 (rw e known) pass.0 pass.1 ok
Run-IsCurrent digest routes k trip known s sy st (restart s0 s1 p sy0 st0 run e pass ok) =
    cold-IsCurrent digest k s0 s1 p sy0 st0 (rw e known) pass.0 pass.1 ok
Run-IsCurrent digest routes k trip known s sy st (poll s0 s1 sy0 st0 run writes) =
    kept-IsCurrent digest k sy0.cursor st0.live_signal s0 s1 writes
      (Run-IsCurrent digest routes k trip known s0 sy0 st0 run)
Run-IsCurrent digest routes k trip known s sy st (refresh s0 s1 p sy0 st0 run pass) =
    refresh-IsCurrent digest k s0 s1 p (pos_part sy0.cfg.stream_batch) sy0 st0 trip
      (Run-IsOrdered digest routes s0 sy0 st0 run) pass.0 pass.1
      (Run-IsCurrent digest routes k trip known s0 sy0 st0 run)
