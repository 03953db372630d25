-- ===== src/Seat/Poller.antt =====
-- internal/seat/poller.go: the handler of a poll task. What the task queue, the provider and the
-- connection to Redis do in a run is a parameter; a SETNX or a script that ran but whose reply was
-- lost is left out. The expiry of a lock is not here: a lock stands until it is deleted.
pub mod Locks
use Prim.Native.String.{◌++◌ as append}
use multi_agent_travel.Prelude.GoMap.{member, GoMap}
use multi_agent_travel.Seat.Gate.{lua_gate, SeatStore}
use multi_agent_travel.Schedule.Buffer.{trip_departure, RouteBuffer}
use multi_agent_travel.Model.{TripKey}
use multi_agent_travel.Prelude.{
  ℕ, zero, suc, ◌+◌, ◌-◌, ◌*◌, ◌/◌, ◌≤◌, ◌<◌, String, ◌≡◌, refl, sym, ap, ◌∙◌, ◌≢◌, ◌↔◌, ◌⊎◌, inl,
  inr, Bool, true, false, not, ◌&&◌, ◌||◌, Option, none, some, List, [], ◌∷◌, ◌++◌, map, arith, ltb,
  leb, nat_eq, if◌then◌else◌, Bool-cases, Option-cases, ◌==◌, Eq, eq_ℕ, eq_String, eq→≡, ==_refl,
  length, get_elem?, take, drop, is_empty, All, All-map, All-get, All-append,
}
use multi_agent_travel.Prelude.Int.{
  eqb_ℤ, ℤ, pos, negsuc, pos_part, neg_part, ltb_ℤ, leb_ℤ, ◌≤ℤ◌, ◌<ℤ◌, eq_ℤ, add64, max_int64,
}

-- `payload` is none where it does not decode; `seats` where the provider fails. `locks_work` and
-- `gate_works` tell whether SETNX and the script return, and `frees` whether DEL does; `entry_id` is
-- the id that Redis gives to the entry if the gate appends one.
pub record PollRun : Type 0 where
  pub payload : Option TripKey
  pub locks_work : Bool
  pub seats : Option (GoMap String ℤ)
  pub gate_works : Bool
  pub frees : Bool
  pub entry_id : String

pub data PollOutcome : Type 0 where
  bad_payload unnamed_trip not_scheduled lock_failed not_owner fetch_failed gate_failed :
      PollOutcome
  polled : Bool → PollOutcome

unfoldable pub lock_key : TripKey → String
lock_key k = append "poll_lock:" (append k.trip_id (append ":" k.date))

unfoldable pub set_nx : String → SeatStore → SeatStore × Bool
set_nx key s = if member key s.locks then (s, false) else (record s { locks = key ∷ s.locks }, true)

abbrev pub without : String → List String → List String
without key [] = []
without key (k ∷ ks) = let rest = without key ks in if k == key then rest else k ∷ rest

-- The deferred release on an error path; the result of DEL is not looked at.
unfoldable pub release : PollRun → String → SeatStore → SeatStore
release run key s = if run.frees then record s { locks = without key s.locks } else s

-- After the lock is taken.
unfoldable pub fetch_and_write :
    (String → String) → PollRun → ℤ → TripKey → SeatStore → SeatStore × PollOutcome
unfolding release lua_gate lock_key
fetch_and_write digest run ts k s = elim run.seats [
  | none ↦ (release run (lock_key k) s, fetch_failed)
  | some seats ↦
      let gated = lua_gate digest k.trip_id k.date seats ts run.entry_id s in
      if run.gate_works
      then (gated.0, polled gated.1)
      else (release run (lock_key k) s, gate_failed)
]

unfoldable pub poll_trip :
    (String → String) → RouteBuffer → PollRun → ℤ → TripKey → SeatStore → SeatStore × PollOutcome
unfolding trip_departure set_nx lock_key fetch_and_write
poll_trip digest buf run ts k s =
    let locked = set_nx (lock_key k) s in
    if k.trip_id == "" || k.date == ""
    then (s, unnamed_trip)
    else if eqb_ℤ (trip_departure buf k) (pos 0)
    then (s, not_scheduled)
    else if not run.locks_work
    then (s, lock_failed)
    else if locked.1
    then fetch_and_write digest run ts k locked.0
    else (s, not_owner)

-- HandlePollTask.
unfoldable pub handle_poll :
    (String → String) → RouteBuffer → PollRun → ℤ → SeatStore → SeatStore × PollOutcome
unfolding poll_trip
handle_poll digest buf run ts s = elim run.payload [
  | none ↦ (s, bad_payload)
  | some k ↦ poll_trip digest buf run ts k s
]
