-- ===== src/Seat/Syncer/Refresh.antt =====
-- internal/seat/refresher.go: ColdStart, ColdStartWithRetry, resync and the body of RefreshLoop.
use multi_agent_travel.Prelude.GoMap.{member, keys, insert}
use multi_agent_travel.Model.SeatKeys.{parse_seat_trip_date}
use multi_agent_travel.Prelude.{
  ℕ, zero, suc, ◌*◌, String, Bool, true, false, Option, none, some, List, [], ◌∷◌, ◌++◌, ltb,
  if◌then◌else◌, eq_ℕ, eq_String, is_empty,
}
use multi_agent_travel.Prelude.Int.{ℤ, pos_part, eq_ℤ}
use multi_agent_travel.Model.{TripKey, eq_TripKey}
use multi_agent_travel.Raptor.State.{SignalBuffer}
use multi_agent_travel.Schedule.Buffer.{RouteBuffer}
use multi_agent_travel.SeatState.{SeatState, swap_signal}
use multi_agent_travel.Seat.Syncer.{Syncer, set_cursor, mark_resynced, lagged}
use multi_agent_travel.Seat.Syncer.Signals.{SeatReplies, fetch_signals}

-- An entry as XREAD gives it: `trip` is none where the field is no string.
pub record Message : Type 0 where
  pub id : String
  pub trip : Option String

-- What one pass of the loop, or one cold start, finds: what the pipelines answer, the schedule that
-- is live, and the clock when the signals are fetched and when they are published.
pub record Pass : Type 0 where
  pub replies : SeatReplies
  pub routes : RouteBuffer
  pub fetched_at : ℤ
  pub published_at : ℤ

-- The newest entry of the stream: the read fails, finds nothing, or finds an id.
pub data StreamHead : Type 0 where
  unreadable empty : StreamHead
  newest : String → StreamHead

-- The syncer and the published signals.
abbrev pub Seats : Type 0
Seats = Syncer × SeatState

abbrev pub chunk_size : Syncer → ℕ
chunk_size s = pos_part s.cfg.mget_chunk

unfoldable pub snapshot : Pass → Seats → Seats × Bool
unfolding fetch_signals swap_signal mark_resynced
snapshot p (s, st) =
    elim (fetch_signals p.replies p.routes p.fetched_at (chunk_size s) (keys p.routes.trip_index)) [
      | none ↦ ((s, st), false)
      | some staging ↦
          ((mark_resynced p.published_at s, swap_signal staging p.published_at st), true)
    ]

-- The cursor moves before the snapshot. The flag tells whether an error is returned.
unfoldable pub cold_start : StreamHead → Pass → Seats → Seats × Bool
unfolding snapshot set_cursor
cold_start unreadable p w = (w, false)
cold_start empty p w = snapshot p w
cold_start (newest id) p (s, st) = snapshot p (set_cursor id s, st)

-- The attempts that are left, each with what it finds.
unfoldable pub cold_starts : ℕ → (ℕ → StreamHead × Pass) → Seats → Seats × Bool
unfolding cold_start
cold_starts zero world w = (w, false)
cold_starts (suc n) world w =
    let tried = cold_start (world n).0 (world n).1 w in
    let rest = cold_starts n world tried.0 in if tried.1 then tried else rest

unfoldable pub cold_start_with_retry : (ℕ → StreamHead × Pass) → Seats → Seats × Bool
unfolding cold_starts
cold_start_with_retry world (s, st) = cold_starts (pos_part s.cfg.cold_start_attempts) world (s, st)

-- A failed attempt counts for the throttle too.
unfoldable pub resync : StreamHead → Pass → Seats → Seats
unfolding cold_start mark_resynced
resync head p w =
    let tried = cold_start head p w in
    if tried.1 then tried.0 else (mark_resynced p.published_at tried.0.0, tried.0.1)

abbrev pub trip_of : String × String → TripKey
trip_of (trip_id, date) = record { trip_id = trip_id; date = date }

unfoldable pub add_dirty : Option String → List TripKey → List TripKey
unfolding parse_seat_trip_date
add_dirty none dirty = dirty
add_dirty (some raw) dirty = elim (parse_seat_trip_date raw) [
  | none ↦ dirty
  | some parts ↦ if member (trip_of parts) dirty then dirty else dirty ++ (trip_of parts ∷ [])
]

-- The distinct trips of a batch, in the order of the entries.
unfoldable pub dirty_trips : List Message → List TripKey → List TripKey
unfolding add_dirty
dirty_trips [] dirty = dirty
dirty_trips (m ∷ msgs) dirty = dirty_trips msgs (add_dirty m.trip dirty)

unfoldable pub last_id : String → List Message → String
last_id id [] = id
last_id id (m ∷ msgs) = last_id m.id msgs

-- for k, v := range updates { staging[k] = v }
unfoldable pub overlay : SignalBuffer → SignalBuffer → SignalBuffer
overlay [] staging = staging
overlay ((key, sig) ∷ updates) staging = overlay updates (insert key sig staging)

-- One batch of entries of a stream that was not trimmed.
unfoldable pub refresh_batch : List Message → Pass → Seats → Seats
unfolding dirty_trips last_id overlay fetch_signals swap_signal set_cursor
refresh_batch msgs p (s, st) =
    let dirty = dirty_trips msgs [] in
    let moved = set_cursor (last_id s.cursor msgs) s in
    if is_empty dirty
    then (moved, st)
    else elim (fetch_signals p.replies p.routes p.fetched_at (chunk_size s) dirty) [
      | none ↦ (s, st)
      | some updates ↦ (moved, swap_signal (overlay updates st.live_signal) p.published_at st)
    ]

-- XREAD times out, fails, or gives entries.
pub data ReadReply : Type 0 where
  nothing_new read_failed : ReadReply
  entries : List Message → ReadReply

-- The body of the loop; `oldest` and `head` are what XRANGE and XREVRANGE find.
unfoldable pub refresh_pass : ReadReply → Option String → StreamHead → Pass → Seats → Seats
unfolding refresh_batch resync lagged
refresh_pass nothing_new oldest head p w = w
refresh_pass read_failed oldest head p w = w
refresh_pass (entries []) oldest head p w = w
refresh_pass (entries (m ∷ msgs)) oldest head p (s, st) =
    if lagged oldest s then resync head p (s, st) else refresh_batch (m ∷ msgs) p (s, st)

-- In seconds.
unfoldable pub next_backoff : ReadReply → ℕ → ℕ
next_backoff nothing_new backoff = backoff
next_backoff read_failed backoff = if ltb backoff 30 then backoff * 2 else backoff
next_backoff (entries msgs) backoff = 1
