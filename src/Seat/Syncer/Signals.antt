-- ===== src/Seat/Syncer/Signals.antt =====
-- internal/seat/refresher.go: fetchSignals, which reads the seat maps and the timestamps of trips.
use multi_agent_travel.Prelude.GoMap.{insert, GoMap}
use multi_agent_travel.Model.SeatKeys.{seat_ts_key, seat_map_key}
use multi_agent_travel.Prelude.{
  ℕ, zero, suc, ◌-◌, ◌*◌, String, Bool, ◌&&◌, Option, none, some, List, [], ◌∷◌, map, if◌then◌else◌,
  ◌==◌, eq_ℕ, eq_String,
}
use multi_agent_travel.Prelude.Int.{eqb_ℤ, ◌-ℤ◌, ℤ, pos, ltb_ℤ, eq_ℤ, add64}
use multi_agent_travel.Model.{eq_TripKey, TripKey, SeatSignal}
use multi_agent_travel.Raptor.Validator.{SeatValue, missing, not_text, text}
use multi_agent_travel.Raptor.State.{SignalBuffer}
use multi_agent_travel.Schedule.Buffer.{RouteBuffer, trip_departure}
use multi_agent_travel.Zone.{classify_zone}

-- `pipe` is what the i-th pipeline of two MGETs answers, none where it fails; `decode` is none where
-- json.Unmarshal fails; `stamp` is the number that ParseFloat returns, zero where it fails, in whole
-- seconds.
pub record SeatReplies : Type 0 where
  pub pipe : ℕ → List String → List String → Option (List SeatValue × List SeatValue)
  pub decode : String → Option (GoMap String ℤ)
  pub stamp : String → ℤ

-- The seat map of a reply; the guards before json.Unmarshal are here.
unfoldable pub seats_of : SeatReplies → SeatValue → Option (GoMap String ℤ)
seats_of redis missing = none
seats_of redis not_text = none
seats_of redis (text raw) = if raw == "" then none else redis.decode raw

-- A reply that is too short has no timestamp for the trip.
unfoldable pub stamp_of : SeatReplies → List SeatValue → ℤ
stamp_of redis [] = pos 0
stamp_of redis (missing ∷ vals) = pos 0
stamp_of redis (not_text ∷ vals) = pos 0
stamp_of redis (text raw ∷ vals) = redis.stamp raw

unfoldable pub total_seats : ℤ → GoMap String ℤ → ℤ
total_seats total [] = total
total_seats total ((cls, n) ∷ rest) = total_seats (add64 total n) rest

-- Older than two polling intervals of the zone of the trip, or without a timestamp.
unfoldable pub is_stale : RouteBuffer → ℤ → TripKey → ℤ → Bool
unfolding trip_departure classify_zone ◌-ℤ◌
is_stale routes now key ts =
    let dep = trip_departure routes key in
    if ltb_ℤ (pos 0) dep && ltb_ℤ (pos 0) ts
    then ltb_ℤ (pos (2 * (classify_zone dep now).interval)) (now -ℤ ts)
    else eqb_ℤ ts (pos 0)

unfoldable pub signal_of : RouteBuffer → ℤ → TripKey → GoMap String ℤ → ℤ → SeatSignal
unfolding total_seats is_stale
signal_of routes now key by_class ts = record {
  by_class = by_class;
  total = total_seats (pos 0) by_class;
  stale = is_stale routes now key ts;
  snapshot_ts = ts;
}

abbrev pub rest_of : List SeatValue → List SeatValue
rest_of [] = []
rest_of (v ∷ vals) = vals

unfoldable pub put_signal :
    SeatReplies
    → RouteBuffer
    → ℤ
    → TripKey
    → SeatValue
    → List SeatValue
    → SignalBuffer
    → SignalBuffer
unfolding seats_of stamp_of signal_of
put_signal redis routes now key val stamps out = elim (seats_of redis val) [
  | none ↦ out
  | some seats ↦ insert key (signal_of routes now key seats (stamp_of redis stamps)) out
]

-- The inner loop, over the trips of a chunk with the values of its two replies.
unfoldable pub put_chunk :
    SeatReplies
    → RouteBuffer
    → ℤ
    → List TripKey
    → List SeatValue
    → List SeatValue
    → SignalBuffer
    → SignalBuffer
unfolding put_signal
put_chunk redis routes now [] vals stamps out = out
put_chunk redis routes now (key ∷ ks) [] stamps out = out
put_chunk redis routes now (key ∷ ks) (val ∷ vals) stamps out =
    put_chunk redis routes now ks vals (rest_of stamps)
      (put_signal redis routes now key val stamps out)

-- What is left of the chunk that a trip stands in, with room for some more, and the chunks after it.
unfoldable pub split_chunks : ℕ → ℕ → List TripKey → List TripKey × List (List TripKey)
split_chunks size room [] = ([], [])
split_chunks size zero (k ∷ ks) =
    let rest = split_chunks size (size - 1) ks in ([], (k ∷ rest.0) ∷ rest.1)
split_chunks size (suc room) (k ∷ ks) = let rest = split_chunks size room ks in (k ∷ rest.0, rest.1)

-- trips[start:end] for the starts 0, size, 2 * size and so on.
unfoldable pub chunks : ℕ → List TripKey → List (List TripKey)
unfolding split_chunks
chunks size trips = (split_chunks size 0 trips).1

unfoldable pub map_keys : List TripKey → List String
unfolding seat_map_key
map_keys ks = map (λ k. seat_map_key k.trip_id k.date) ks

unfoldable pub ts_keys : List TripKey → List String
unfolding seat_ts_key
ts_keys ks = map (λ k. seat_ts_key k.trip_id k.date) ks

-- The outer loop; i counts the pipelines.
unfoldable pub fetch_chunks :
    SeatReplies → RouteBuffer → ℤ → ℕ → List (List TripKey) → SignalBuffer → Option SignalBuffer
unfolding put_chunk map_keys ts_keys
fetch_chunks redis routes now i [] out = some out
fetch_chunks redis routes now i (chunk ∷ rest) out =
    elim (redis.pipe i (map_keys chunk) (ts_keys chunk)) [
      | none ↦ none
      | some (vals, stamps) ↦
          fetch_chunks redis routes now (suc i) rest
            (put_chunk redis routes now chunk vals stamps out)
    ]

unfoldable pub fetch_signals :
    SeatReplies → RouteBuffer → ℤ → ℕ → List TripKey → Option SignalBuffer
unfolding fetch_chunks chunks
fetch_signals redis routes now size trips = fetch_chunks redis routes now 0 (chunks size trips) []
