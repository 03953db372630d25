-- ===== src/Tests/SyncerWitnesses.antt =====
-- The theorems on the seat data in Redis and on the syncer at concrete inputs.
use multi_agent_travel.Raptor.Validator.{missing, SeatValue}
use multi_agent_travel.Prelude.Text.{parse_nat, parse_decimal, parse_int}
use multi_agent_travel.Prelude.GoMap.{keys, member, lookup, GoMap}
use multi_agent_travel.Model.Dates.{
  is_leap, days_in, parse_dash, parse_digits, parse_codes, parse_date, valid_date,
}
use multi_agent_travel.Prelude.{
  not, Option, String, ◌≡◌, refl, ap, ◌≢◌, true, none, some, List, [], ◌∷◌, ◌++◌, map, arith,
  if◌then◌else◌, eq_ℕ, eq_String,
}
use multi_agent_travel.Prelude.Int.{ℤ, pos, eq_ℤ}
use multi_agent_travel.Tests.Network.{tiny_routes, key_of}
use multi_agent_travel.Model.{eq_TripKey}
use multi_agent_travel.Model.SeatKeys.{
  seat_hash_key, seat_trip_date, seat_map_key, seat_ts_key, parse_seat_trip_date,
}
use multi_agent_travel.Model.SeatKeys.RoundTrip.{parse_seat_trip_date-seat_trip_date}
use multi_agent_travel.Seat.Gate.{is_hash, canonical_hash, SeatStore, lua_gate}
use multi_agent_travel.Seat.Gate.Synced.{lua_gate_effect, IsSynced, hashed}
use multi_agent_travel.Seat.Poller.{PollRun, poll_trip, lock_key}
use multi_agent_travel.Seat.Poller.Locks.{poll_trip-locks, is_polled}
use multi_agent_travel.Seat.Syncer.{
  mark_resynced, Syncer, new_syncer, with_defaults, compare_stream_ids, split_stream_id, split_dash,
}
use multi_agent_travel.Seat.Syncer.Signals.{
  put_signal, ts_keys, map_keys, put_chunk, split_chunks, chunks, fetch_chunks, fetch_signals,
  SeatReplies, seats_of,
}
use multi_agent_travel.Seat.Syncer.History.{write, done, IsNew}
use multi_agent_travel.Seat.Syncer.Fetched.{IsServed}
use multi_agent_travel.Seat.Syncer.Stream.{head_of}
use multi_agent_travel.Seat.Syncer.Carry.{IsCurrent}
use multi_agent_travel.Seat.Syncer.Runs.{Run, start, poll, Run-IsCurrent}
use multi_agent_travel.Seat.Syncer.Refresh.{Pass, cold_start, snapshot}
use multi_agent_travel.SeatState.{SeatState}
use multi_agent_travel.SeatState

trip_named : ◌≢◌ {A = String} "a:b" ""
trip_named e = absurd (ground (arith, (eq_String.decides "a:b" "").1 e))

date_valid : valid_date "2026-03-01" ≡ true
unfolding valid_date parse_date parse_codes parse_digits parse_dash days_in is_leap
date_valid = refl

parse_seat_trip_date-seat_trip_date_example :
    parse_seat_trip_date (seat_trip_date "a:b" "2026-03-01") ≡ some ("a:b", "2026-03-01")
parse_seat_trip_date-seat_trip_date_example =
    parse_seat_trip_date-seat_trip_date "a:b" "2026-03-01" trip_named date_valid

-- A digest that keeps its text.
abbrev same_text : String → String
same_text s = s

abbrev empty_store : SeatStore
empty_store = record { hashes = []; maps = []; stamps = []; stream = []; locks = [] }

empty_store-IsSynced : IsSynced same_text empty_store
unfolding lookup
empty_store-IsSynced = record { matches = λ t d. refl }

abbrev nine_seats : GoMap String ℤ
nine_seats = ("lower", pos 9) ∷ []

abbrev gated_store : SeatStore
gated_store = (lua_gate same_text "t" "2026-03-01" nine_seats (pos 50) "1-0" empty_store).0

lua_gate_effect_example :
    IsSynced same_text gated_store
    × (hashed same_text (lookup (seat_map_key "t" "2026-03-01") gated_store.maps)
        ≡ some (canonical_hash same_text nine_seats))
    × ((lua_gate same_text "t" "2026-03-01" nine_seats (pos 50) "1-0" empty_store).1
        ≡ not (
            is_hash
              (canonical_hash same_text nine_seats)
              (lookup (seat_hash_key "t" "2026-03-01") empty_store.hashes)))
    × (gated_store.stream ≡ (
        if (lua_gate same_text "t" "2026-03-01" nine_seats (pos 50) "1-0" empty_store).1
        then []
          ++ (record { id = "1-0"; trip = seat_trip_date "t" "2026-03-01"; changed_at = pos 50 }
              ∷ [])
        else []))
lua_gate_effect_example =
    lua_gate_effect same_text "t" "2026-03-01" nine_seats (pos 50) "1-0" empty_store
      empty_store-IsSynced

abbrev failed_run : PollRun
failed_run = record {
  payload = some (key_of "t");
  locks_work = true;
  seats = none;
  gate_works = true;
  frees = true;
  entry_id = "1-0";
}

poll_trip-locks_example :
    (poll_trip same_text tiny_routes failed_run (pos 50) (key_of "t") empty_store).0.locks ≡ (
      if is_polled (poll_trip same_text tiny_routes failed_run (pos 50) (key_of "t") empty_store).1
      then lock_key (key_of "t") ∷ []
      else [])
poll_trip-locks_example =
    poll_trip-locks same_text tiny_routes failed_run (pos 50) (key_of "t") empty_store refl

-- Redis without seat data.
abbrev no_replies : SeatReplies
no_replies = record {
  pipe = λ i ks ts. some (map (λ k. missing) ks, map (λ k. missing) ts);
  decode = λ s. none;
  stamp = λ s. pos 0;
}

abbrev first_pass : Pass
first_pass = record {
  replies = no_replies;
  routes = tiny_routes;
  fetched_at = pos 10;
  published_at = pos 11;
}

abbrev sample_syncer : Syncer
sample_syncer = new_syncer (record {
  mget_chunk = pos 0;
  stream_batch = pos 0;
  stream_block = pos 0;
  cold_start_attempts = pos 0;
  min_resync_interval = pos 0;
})

nothing_stored :
    (ks : List String)
    → map (seats_of no_replies) (map (λ k. missing) ks)
      ≡ map (λ key. lookup key empty_store.maps) ks
unfolding seats_of lookup
nothing_stored [] = refl
nothing_stored (k ∷ ks) = ap (◌∷◌ none) (nothing_stored ks)

pair_inj :
    {a b c d : List SeatValue}
    → ◌≡◌ {A = Option (List SeatValue × List SeatValue)} (some (a, b)) (some (c, d))
    → a ≡ c
pair_inj q = cc

no_replies-IsServed :
    (cursor : String) → IsServed same_text cursor no_replies empty_store empty_store
no_replies-IsServed cursor i ks ts vals stamps e =
    (empty_store, done, done, rw (← pair_inj e) (nothing_stored ks))

cold_start_works : (cold_start (head_of []) first_pass (sample_syncer, SeatState.initial)).1 ≡ true
unfolding cold_start snapshot fetch_signals fetch_chunks chunks split_chunks put_chunk map_keys
    ts_keys new_syncer with_defaults seat_map_key seat_ts_key put_signal seats_of
cold_start_works = refl

id-IsNew : IsNew sample_syncer.cursor [] "1-0"
unfolding compare_stream_ids split_stream_id split_dash parse_int parse_decimal parse_nat new_syncer
id-IsNew = (refl, tt)

key_named : ◌≢◌ {A = String} "t" ""
key_named e = absurd (ground (arith, (eq_String.decides "t" "").1 e))

key_scheduled : member (key_of "t") (keys tiny_routes.trip_index) ≡ true
unfolding member
key_scheduled = refl

sample-Run :
    Run same_text tiny_routes gated_store
      (cold_start (head_of []) first_pass (sample_syncer, SeatState.initial)).0.0
      (cold_start (head_of []) first_pass (sample_syncer, SeatState.initial)).0.1
unfolding cold_start snapshot fetch_signals fetch_chunks chunks split_chunks put_chunk new_syncer
    mark_resynced put_signal seats_of
sample-Run =
    poll empty_store gated_store
      (cold_start (head_of []) first_pass (sample_syncer, SeatState.initial)).0.0
      (cold_start (head_of []) first_pass (sample_syncer, SeatState.initial)).0.1
      (start empty_store empty_store first_pass sample_syncer SeatState.initial tt refl
        (done, no_replies-IsServed sample_syncer.cursor) cold_start_works)
      (write empty_store "t" "2026-03-01" nine_seats (pos 50) "1-0" done id-IsNew)

Run-IsCurrent_example :
    IsCurrent
      (key_of "t")
      (cold_start (head_of []) first_pass (sample_syncer, SeatState.initial)).0.0.cursor
      (cold_start (head_of []) first_pass (sample_syncer, SeatState.initial)).0.1.live_signal
      gated_store
Run-IsCurrent_example =
    Run-IsCurrent same_text tiny_routes (key_of "t")
      (record { named = key_named; dated = date_valid }) key_scheduled gated_store
      (cold_start (head_of []) first_pass (sample_syncer, SeatState.initial)).0.0
      (cold_start (head_of []) first_pass (sample_syncer, SeatState.initial)).0.1 sample-Run
