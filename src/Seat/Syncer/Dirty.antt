-- ===== src/Seat/Syncer/Dirty.antt =====
-- internal/seat/refresher.go: a batch names the trips of its entries, and what is not in a batch is
-- still to be read after it.
use multi_agent_travel.Model.SeatKeys.RoundTrip.{parse_seat_trip_date-seat_trip_date}
use multi_agent_travel.Prelude.GoMap.{member}
use multi_agent_travel.Model.SeatKeys.{parse_seat_trip_date}
use multi_agent_travel.Prelude.{
  keep_if, Any, ℕ, String, ◌≡◌, ◌≢◌, ◌⊎◌, inl, inr, true, Option, none, some, List, [], ◌∷◌, ◌++◌,
  map, arith, if◌then◌else◌, Bool-cases, Option-cases, ◌==◌, eq_ℕ, eq_String, ==_refl,
}
use multi_agent_travel.Prelude.Int.{eq_ℤ}
use multi_agent_travel.Model.{TripKey, eq_TripKey}
use multi_agent_travel.Model.Dates.{valid_date}
use multi_agent_travel.Seat.Gate.{StreamEntry}
use multi_agent_travel.Seat.Syncer.History.{IsNaming}
use multi_agent_travel.Seat.Syncer.Refresh.{Message, last_id, dirty_trips, add_dirty, trip_of}
use multi_agent_travel.Seat.Syncer.Stream.{
  IsPending, IsOrdered, read_after, message, read_or_later, kept, unkept, is_after,
  IsOrdered-keep_if,
}

-- A trip with an id and a date of the calendar.
pub record IsTrip (k : TripKey) : Type 0 where
  pub named : k.trip_id ≢ ""
  pub dated : valid_date k.date ≡ true

module _ (k : TripKey) where
  member-append :
      (x : TripKey) (d : List TripKey)
      → member k (d ++ (x ∷ [])) ≡ (if member k d then true else (x == k))
  unfolding member
  member-append x [] = ground arith
  member-append x (y ∷ d) = ground (arith, member-append x d)

  add_dirty-keeps :
      (o : Option String) (d : List TripKey) → member k d ≡ true → member k (add_dirty o d) ≡ true
  unfolding add_dirty
  add_dirty-keeps none d h = h
  add_dirty-keeps (some raw) d h = elim (Option-cases (parse_seat_trip_date raw)) [
    | inl bad ↦ rw (add_dirty, bad) h
    | inr (parts, e) ↦ elim (Bool-cases (member (trip_of parts) d)) [
      | inl old ↦ rw (add_dirty, e, old) h
      | inr new ↦ rw (add_dirty, e, new) (rw (member-append (trip_of parts) d, h))
    ]
  ]

  dirty_trips-keeps :
      (msgs : List Message) (d : List TripKey)
      → member k d ≡ true
      → member k (dirty_trips msgs d) ≡ true
  unfolding dirty_trips
  dirty_trips-keeps [] d h = h
  dirty_trips-keeps (m ∷ msgs) d h =
      dirty_trips-keeps msgs (add_dirty m.trip d) (add_dirty-keeps m.trip d h)

  add_dirty-named :
      (raw : String) (d : List TripKey)
      → parse_seat_trip_date raw ≡ some (k.trip_id, k.date)
      → member k (add_dirty (some raw) d) ≡ true
  unfolding add_dirty
  add_dirty-named raw d e = elim (Bool-cases (member k d)) [
    | inl old ↦ rw (add_dirty, e, old) old
    | inr new ↦ rw (add_dirty, e, new) (rw (member-append k d, new) (==_refl k))
  ]

  dirty_trips-has :
      IsTrip k
      → (es : List StreamEntry) (d : List TripKey) → Any (IsNaming k) es
      → member k (dirty_trips (map message es) d) ≡ true
  unfolding dirty_trips
  dirty_trips-has t [] d h = absurd h
  dirty_trips-has t (e ∷ es) d (inl here) =
      dirty_trips-keeps (map message es) (add_dirty (some e.trip) d) (
        add_dirty-named e.trip d
          (rw here (parse_seat_trip_date-seat_trip_date k.trip_id k.date t.named t.dated)))
  dirty_trips-has t (e ∷ es) d (inr there) = dirty_trips-has t es (add_dirty (some e.trip) d) there

  -- An entry for the trip that was to be read is in the batch, or is still to be read after it.
  pub batch_or_later :
      IsTrip k
      → (n : ℕ) (cursor : String) (es : List StreamEntry) → IsOrdered es
      → IsPending k cursor es
      → (member k (dirty_trips (map message (read_after n cursor es)) []) ≡ true)
        ⊎ IsPending k (last_id cursor (map message (read_after n cursor es))) es
  batch_or_later t n cursor es o h =
      elim (read_or_later k n cursor (keep_if (is_after cursor) es)
        (IsOrdered-keep_if (is_after cursor) es o) (kept k cursor es h)) [
          | inl now ↦ inl (dirty_trips-has t (read_after n cursor es) [] now)
          | inr later ↦ inr (unkept _ (is_after cursor) es later)
        ]
