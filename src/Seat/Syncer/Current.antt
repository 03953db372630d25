-- ===== src/Seat/Syncer/Current.antt =====
-- internal/seat/refresher.go: no change of seats is lost between Redis and the published signals,
-- while pollers write between any two reads of the syncer.
use multi_agent_travel.Prelude.GoMap.{lookup, keys, member}
use multi_agent_travel.Prelude.{
  ℕ, String, ◌≡◌, refl, sym, ◌∙◌, ◌≢◌, ◌⊎◌, inl, inr, true, none, List, [], ◌∷◌, map, Bool-cases,
  Option-cases, eq_ℕ, eq_String, is_empty,
}
use multi_agent_travel.Prelude.Int.{eq_ℤ}
use multi_agent_travel.Model.{TripKey, eq_TripKey}
use multi_agent_travel.Raptor.State.{SignalBuffer}
use multi_agent_travel.SeatState.{SeatState, swap_signal}
use multi_agent_travel.Seat.Gate.{SeatStore, StreamEntry}
use multi_agent_travel.Seat.Syncer.{Syncer, set_cursor, mark_resynced}
use multi_agent_travel.Seat.Syncer.Signals.{fetch_signals}
use multi_agent_travel.Seat.Syncer.Overlay.{IsMap, lookup-overlay}
use multi_agent_travel.Seat.Syncer.History.{content, Writes, Grown, Grown-keeps, Writes-Grown}
use multi_agent_travel.Seat.Syncer.Fetched.{seats_in, IsServed, fetch_signals-IsStaged}
use multi_agent_travel.Seat.Syncer.Stream.{
  head_of, IsPending, IsOrdered, read_after, message, new-IsAfter_batch,
}
use multi_agent_travel.Seat.Syncer.Dirty.{IsTrip, batch_or_later}
use multi_agent_travel.Seat.Syncer.Refresh.{
  overlay, Pass, last_id, dirty_trips, refresh_batch, cold_start, snapshot, chunk_size,
}
use multi_agent_travel.Seat.Syncer.Carry.{
  IsCurrent, IsPast, carry_seats, carry_pending, IsPast-later, head-IsPast,
}

module _ (digest : String → String) (k : TripKey) where
  -- Seats that were read at some moment between two stores.
  abbrev IsSeen : String → SeatStore → SeatStore → SignalBuffer → Type 0
  IsSeen cursor s s' live =
      (t : SeatStore) × Writes digest cursor s t
      × Writes digest cursor t s'
      × (seats_in k live ≡ content k t)

  seen-IsCurrent :
      (cursor last : String) (s s' : SeatStore) (live : SignalBuffer)
      → IsPast cursor last s.stream
      → IsSeen cursor s s' live
      → IsCurrent k last live s'
  seen-IsCurrent cursor last s s' live past (t, before, later, e) =
      carry_seats cursor last k live t s'
        (IsPast-later cursor last k s t (Writes-Grown digest cursor k s t before) past)
        (Writes-Grown digest cursor k t s' later) e

  -- What is known of the trip when a batch with these dirty trips is fetched.
  abbrev IsBatched : String → List TripKey → SignalBuffer → SeatStore → Type 0
  IsBatched last dirty live s =
      (seats_in k live ≡ content k s)
      ⊎ ((content k s ≢ none) × ((member k dirty ≡ true) ⊎ IsPending k last s.stream))

  unread-IsCurrent :
      (cursor last : String) (s s' : SeatStore) (dirty : List TripKey) (live : SignalBuffer)
      → IsPast cursor last s.stream
      → Grown cursor k s s'
      → IsBatched last dirty live s
      → (content k s ≢ none → member k dirty ≡ true → ⊥)
      → IsCurrent k last live s'
  unread-IsCurrent cursor last s s' dirty live past g (inl e) clean =
      carry_seats cursor last k live s s' past g e
  unread-IsCurrent cursor last s s' dirty live past g (inr (some_there, inl named)) clean =
      absurd (clean some_there named)
  unread-IsCurrent cursor last s s' dirty live past g (inr (some_there, inr later)) clean =
      carry_pending cursor last k live s s' g some_there later

  overlay-IsCurrent :
      (cursor last : String) (s s' : SeatStore) (dirty : List TripKey) (updates live : SignalBuffer)
      → IsPast cursor last s.stream
      → Writes digest cursor s s'
      → IsBatched last dirty live s
      → IsMap updates
      → (lookup k updates ≡ none) ⊎ IsSeen cursor s s' updates
      → (member k dirty ≡ true → IsSeen cursor s s' updates)
      → IsCurrent k last (overlay updates live) s'
  overlay-IsCurrent cursor last s s' dirty updates live past writes h distinct staged read =
      elim (Option-cases (lookup k updates)) [
        | inl absent ↦
            let same : lookup k (overlay updates live) ≡ lookup k live =
              rw (lookup-overlay k updates live distinct, absent) in
            rw same (
              unread-IsCurrent cursor last s s' dirty live past
                (Writes-Grown digest cursor k s s' writes) h
                (λ some_there named.
                  let (t, before, later, e) = read named in
                  Grown-keeps cursor k s t (Writes-Grown digest cursor k s t before) some_there
                    (sym e ∙ rw absent)))
        | inr (sig, found) ↦
            let same : lookup k (overlay updates live) ≡ lookup k updates =
              rw (lookup-overlay k updates live distinct, found) in
            elim staged [
              | inl absent ↦ absurd cc (found, absent)
              | inr seen ↦ rw same (seen-IsCurrent cursor last s s' updates past seen)
            ]
      ]

  -- Writes alone.
  pub kept-IsCurrent :
      (cursor : String) (live : SignalBuffer) (s s' : SeatStore)
      → Writes digest cursor s s'
      → IsCurrent k cursor live s
      → IsCurrent k cursor live s'
  kept-IsCurrent cursor live s s' writes h =
      let g = Writes-Grown digest cursor k s s' writes in
      elim h [
        | inl e ↦ carry_seats cursor cursor k live s s' (λ id new. new.0) g e
        | inr (some_there, pending) ↦ carry_pending cursor cursor k live s s' g some_there pending
      ]

  empty_dirty : (d : List TripKey) → is_empty d ≡ true → member k d ≡ true → ⊥
  unfolding member
  empty_dirty [] h q = cc
  empty_dirty (x ∷ d) h q = cc

  pub refresh-IsCurrent :
      (s s' : SeatStore) (p : Pass) (n : ℕ) (sy : Syncer) (st : SeatState)
      → IsTrip k
      → IsOrdered s.stream
      → Writes digest sy.cursor s s'
      → IsServed digest sy.cursor p.replies s s'
      → IsCurrent k sy.cursor st.live_signal s
      → IsCurrent k
          (refresh_batch (map message (read_after n sy.cursor s.stream)) p (sy, st)).0.cursor
          (refresh_batch (map message (read_after n sy.cursor s.stream)) p (sy, st)).1.live_signal
          s'
  unfolding refresh_batch set_cursor swap_signal
  refresh-IsCurrent s s' p n sy st trip o writes served h =
      let batch = read_after n sy.cursor s.stream in
      let dirty = dirty_trips (map message batch) [] in
      let last = last_id sy.cursor (map message batch) in
      let past : IsPast sy.cursor last s.stream =
        λ id new. new-IsAfter_batch n sy.cursor id s.stream new in
      let grown = Writes-Grown digest sy.cursor k s s' writes in
      let known : IsBatched last dirty st.live_signal s = elim h [
        | inl e ↦ inl e
        | inr (some_there, pending) ↦
            inr (some_there, batch_or_later k trip n sy.cursor s.stream o pending)
      ] in
      elim (Bool-cases (is_empty dirty)) [
        | inl clean ↦ rw clean (
            unread-IsCurrent sy.cursor last s s' dirty st.live_signal past grown known
              (λ some_there. empty_dirty dirty clean))
        | inr some_dirty ↦
            elim (Option-cases
              (fetch_signals p.replies p.routes p.fetched_at (chunk_size sy) dirty)) [
                | inl failed ↦
                    rw (some_dirty, failed) (kept-IsCurrent sy.cursor st.live_signal s s' writes h)
                | inr (updates, got) ↦
                    let (staged, read) =
                      fetch_signals-IsStaged digest sy.cursor p.replies s s' p.routes p.fetched_at k
                        (chunk_size sy) dirty updates served got in
                    rw (some_dirty, got)
                      (overlay-IsCurrent sy.cursor last s s' dirty updates st.live_signal past
                        writes known staged.0 staged.1 read)
              ]
      ]

  snapshot-IsCurrent :
      (cursor : String) (s s' : SeatStore) (p : Pass) (sy : Syncer) (st : SeatState)
      → member k (keys p.routes.trip_index) ≡ true
      → Writes digest cursor s s'
      → IsServed digest cursor p.replies s s'
      → IsPast cursor sy.cursor s.stream
      → (snapshot p (sy, st)).1 ≡ true
      → IsCurrent k (snapshot p (sy, st)).0.0.cursor (snapshot p (sy, st)).0.1.live_signal s'
  unfolding snapshot swap_signal mark_resynced
  snapshot-IsCurrent cursor s s' p sy st known writes served past ok =
      elim (Option-cases (
        fetch_signals p.replies p.routes p.fetched_at (chunk_size sy) (keys p.routes.trip_index))) [
          | inl failed ↦ absurd cc (rw (snapshot, failed) at ok)
          | inr (staging, got) ↦
              let (staged, read) =
                fetch_signals-IsStaged digest cursor p.replies s s' p.routes p.fetched_at k
                  (chunk_size sy) (keys p.routes.trip_index) staging served got in
              rw (snapshot, got) (seen-IsCurrent cursor sy.cursor s s' staging past (read known))
        ]

  pub cold-IsCurrent :
      (s s' : SeatStore) (p : Pass) (sy : Syncer) (st : SeatState)
      → member k (keys p.routes.trip_index) ≡ true
      → Writes digest sy.cursor s s'
      → IsServed digest sy.cursor p.replies s s'
      → (cold_start (head_of s.stream) p (sy, st)).1 ≡ true
      → IsCurrent k
          (cold_start (head_of s.stream) p (sy, st)).0.0.cursor
          (cold_start (head_of s.stream) p (sy, st)).0.1.live_signal
          s'
  unfolding cold_start snapshot set_cursor swap_signal mark_resynced
  cold-IsCurrent s s' p sy st known writes served ok = go s.stream refl
    where
      go :
          (es : List StreamEntry)
          → s.stream ≡ es
          → IsCurrent k
              (cold_start (head_of s.stream) p (sy, st)).0.0.cursor
              (cold_start (head_of s.stream) p (sy, st)).0.1.live_signal
              s'
      go [] e = rw e (
          snapshot-IsCurrent sy.cursor s s' p sy st known writes served (λ id new. new.0)
            (rw e at ok))
      go (x ∷ es) e =
          let (last, here, past) = head-IsPast sy.cursor x es in
          rw (e, here)
            (snapshot-IsCurrent sy.cursor s s' p (set_cursor last sy) st known writes served
              (rw e past) (rw (e, here) at ok))
