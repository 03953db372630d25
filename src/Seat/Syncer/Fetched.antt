-- ===== src/Seat/Syncer/Fetched.antt =====
-- internal/seat/refresher.go: fetchSignals gives every trip of the batch the seats that Redis held
-- at one of its reads.
use multi_agent_travel.Prelude.GoMap.{member, lookup-insert, insert, lookup, GoMap}
use multi_agent_travel.Prelude.{
  zero, suc, ◌-◌, refl, ◌∷◌, [], Any, ℕ, String, ◌≡◌, sym, ◌∙◌, ◌⊎◌, inl, inr, true, Option, none,
  some, List, map, Bool-cases, Option-cases, ◌==◌, eq_ℕ, eq_String, eq→≡,
}
use multi_agent_travel.Prelude.Int.{ℤ, eq_ℤ}
use multi_agent_travel.Model.{TripKey, SeatSignal, eq_TripKey}
use multi_agent_travel.Raptor.State.{SignalBuffer}
use multi_agent_travel.Raptor.Validator.{SeatValue}
use multi_agent_travel.Schedule.Buffer.{RouteBuffer}
use multi_agent_travel.Seat.Gate.{SeatStore}
use multi_agent_travel.Seat.Syncer.History.{content, Writes}
use multi_agent_travel.Seat.Syncer.Signals.{
  ts_keys, rest_of, map_keys, split_chunks, put_chunk, fetch_signals, fetch_chunks, chunks,
  SeatReplies, put_signal, seats_of, signal_of, stamp_of,
}
use multi_agent_travel.Seat.Syncer.Overlay.{IsMap, insert-IsMap}

abbrev pub held : Option SeatSignal → Option (GoMap String ℤ)
held none = none
held (some sig) = some sig.by_class

abbrev pub seats_in : TripKey → SignalBuffer → Option (GoMap String ℤ)
seats_in k buf = held (lookup k buf)

-- The i-th pipeline reads the store as it is at some moment between two others.
abbrev pub IsServed :
    (digest : String → String) (cursor : String) (redis : SeatReplies) (s s' : SeatStore) → Type 0
IsServed digest cursor redis s s' =
    (i : ℕ) (ks ts : List String) (vals stamps : List SeatValue)
    → redis.pipe i ks ts ≡ some (vals, stamps)
    → (t : SeatStore) × Writes digest cursor s t
      × Writes digest cursor t s'
      × (map (seats_of redis) vals ≡ map (λ key. lookup key t.maps) ks)

module _ (digest : String → String) (cursor : String) (redis : SeatReplies) (s s' : SeatStore)
    (routes : RouteBuffer) (now : ℤ) (k : TripKey) where
  -- The signal of the trip holds the seats of some moment between the two.
  abbrev pub IsRead : SignalBuffer → Type 0
  IsRead buf =
      (t : SeatStore) × Writes digest cursor s t
      × Writes digest cursor t s'
      × (seats_in k buf ≡ content k t)

  -- The maps that the loops build.
  abbrev pub IsStaged : SignalBuffer → Type 0
  IsStaged buf = IsMap buf × ((lookup k buf ≡ none) ⊎ IsRead buf)

  -- What one trip of a chunk does to a map.
  abbrev IsStep : TripKey → SignalBuffer → SignalBuffer → Type 0
  IsStep key out buf = IsStaged buf × ((key == k) ≡ true → IsRead buf) × (IsRead out → IsRead buf)

  skipped :
      (t : SeatStore) (key : TripKey) (out : SignalBuffer)
      → Writes digest cursor s t
      → Writes digest cursor t s'
      → content key t ≡ none
      → IsStaged out
      → IsStep key out out
  skipped t key out w w' e h = (h, found, λ r. r)
    where
      found : (key == k) ≡ true → IsRead out
      found same = elim h.1 [
        | inl absent ↦ (t, w, w', rw absent (rw (← eq→≡ key k same) (sym e)))
        | inr r ↦ r
      ]

  stored :
      (t : SeatStore) (key : TripKey) (sig : SeatSignal) (out : SignalBuffer)
      → Writes digest cursor s t
      → Writes digest cursor t s'
      → content key t ≡ some sig.by_class
      → IsStaged out
      → IsStep key out (insert key sig out)
  stored t key sig out w w' e h = elim (Bool-cases (key == k)) [
    | inl same ↦
        let read : IsRead (insert key sig out) =
          (t, w, w', rw (lookup-insert key k sig out, same) (rw (← eq→≡ key k same) (sym e))) in
        ((insert-IsMap key sig out h.0, inr read), λ q. read, λ q. read)
    | inr other ↦
        let kept : lookup k (insert key sig out) ≡ lookup k out =
          rw (lookup-insert key k sig out, other) in
        ((insert-IsMap key sig out h.0, rw kept h.1), λ q. absurd cc (other, q), λ r. rw kept r)
  ]

  put_signal-IsStep :
      (t : SeatStore) (key : TripKey) (val : SeatValue) (stamps : List SeatValue)
      (out : SignalBuffer)
      → Writes digest cursor s t
      → Writes digest cursor t s'
      → seats_of redis val ≡ content key t
      → IsStaged out
      → IsStep key out (put_signal redis routes now key val stamps out)
  unfolding put_signal signal_of
  put_signal-IsStep t key val stamps out w w' e h = elim (Option-cases (seats_of redis val)) [
    | inl none_there ↦ rw (put_signal, none_there) (skipped t key out w w' (sym e ∙ none_there) h)
    | inr (seats, found) ↦
        rw (put_signal, found)
          (stored t key (signal_of routes now key seats (stamp_of redis stamps)) out w w'
            (sym e ∙ found) h)
  ]

  put_chunk-IsStaged :
      (t : SeatStore) (ks : List TripKey) (vals stamps : List SeatValue) (out : SignalBuffer)
      → Writes digest cursor s t
      → Writes digest cursor t s'
      → map (seats_of redis) vals ≡ map (λ key. lookup key t.maps) (map_keys ks)
      → IsStaged out
      → IsStaged (put_chunk redis routes now ks vals stamps out)
        × (member k ks ≡ true → IsRead (put_chunk redis routes now ks vals stamps out))
        × (IsRead out → IsRead (put_chunk redis routes now ks vals stamps out))
  unfolding put_chunk map_keys member
  put_chunk-IsStaged t [] vals stamps out w w' e h = (h, λ q. absurd cc q, λ r. r)
  put_chunk-IsStaged t (key ∷ ks) [] stamps out w w' e h = absurd cc e
  put_chunk-IsStaged t (key ∷ ks) (val ∷ vals) stamps out w w' e h =
      let here : seats_of redis val ≡ content key t = cc in
      let there : map (seats_of redis) vals ≡ map (λ key. lookup key t.maps) (map_keys ks) = cc in
      let one = put_signal-IsStep t key val stamps out w w' here h in
      let next = put_signal redis routes now key val stamps out in
      let rest = put_chunk-IsStaged t ks vals (rest_of stamps) next w w' there one.0 in
      let among : member k (key ∷ ks) ≡ true
          → IsRead (put_chunk redis routes now ks vals (rest_of stamps) next) =
        λ q. elim (Bool-cases (key == k)) [
          | inl same ↦ rest.2 (one.1 same)
          | inr other ↦ rest.1 (rw (member, other) at q)
        ] in
      (rest.0, among, λ r. rest.2 (one.2 r))

  -- A chunk that the trip stands in.
  abbrev HasTrip : List (List TripKey) → Type 0
  HasTrip = Any (λ chunk. member k chunk ≡ true)

  fetch_chunks-IsStaged :
      (i : ℕ) (cs : List (List TripKey)) (out buf : SignalBuffer)
      → IsServed digest cursor redis s s'
      → fetch_chunks redis routes now i cs out ≡ some buf
      → IsStaged out
      → IsStaged buf × (HasTrip cs → IsRead buf) × (IsRead out → IsRead buf)
  unfolding fetch_chunks
  fetch_chunks-IsStaged i [] out buf served e h = rw (← some_inj e) (h, λ q. absurd q, λ r. r)
    where
      some_inj : some out ≡ some buf → out ≡ buf
      some_inj q = cc
  fetch_chunks-IsStaged i (chunk ∷ cs) out buf served e h =
      elim (Option-cases (redis.pipe i (map_keys chunk) (ts_keys chunk))) [
        | inl failed ↦ absurd cc (rw (fetch_chunks, failed) at e)
        | inr (reply, got) ↦
            let (t, w, w', read) = served i (map_keys chunk) (ts_keys chunk) reply.0 reply.1 got in
            let one = put_chunk-IsStaged t chunk reply.0 reply.1 out w w' read h in
            let rest =
              fetch_chunks-IsStaged (suc i) cs _ buf served (rw (fetch_chunks, got) at e) one.0 in
            (
              rest.0,
              λ q. elim q [ inl here ↦ rest.2 (one.1 here) | inr later ↦ rest.1 later ],
              λ r. rest.2 (one.2 r),
            )
      ]

  split_chunks-has :
      (size room : ℕ) (ks : List TripKey)
      → member k ks ≡ true
      → (member k (split_chunks size room ks).0 ≡ true) ⊎ HasTrip (split_chunks size room ks).1
  unfolding split_chunks member
  split_chunks-has size room [] h = absurd cc h
  split_chunks-has size zero (key ∷ ks) h = elim (Bool-cases (key == k)) [
    | inl same ↦ inr (inl (rw same))
    | inr other ↦ elim (split_chunks-has size (size - 1) ks (rw (member, other) at h)) [
      | inl here ↦ inr (inl (rw (other, here)))
      | inr there ↦ inr (inr there)
    ]
  ]
  split_chunks-has size (suc room) (key ∷ ks) h = elim (Bool-cases (key == k)) [
    | inl same ↦ inl (rw same)
    | inr other ↦ elim (split_chunks-has size room ks (rw (member, other) at h)) [
      | inl here ↦ inl (rw (other, here))
      | inr there ↦ inr there
    ]
  ]

  split_chunks-none : (size : ℕ) (ks : List TripKey) → (split_chunks size 0 ks).0 ≡ []
  unfolding split_chunks
  split_chunks-none size [] = refl
  split_chunks-none size (key ∷ ks) = refl

  chunks-has : (size : ℕ) (ks : List TripKey) → member k ks ≡ true → HasTrip (chunks size ks)
  unfolding chunks member
  chunks-has size ks h = elim (split_chunks-has size 0 ks h) [
    | inl none_left ↦ absurd cc (rw (split_chunks-none size ks, member) at none_left)
    | inr some_chunk ↦ some_chunk
  ]

  -- The map has one signal for a trip, and a trip of the batch has the seats of some read.
  pub fetch_signals-IsStaged :
      (size : ℕ) (ks : List TripKey) (buf : SignalBuffer)
      → IsServed digest cursor redis s s'
      → fetch_signals redis routes now size ks ≡ some buf
      → IsStaged buf × (member k ks ≡ true → IsRead buf)
  unfolding fetch_signals lookup
  fetch_signals-IsStaged size ks buf served e =
      let all = fetch_chunks-IsStaged 0 (chunks size ks) [] buf served e (tt, inl refl) in
      (all.0, λ h. all.1 (chunks-has size ks h))
