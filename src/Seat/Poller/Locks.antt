-- ===== src/Seat/Poller/Locks.antt =====
-- internal/seat/poller.go: who holds the lock of a trip.
use multi_agent_travel.Model.SeatKeys.{seat_hash_key}
use multi_agent_travel.Model.{TripKey}
use multi_agent_travel.Schedule.Buffer.{trip_departure, RouteBuffer}
use multi_agent_travel.Seat.Poller.{
  lock_key, PollRun, without, set_nx, release, polled, poll_trip, fetch_and_write, PollOutcome,
}
use multi_agent_travel.Seat.Gate.{canonical_hash, is_hash, SeatStore, seat_gate, lua_gate}
use multi_agent_travel.Prelude.GoMap.{lookup, GoMap, member}
use multi_agent_travel.Prelude.{
  String, ◌≡◌, refl, ap, inl, inr, Bool, true, false, not, ◌||◌, List, [], ◌∷◌, arith,
  if◌then◌else◌, Bool-cases, Option-cases, ◌==◌, eq_ℕ, eq_String, ==_refl,
}
use multi_agent_travel.Prelude.Int.{eqb_ℤ, ℤ, pos, eq_ℤ}

-- The run went through to the gate.
abbrev pub is_polled : PollOutcome → Bool
is_polled (polled changed) = true
is_polled _ = false

without_absent : (key : String) (ks : List String) → member key ks ≡ false → without key ks ≡ ks
unfolding member
without_absent key [] h = refl
without_absent key (k ∷ ks) h = elim (Bool-cases (k == key)) [
  | inl same ↦ absurd (ground (arith, rw (member, same) at h))
  | inr other ↦ rw other (ap (◌∷◌ k) (without_absent key ks (rw (member, other) at h)))
]

without_added :
    (key : String) (ks : List String) → member key ks ≡ false → without key (key ∷ ks) ≡ ks
without_added key ks h = rw (==_refl key) (without_absent key ks h)

lua_gate-locks :
    (digest : String → String) (t d : String) (seats : GoMap String ℤ) (ts : ℤ) (id : String)
    (s : SeatStore)
    → (lua_gate digest t d seats ts id s).0.locks ≡ s.locks
unfolding lua_gate seat_gate
lua_gate-locks digest t d seats ts id s =
    elim (Bool-cases
      (is_hash (canonical_hash digest seats) (lookup (seat_hash_key t d) s.hashes))) [
        | inl same ↦ rw same
        | inr new ↦ rw new
      ]

fetch_and_write-locks :
    (digest : String → String) (run : PollRun) (ts : ℤ) (k : TripKey) (s : SeatStore)
    → run.frees ≡ true
    → member (lock_key k) s.locks ≡ false
    → (fetch_and_write digest run ts k (record s { locks = lock_key k ∷ s.locks })).0.locks ≡ (
        if is_polled (fetch_and_write digest run ts k (record s { locks = lock_key k ∷ s.locks })).1
        then lock_key k ∷ s.locks
        else s.locks)
unfolding fetch_and_write release
fetch_and_write-locks digest run ts k s frees free = elim (Option-cases run.seats) [
  | inl failed ↦ rw (failed, frees) (without_added (lock_key k) s.locks free)
  | inr (seats, e) ↦ elim (Bool-cases run.gate_works) [
    | inl works ↦
        rw (e, works)
          (lua_gate-locks digest k.trip_id k.date seats ts run.entry_id
            (record s { locks = lock_key k ∷ s.locks }))
    | inr broken ↦ rw (e, broken, frees) (without_added (lock_key k) s.locks free)
  ]
]

-- After a poll of a trip the locks are those before it, and the lock of the trip besides where the
-- run reached the gate and the gate worked: every failure gives the lock back, and a run that is
-- refused the lock leaves the one of its owner. DEL works.
pub poll_trip-locks :
    (digest : String → String) (buf : RouteBuffer) (run : PollRun) (ts : ℤ) (k : TripKey)
    (s : SeatStore)
    → run.frees ≡ true
    → (poll_trip digest buf run ts k s).0.locks
      ≡ (if is_polled (poll_trip digest buf run ts k s).1 then lock_key k ∷ s.locks else s.locks)
unfolding poll_trip set_nx
poll_trip-locks digest buf run ts k s frees = elim (Bool-cases (k.trip_id == "" || k.date == "")) [
  | inl unnamed ↦ rw unnamed
  | inr named ↦ elim (Bool-cases (eqb_ℤ (trip_departure buf k) (pos 0))) [
    | inl gone ↦ rw (named, gone)
    | inr scheduled ↦ elim (Bool-cases (not run.locks_work)) [
      | inl broken ↦ rw (named, scheduled, broken)
      | inr works ↦ elim (Bool-cases (member (lock_key k) s.locks)) [
        | inl owned ↦ rw (named, scheduled, works, owned)
        | inr free ↦
            rw (named, scheduled, works, free) (fetch_and_write-locks digest run ts k s frees free)
      ]
    ]
  ]
]
