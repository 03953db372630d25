-- ===== src/Seat/Syncer/Overlay.antt =====
-- internal/seat/refresher.go: laws of the signal maps that the syncer builds.
use multi_agent_travel.Prelude.GoMap.{lookup-insert, lookup, insert}
use multi_agent_travel.Prelude.{
  ◌≡◌, refl, inl, inr, false, Option, none, some, [], ◌∷◌, arith, Bool-cases, ◌==◌, eq_ℕ, eq_String,
  eq→≡,
}
use multi_agent_travel.Prelude.Int.{eq_ℤ}
use multi_agent_travel.Seat.Syncer.Refresh.{overlay}
use multi_agent_travel.Raptor.State.{SignalBuffer}
use multi_agent_travel.Model.{TripKey, SeatSignal, eq_TripKey}

-- One entry for each key.
abbrev pub IsMap : SignalBuffer → Type 0
IsMap [] = Unit
IsMap ((key, sig) ∷ rest) = (lookup key rest ≡ none) × IsMap rest

pub insert-IsMap :
    (new : TripKey) (sig : SeatSignal) (m : SignalBuffer) → IsMap m → IsMap (insert new sig m)
unfolding insert lookup
insert-IsMap new sig [] h = (refl, tt)
insert-IsMap new sig ((key, old) ∷ rest) h = elim (Bool-cases (key == new)) [
  | inl same ↦ rw same h
  | inr other ↦
      rw other (
        rw (lookup-insert new key sig rest, differ key new other) h.0,
        insert-IsMap new sig rest h.1,
      )
]
  where
    differ : (a b : TripKey) → (a == b) ≡ false → (b == a) ≡ false
    differ a b e = ground (arith, e, eq_TripKey.decides a b, eq_TripKey.decides b a)

-- The updates win over the signals that are live.
abbrev pub newer : Option SeatSignal → Option SeatSignal → Option SeatSignal
newer none old = old
newer (some sig) old = some sig

pub lookup-overlay :
    (k : TripKey) (updates live : SignalBuffer)
    → IsMap updates
    → lookup k (overlay updates live) ≡ newer (lookup k updates) (lookup k live)
unfolding overlay lookup
lookup-overlay k [] live h = refl
lookup-overlay k ((key, sig) ∷ rest) live h = elim (Bool-cases (key == k)) [
  | inl same ↦
      let absent : lookup k rest ≡ none = rw (← eq→≡ key k same) h.0 in
      rw (
        same,
        lookup-overlay k rest (insert key sig live) h.1,
        absent,
        lookup-insert key k sig live,
        same,
      )
  | inr other ↦
      rw (
        other,
        lookup-overlay k rest (insert key sig live) h.1,
        lookup-insert key k sig live,
        other,
      )
]
