-- ===== src/Seat/Syncer/Carry.antt =====
-- internal/seat/refresher.go: what the syncer knows of a trip stays true while pollers write.
use multi_agent_travel.Prelude.{
  Any, String, ◌≡◌, refl, sym, ◌∙◌, ◌≢◌, ◌⊎◌, inl, inr, none, List, [], ◌∷◌, eq_ℕ, eq_String, All,
}
use multi_agent_travel.Prelude.Int.{eq_ℤ}
use multi_agent_travel.Model.{TripKey, eq_TripKey}
use multi_agent_travel.Raptor.State.{SignalBuffer}
use multi_agent_travel.Seat.Gate.{SeatStore, StreamEntry}
use multi_agent_travel.Seat.Syncer.History.{
  content, Grown, Grown-keeps, IsAfter, IsNew, IsNaming, All-left, Any-right, Any-left,
}
use multi_agent_travel.Seat.Syncer.Fetched.{seats_in}
use multi_agent_travel.Seat.Syncer.Stream.{head_of, IsPending}
use multi_agent_travel.Seat.Syncer.Refresh.{StreamHead}

-- The published seats of a trip are those in Redis, or an entry after the cursor names the trip.
abbrev pub IsCurrent : TripKey → String → SignalBuffer → SeatStore → Type 0
IsCurrent k cursor live s =
    (seats_in k live ≡ content k s) ⊎ ((content k s ≢ none) × IsPending k cursor s.stream)

-- New entries come after a position.
abbrev pub IsPast : String → String → List StreamEntry → Type 0
IsPast cursor last es = (id : String) → IsNew cursor es id → IsAfter last id

module _ (cursor last : String) (k : TripKey) where
  past_named :
      (es added : List StreamEntry)
      → IsPast cursor last es
      → All (λ e. IsNew cursor es e.id) added
      → Any (IsNaming k) added
      → IsPending k last added
  past_named es [] past fresh h = h
  past_named es (e ∷ added) past fresh (inl here) = inl (here, past e.id fresh.0)
  past_named es (e ∷ added) past fresh (inr there) = inr (past_named es added past fresh.1 there)

  -- What holds of the seats that were read holds after the writes that follow.
  pub carry_seats :
      (live : SignalBuffer) (s s' : SeatStore)
      → IsPast cursor last s.stream
      → Grown cursor k s s'
      → seats_in k live ≡ content k s
      → IsCurrent k last live s'
  carry_seats live s s' past g h = elim g.changed [
    | inl same ↦ inl (h ∙ sym same)
    | inr new ↦ inr (
      new.0,
      rw g.stream (Any-right _ s.stream g.added (past_named s.stream g.added past g.fresh new.1)),
    )
  ]

  pub carry_pending :
      (live : SignalBuffer) (s s' : SeatStore)
      → Grown cursor k s s'
      → content k s ≢ none
      → IsPending k last s.stream
      → IsCurrent k last live s'
  carry_pending live s s' g some_there h =
      inr (Grown-keeps cursor k s s' g some_there, rw g.stream (Any-left _ s.stream g.added h))

  pub IsPast-later :
      (s t : SeatStore)
      → Grown cursor k s t
      → IsPast cursor last s.stream
      → IsPast cursor last t.stream
  IsPast-later s t g past id new =
      past id (new.0, All-left (λ e. IsAfter e.id id) s.stream g.added (rw g.stream at new.1))

-- Where the stream ends, nothing is pending but what is new.
pub head-IsPast :
    (cursor : String) (e : StreamEntry) (es : List StreamEntry)
    → (last : String) × (head_of (e ∷ es) ≡ StreamHead.newest last) × IsPast cursor last (e ∷ es)
head-IsPast cursor e [] = (e.id, refl, λ id new. new.1.0)
head-IsPast cursor e (f ∷ es) =
    let (last, here, past) = head-IsPast cursor f es in
    (last, here, λ id new. past id (new.0, new.1.1))
