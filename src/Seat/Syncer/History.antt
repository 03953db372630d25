-- ===== src/Seat/Syncer/History.antt =====
-- internal/seat/refresher.go and luagate.go: how the seat data in Redis changes while the syncer
-- reads it. Redis gives a new entry an id after every id that it gave before.
use multi_agent_travel.Prelude.GoMap.{lookup-insert, insert, lookup, GoMap}
use multi_agent_travel.Model.SeatKeys.{seat_map_key, seat_hash_key, seat_trip_date}
use multi_agent_travel.Prelude.{
  Any, String, ◌≡◌, refl, sym, ap, ◌∙◌, ◌≢◌, ◌⊎◌, inl, inr, true, Option, none, some, List, [], ◌∷◌,
  ◌++◌, Bool-cases, ◌==◌, eq_ℕ, eq_String, eq→≡, All, All-map, All-append,
}
use multi_agent_travel.Prelude.Int.{ℤ, negsuc, eq_ℤ}
use multi_agent_travel.Model.{TripKey}
use text.Mathlib.TextLemmas.{append_cancel_left}
use Prim.Native.String.{◌++◌ as append}
use multi_agent_travel.Seat.Gate.{
  SeatStore, StreamEntry, seat_gate, lua_gate, canonical_hash, is_hash,
}
use multi_agent_travel.Seat.Syncer.{compare_stream_ids}

abbrev pub content : TripKey → SeatStore → Option (GoMap String ℤ)
content k s = lookup (seat_map_key k.trip_id k.date) s.maps

abbrev pub IsNaming : TripKey → StreamEntry → Type 0
IsNaming k e = e.trip ≡ seat_trip_date k.trip_id k.date

abbrev pub IsAfter : String → String → Type 0
IsAfter a b = compare_stream_ids a b ≡ negsuc 0

-- Nothing, the cursor included, comes after a new id.
abbrev pub IsNew : String → List StreamEntry → String → Type 0
IsNew cursor es id = IsAfter cursor id × All (λ e. IsAfter e.id id) es

-- What the gate does in any number of runs, for any trips.
pub data Writes (digest : String → String) (cursor : String) (s : SeatStore)
    : SeatStore → Type 0 where
  done : Writes digest cursor s s
  write :
      (t : SeatStore) (trip_id date : String) (seats : GoMap String ℤ) (ts : ℤ) (id : String)
      → Writes digest cursor s t
      → IsNew cursor t.stream id
      → Writes digest cursor s (lua_gate digest trip_id date seats ts id t).0

-- What a run of writes means for one trip: its seats are the same, or an entry names it.
pub record Grown (cursor : String) (k : TripKey) (s s' : SeatStore) : Type 0 where
  pub added : List StreamEntry
  pub stream : s'.stream ≡ s.stream ++ added
  pub fresh : All (λ e. IsNew cursor s.stream e.id) added
  pub changed : (content k s' ≡ content k s) ⊎ ((content k s' ≢ none) × Any (IsNaming k) added)

append_nil : {A : Type 0} → (xs : List A) → xs ≡ xs ++ []
append_nil [] = refl
append_nil (x ∷ xs) = ap (◌∷◌ x) (append_nil xs)

append_assoc : {A : Type 0} → (xs ys zs : List A) → (xs ++ ys) ++ zs ≡ xs ++ (ys ++ zs)
append_assoc [] ys zs = refl
append_assoc (x ∷ xs) ys zs = ap (◌∷◌ x) (append_assoc xs ys zs)

pub All-left : {A : Type 0} → (P : A → Type 0) (xs ys : List A) → All P (xs ++ ys) → All P xs
All-left P [] ys h = tt
All-left P (x ∷ xs) ys h = (h.0, All-left P xs ys h.1)

pub Any-left : {A : Type 0} → (P : A → Type 0) (xs ys : List A) → Any P xs → Any P (xs ++ ys)
Any-left P [] ys h = absurd h
Any-left P (x ∷ xs) ys (inl h) = inl h
Any-left P (x ∷ xs) ys (inr h) = inr (Any-left P xs ys h)

pub Any-right : {A : Type 0} → (P : A → Type 0) (xs ys : List A) → Any P ys → Any P (xs ++ ys)
Any-right P [] ys h = h
Any-right P (x ∷ xs) ys h = inr (Any-right P xs ys h)

pub Grown-refl : (cursor : String) (k : TripKey) (s : SeatStore) → Grown cursor k s s
Grown-refl cursor k s = record {
  added = [];
  stream = append_nil s.stream;
  fresh = tt;
  changed = inl refl;
}

-- The seats of a trip are never removed.
pub Grown-keeps :
    (cursor : String) (k : TripKey) (s s' : SeatStore)
    → Grown cursor k s s'
    → content k s ≢ none
    → content k s' ≢ none
Grown-keeps cursor k s s' g h = elim g.changed [
  | inl same ↦ λ e. h (sym same ∙ e)
  | inr new ↦ new.0
]

changed_trans :
    (k : TripKey) (s t u : SeatStore) (xs ys : List StreamEntry)
    → (content k t ≡ content k s) ⊎ ((content k t ≢ none) × Any (IsNaming k) xs)
    → (content k u ≡ content k t) ⊎ ((content k u ≢ none) × Any (IsNaming k) ys)
    → (content k u ≡ content k s) ⊎ ((content k u ≢ none) × Any (IsNaming k) (xs ++ ys))
changed_trans k s t u xs ys (inl p) (inl q) = inl (q ∙ p)
changed_trans k s t u xs ys (inr p) (inl q) =
    inr ((λ e. p.0 (sym q ∙ e)), Any-left (IsNaming k) xs ys p.1)
changed_trans k s t u xs ys p (inr q) = inr (q.0, Any-right (IsNaming k) xs ys q.1)

pub Grown-trans :
    (cursor : String) (k : TripKey) (s t u : SeatStore)
    → Grown cursor k s t
    → Grown cursor k t u
    → Grown cursor k s u
Grown-trans cursor k s t u g h = record {
  added = g.added ++ h.added;
  stream = h.stream ∙ rw g.stream (append_assoc s.stream g.added h.added);
  fresh =
      All-append (λ e. IsNew cursor s.stream e.id) g.added h.added g.fresh
        (All-map (λ e. IsNew cursor t.stream e.id) (λ e. IsNew cursor s.stream e.id)
          (λ e new.
            (new.0, All-left (λ f. IsAfter f.id e.id) s.stream g.added (rw g.stream at new.1)))
          h.added h.fresh);
  changed = changed_trans k s t u g.added h.added g.changed h.changed;
}

some≢none : {A : Type 0} → {x : A} {o : Option A} → o ≡ some x → o ≢ none
some≢none h e = cc

-- A trip whose key is written is named by the entry.
written_name :
    (k : TripKey) (t d : String)
    → (seat_map_key t d == seat_map_key k.trip_id k.date) ≡ true
    → seat_trip_date t d ≡ seat_trip_date k.trip_id k.date
unfolding seat_map_key seat_trip_date
written_name k t d h =
    append_cancel_left "seat:map:" (append t (append ":" d)) (append k.trip_id (append ":" k.date))
      (eq→≡ _ _ h)

module _ (digest : String → String) (cursor : String) (k : TripKey) where
  gate-changed :
      (s : SeatStore) (t d : String) (seats : GoMap String ℤ) (ts : ℤ) (id : String)
      → (content k (record s { maps = insert (seat_map_key t d) seats s.maps }) ≡ content k s)
        ⊎ ((content k (record s { maps = insert (seat_map_key t d) seats s.maps }) ≢ none)
            × Any
                (IsNaming k)
                (record { id = id; trip = seat_trip_date t d; changed_at = ts } ∷ []))
  gate-changed s t d seats ts id =
      let put = lookup-insert (seat_map_key t d) (seat_map_key k.trip_id k.date) seats s.maps in
      elim (Bool-cases (seat_map_key t d == seat_map_key k.trip_id k.date)) [
        | inl here ↦ inr (some≢none {x = seats} (rw here at put), inl (written_name k t d here))
        | inr there ↦ inl (rw there at put)
      ]

  gate-Grown :
      (s : SeatStore) (t d : String) (seats : GoMap String ℤ) (ts : ℤ) (id : String)
      → IsNew cursor s.stream id
      → Grown cursor k s (lua_gate digest t d seats ts id s).0
  unfolding lua_gate seat_gate
  gate-Grown s t d seats ts id new =
      elim (Bool-cases
        (is_hash (canonical_hash digest seats) (lookup (seat_hash_key t d) s.hashes))) [
          | inl same ↦ record {
            added = [];
            stream = rw same (append_nil s.stream);
            fresh = tt;
            changed = inl (rw same);
          }
          | inr other ↦ record {
            added = record { id = id; trip = seat_trip_date t d; changed_at = ts } ∷ [];
            stream = rw other;
            fresh = (new, tt);
            changed = rw other (gate-changed s t d seats ts id);
          }
        ]

  pub Writes-Grown : (s s' : SeatStore) → Writes digest cursor s s' → Grown cursor k s s'
  Writes-Grown s s' done = Grown-refl cursor k s
  Writes-Grown s s' (write t trip_id date seats ts id before new) =
      Grown-trans cursor k s t (lua_gate digest trip_id date seats ts id t).0
        (Writes-Grown s t before) (gate-Grown t trip_id date seats ts id new)
