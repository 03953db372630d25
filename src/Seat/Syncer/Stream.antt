-- ===== src/Seat/Syncer/Stream.antt =====
-- internal/seat/refresher.go: what XREAD and XREVRANGE find in the dirty stream, and which trips a
-- batch names.
use multi_agent_travel.Prelude.GoMap.{lookup}
use multi_agent_travel.Prelude.{
  keep_if, Any, All-take, ℕ, zero, suc, String, ◌≡◌, ◌⊎◌, inl, inr, Bool, true, some, List, [], ◌∷◌,
  ◌++◌, map, Bool-cases, eq_ℕ, eq_String, take, All, All-append,
}
use multi_agent_travel.Prelude.Int.{eqb_ℤ, negsuc, eq_ℤ}
use multi_agent_travel.Model.{TripKey, eq_TripKey}
use multi_agent_travel.Model.SeatKeys.{seat_hash_key}
use multi_agent_travel.Seat.Gate.{
  canonical_hash, is_hash, SeatStore, StreamEntry, lua_gate, seat_gate,
}
use multi_agent_travel.Seat.Syncer.{compare_stream_ids}
use multi_agent_travel.Seat.Syncer.History.{done, write, Writes, IsAfter, IsNew, IsNaming}
use multi_agent_travel.Seat.Syncer.Refresh.{Message, StreamHead, empty, newest, last_id}

abbrev pub is_after : String → StreamEntry → Bool
is_after cursor e = eqb_ℤ (compare_stream_ids cursor e.id) (negsuc 0)

abbrev pub message : StreamEntry → Message
message e = record { id = e.id; trip = some e.trip }

-- The first entries after the cursor.
abbrev pub read_after : ℕ → String → List StreamEntry → List StreamEntry
read_after n cursor es = take n (keep_if (is_after cursor) es)

abbrev pub head_of : List StreamEntry → StreamHead
head_of [] = empty
head_of (e ∷ []) = newest e.id
head_of (e ∷ f ∷ es) = head_of (f ∷ es)

-- Each entry has an id after those of the entries before it.
abbrev pub IsOrdered : List StreamEntry → Type 0
IsOrdered [] = Unit
IsOrdered (e ∷ es) = All (λ f. IsAfter e.id f.id) es × IsOrdered es

IsOrdered-append :
    (es : List StreamEntry) (e : StreamEntry)
    → All (λ f. IsAfter f.id e.id) es
    → IsOrdered es
    → IsOrdered (es ++ (e ∷ []))
IsOrdered-append [] e h o = (tt, tt)
IsOrdered-append (f ∷ es) e h o =
    (All-append (λ g. IsAfter f.id g.id) es (e ∷ []) o.0 (h.0, tt), IsOrdered-append es e h.1 o.1)

pub Writes-IsOrdered :
    (digest : String → String) (cursor : String) (s s' : SeatStore)
    → Writes digest cursor s s'
    → IsOrdered s.stream
    → IsOrdered s'.stream
unfolding lua_gate seat_gate
Writes-IsOrdered digest cursor s s' done o = o
Writes-IsOrdered digest cursor s s' (write t trip_id date seats ts id before new) o =
    let inner = Writes-IsOrdered digest cursor s t before o in
    elim (Bool-cases
      (is_hash (canonical_hash digest seats) (lookup (seat_hash_key trip_id date) t.hashes))) [
        | inl same ↦ rw same inner
        | inr other ↦ rw other (IsOrdered-append t.stream _ new.1 inner)
      ]

All-keep_if :
    (P : StreamEntry → Type 0) (p : StreamEntry → Bool) (es : List StreamEntry)
    → All P es
    → All P (keep_if p es)
All-keep_if P p [] h = tt
All-keep_if P p (e ∷ es) h = elim (Bool-cases (p e)) [
  | inl in_it ↦ rw in_it (h.0, All-keep_if P p es h.1)
  | inr out ↦ rw out (All-keep_if P p es h.1)
]

pub IsOrdered-keep_if :
    (p : StreamEntry → Bool) (es : List StreamEntry) → IsOrdered es → IsOrdered (keep_if p es)
IsOrdered-keep_if p [] o = tt
IsOrdered-keep_if p (e ∷ es) o = elim (Bool-cases (p e)) [
  | inl in_it ↦ rw in_it (All-keep_if (λ f. IsAfter e.id f.id) p es o.0, IsOrdered-keep_if p es o.1)
  | inr out ↦ rw out (IsOrdered-keep_if p es o.1)
]

last_id-All :
    (P : String → Type 0) (c : String) (es : List StreamEntry)
    → P c
    → All (λ e. P e.id) es
    → P (last_id c (map message es))
unfolding last_id
last_id-All P c [] h k = h
last_id-All P c (e ∷ es) h k = last_id-All P e.id es k.0 k.1

-- A new id comes after the last one of a batch.
pub new-IsAfter_batch :
    (n : ℕ) (cursor id : String) (es : List StreamEntry)
    → IsNew cursor es id
    → IsAfter (last_id cursor (map message (read_after n cursor es))) id
new-IsAfter_batch n cursor id es new =
    last_id-All (λ i. IsAfter i id) cursor (read_after n cursor es) new.0
      (All-take (λ e. IsAfter e.id id) n _
        (All-keep_if (λ e. IsAfter e.id id) (is_after cursor) es new.1))

-- An entry for the trip that is yet to be read.
abbrev pub IsPending : TripKey → String → List StreamEntry → Type 0
IsPending k cursor es = Any (λ e. IsNaming k e × IsAfter cursor e.id) es

pub kept :
    (k : TripKey) (cursor : String) (es : List StreamEntry)
    → IsPending k cursor es
    → IsPending k cursor (keep_if (is_after cursor) es)
kept k cursor [] h = h
kept k cursor (e ∷ es) (inl here) =
    let test : is_after cursor e ≡ true = rw here.1 in rw test (inl here)
kept k cursor (e ∷ es) (inr there) = elim (Bool-cases (is_after cursor e)) [
  | inl in_it ↦ rw in_it (inr (kept k cursor es there))
  | inr out ↦ rw out (kept k cursor es there)
]

pub unkept :
    (P : StreamEntry → Type 0) (p : StreamEntry → Bool) (es : List StreamEntry)
    → Any P (keep_if p es)
    → Any P es
unkept P p [] h = h
unkept P p (e ∷ es) h = elim (Bool-cases (p e)) [
  | inl in_it ↦ elim (rw in_it at h) [ inl here ↦ inl here | inr there ↦ inr (unkept P p es there) ]
  | inr out ↦ inr (unkept P p es (rw out at h))
]

pub read_or_later :
    (k : TripKey) (n : ℕ) (cursor : String) (es : List StreamEntry)
    → IsOrdered es
    → IsPending k cursor es
    → Any (IsNaming k) (take n es) ⊎ IsPending k (last_id cursor (map message (take n es))) es
unfolding last_id
read_or_later k zero cursor es o h = inr h
read_or_later k (suc n) cursor [] o h = inl h
read_or_later k (suc n) cursor (e ∷ es) o (inl here) = inl (inl here.0)
read_or_later k (suc n) cursor (e ∷ es) o (inr there) =
    elim (read_or_later k n e.id es o.1 (after es o.0 there)) [
      | inl now ↦ inl (inr now)
      | inr later ↦ inr (inr later)
    ]
  where
    after :
        (fs : List StreamEntry)
        → All (λ f. IsAfter e.id f.id) fs
        → IsPending k cursor fs
        → IsPending k e.id fs
    after [] a p = p
    after (f ∷ fs) a (inl p) = inl (p.0, a.0)
    after (f ∷ fs) a (inr p) = inr (after fs a.1 p)
