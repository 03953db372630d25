-- ===== src/Seat/Gate/Synced.antt =====
-- internal/seat/luagate.go: the stored hash of a trip is that of its stored seats.
use multi_agent_travel.Seat.Gate.{seat_gate, lua_gate, canonical_hash, is_hash, SeatStore}
use multi_agent_travel.Prelude.GoMap.{lookup-insert, lookup, GoMap}
use multi_agent_travel.Model.SeatKeys.{seat_trip_date, seat_map_key, seat_hash_key}
use Prim.Native.String.{◌++◌ as append}
use text.Mathlib.TextLemmas.{append_cancel_left}
use multi_agent_travel.Prelude.{
  not, String, ◌≡◌, sym, ap, ◌∙◌, inl, inr, true, Option, none, some, [], ◌∷◌, ◌++◌, if◌then◌else◌,
  Bool-cases, ◌==◌, eq_ℕ, eq_String, eq→≡, ==_refl,
}
use multi_agent_travel.Prelude.Int.{ℤ, eq_ℤ}

pub append-same : (p x y : String) → (append p x == append p y) ≡ (x == y)
append-same p x y = elim (Bool-cases (x == y)) [
  | inl same ↦ rw (eq→≡ x y same, ==_refl (append p y), ==_refl y)
  | inr other ↦ elim (Bool-cases (append p x == append p y)) [
    | inl e ↦
        let same = append_cancel_left p x y (eq→≡ (append p x) (append p y) e) in
        let equal : (x == y) ≡ true = rw same (==_refl y) in absurd cc (other, equal)
    | inr e ↦ rw (e, other)
  ]
]

-- Two trips share a hash key exactly where they share a map key.
keys_agree :
    (t d t' d' : String)
    → (seat_hash_key t d == seat_hash_key t' d') ≡ (seat_map_key t d == seat_map_key t' d')
unfolding seat_hash_key seat_map_key
keys_agree t d t' d' =
    append-same "seat:hash:" (append t (append ":" d)) (append t' (append ":" d'))
    ∙ sym (append-same "seat:map:" (append t (append ":" d)) (append t' (append ":" d')))

abbrev pub hashed : (String → String) → Option (GoMap String ℤ) → Option String
hashed digest none = none
hashed digest (some m) = some (canonical_hash digest m)

pub record IsSynced (digest : String → String) (s : SeatStore) : Type 0 where
  pub matches :
      (t d : String)
      → lookup (seat_hash_key t d) s.hashes ≡ hashed digest (lookup (seat_map_key t d) s.maps)

is_hash-some : (hash : String) (o : Option String) → is_hash hash o ≡ true → o ≡ some hash
is_hash-some hash none h = absurd cc
is_hash-some hash (some g) h = ap some (eq→≡ g hash h)

module _ (digest : String → String) (t d : String) (seats : GoMap String ℤ) (ts : ℤ) (id : String)
    (s : SeatStore) where
  -- The gate of one trip keeps the stored hash of every trip that of its stored seats.
  pub lua_gate-IsSynced : IsSynced digest s → IsSynced digest (lua_gate digest t d seats ts id s).0
  unfolding lua_gate seat_gate
  lua_gate-IsSynced h =
      let hash = canonical_hash digest seats in
      elim (Bool-cases (is_hash hash (lookup (seat_hash_key t d) s.hashes))) [
        | inl same ↦ record { matches = λ t' d'. rw same (h.matches t' d') }
        | inr new ↦ record {
          matches = λ t' d'.
              let first = lookup-insert (seat_hash_key t d) (seat_hash_key t' d') hash s.hashes in
              let second = lookup-insert (seat_map_key t d) (seat_map_key t' d') seats s.maps in
              elim (Bool-cases (seat_map_key t d == seat_map_key t' d')) [
                | inl here ↦ rw (new, first, second, keys_agree t d t' d', here)
                | inr there ↦ rw (new, first, second, keys_agree t d t' d', there) (h.matches t' d')
              ];
        }
      ]

  -- Where the stored hashes are those of the stored seats, the gate of one trip keeps them so,
  -- leaves seats with the hash of the new ones, reports a change exactly where the stored hash was
  -- not that of the new seats, and appends an entry that names the trip exactly where it reports a
  -- change.
  pub lua_gate_effect :
      IsSynced digest s
      → IsSynced digest (lua_gate digest t d seats ts id s).0
        × (hashed digest (lookup (seat_map_key t d) (lua_gate digest t d seats ts id s).0.maps)
            ≡ some (canonical_hash digest seats))
        × ((lua_gate digest t d seats ts id s).1
            ≡ not (is_hash (canonical_hash digest seats) (lookup (seat_hash_key t d) s.hashes)))
        × ((lua_gate digest t d seats ts id s).0.stream ≡ (
            if (lua_gate digest t d seats ts id s).1
            then s.stream ++ (record { id = id; trip = seat_trip_date t d; changed_at = ts } ∷ [])
            else s.stream))
  unfolding lua_gate seat_gate
  lua_gate_effect h =
      let hash = canonical_hash digest seats in
      let kept = lua_gate-IsSynced h in
      elim (Bool-cases (is_hash hash (lookup (seat_hash_key t d) s.hashes))) [
        | inl same ↦
            let stored = sym (h.matches t d) ∙ is_hash-some hash _ same in
            (kept, rw same stored, rw same, rw same)
        | inr new ↦
            let second = lookup-insert (seat_map_key t d) (seat_map_key t d) seats s.maps in
            (kept, rw (new, second, ==_refl (seat_map_key t d)), rw new, rw new)
      ]
