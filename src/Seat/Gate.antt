-- ===== src/Seat/Gate.antt =====
-- internal/seat/luagate.go and internal/seat/lua/seat_gate.lua: the write-through of the seat data of a
-- trip. The keys of Redis that the program uses are one store; a script is one step on it. SHA-256 is
-- a parameter, `digest`. The JSON text of a seat map is kept as the map that it encodes, and a
-- timestamp in nanoseconds.
pub mod Synced
use Prim.Native.String.{◌++◌ as append}
use multi_agent_travel.Prelude.Sorting.{str_ltb, sort}
use multi_agent_travel.Prelude.GoMap.{lookup_or, keys, insert, lookup, GoMap}
use multi_agent_travel.Model.SeatKeys.{seat_trip_date, seat_ts_key, seat_map_key, seat_hash_key}
use multi_agent_travel.Model.Dates.{show_padded}
use multi_agent_travel.Prelude.{
  ℕ, zero, suc, ◌+◌, ◌-◌, ◌*◌, ◌/◌, ◌≤◌, ◌<◌, String, ◌≡◌, refl, sym, ap, ◌∙◌, ◌≢◌, ◌↔◌, ◌⊎◌, inl,
  inr, Bool, true, false, not, ◌&&◌, ◌||◌, Option, none, some, List, [], ◌∷◌, ◌++◌, map, arith, ltb,
  leb, nat_eq, if◌then◌else◌, Bool-cases, Option-cases, ◌==◌, Eq, eq_ℕ, eq_String, eq→≡, ==_refl,
  length, get_elem?, take, drop, is_empty, All, All-map, All-get, All-append,
}
use multi_agent_travel.Prelude.Int.{
  ℤ, pos, negsuc, pos_part, neg_part, ltb_ℤ, leb_ℤ, ◌≤ℤ◌, ◌<ℤ◌, eq_ℤ, add64, max_int64,
}

-- An entry of the dirty stream, which is a list, oldest first.
pub record StreamEntry : Type 0 where
  pub id : String
  pub trip : String
  pub changed_at : ℤ

pub record SeatStore : Type 0 where
  pub hashes : GoMap String String
  pub maps : GoMap String (GoMap String ℤ)
  pub stamps : GoMap String ℤ
  pub stream : List StreamEntry
  pub locks : List String

-- %d.
unfoldable pub show_int : ℤ → String
unfolding show_padded
show_int n =
    if ltb 0 (neg_part n)
    then append "-" (show_padded 20 1 (neg_part n) "")
    else show_padded 20 1 (pos_part n) ""

unfoldable pub hash_text : List String → GoMap String ℤ → String
unfolding show_int
hash_text [] m = ""
hash_text (k ∷ ks) m =
    append k (append ":" (append (show_int (lookup_or (pos 0) k m)) (append "," (hash_text ks m))))

unfoldable pub canonical_hash : (String → String) → GoMap String ℤ → String
unfolding hash_text sort str_ltb
canonical_hash digest m = digest (hash_text (sort str_ltb (keys m)) m)

abbrev pub is_hash : String → Option String → Bool
is_hash hash none = false
is_hash hash (some h) = h == hash

-- seat_gate.lua: KEYS[1] to KEYS[3], then ARGV[1] to ARGV[4], and the id that Redis gives to a new
-- entry. The trim of the stream is not here.
unfoldable pub seat_gate :
    String
    → String
    → String
    → String
    → GoMap String ℤ
    → ℤ
    → String
    → String
    → SeatStore
    → SeatStore × Bool
seat_gate hash_key map_key ts_key hash seats ts trip_date id s =
    let changed = not (is_hash hash (lookup hash_key s.hashes)) in
    let written =
      if changed
      then record s {
        maps = insert map_key seats s.maps;
        hashes = insert hash_key hash s.hashes;
        stream = s.stream ++ (record { id = id; trip = trip_date; changed_at = ts } ∷ []);
      }
      else s in
    (record written { stamps = insert ts_key ts written.stamps }, changed)

unfoldable pub lua_gate :
    (String → String) → String → String → GoMap String ℤ → ℤ → String → SeatStore → SeatStore × Bool
unfolding canonical_hash seat_gate seat_hash_key seat_map_key seat_ts_key seat_trip_date
lua_gate digest trip_id date seats ts id s =
    seat_gate (seat_hash_key trip_id date) (seat_map_key trip_id date) (seat_ts_key trip_id date)
      (canonical_hash digest seats) seats ts (seat_trip_date trip_id date) id s
