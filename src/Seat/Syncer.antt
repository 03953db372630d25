-- ===== src/Seat/Syncer.antt =====
-- internal/seat/refresher.go: the Syncer, which keeps the published seat signals in step with Redis.
-- What a pipeline of two MGETs answers and what the texts decode to are a parameter; waiting, log
-- lines and the cancellation are left out.
pub mod Signals
pub mod Runs
pub mod Current
pub mod Carry
pub mod Stream
pub mod Dirty
pub mod Overlay
pub mod Fetched
pub mod History
pub mod Refresh
use multi_agent_travel.Prelude.Text.{value_of, parse_int}
use Prim.Native.Char.{code}
use multi_agent_travel.Prelude.{
  String, Bool, false, not, ◌&&◌, Option, none, some, nat_eq, if◌then◌else◌, ◌==◌, eq_ℕ, eq_String,
}
use multi_agent_travel.Prelude.Int.{◌-ℤ◌, ℤ, pos, negsuc, ltb_ℤ, leb_ℤ, eq_ℤ}

-- Durations in nanoseconds.
pub record SyncerConfig : Type 0 where
  pub mget_chunk : ℤ
  pub stream_batch : ℤ
  pub stream_block : ℤ
  pub cold_start_attempts : ℤ
  pub min_resync_interval : ℤ

abbrev pub or_default : ℤ → ℤ → ℤ
or_default d n = if leb_ℤ n (pos 0) then d else n

unfoldable pub with_defaults : SyncerConfig → SyncerConfig
with_defaults c = record {
  mget_chunk = or_default (pos 512) c.mget_chunk;
  stream_batch = or_default (pos 500) c.stream_batch;
  stream_block = or_default (pos 2_000_000_000) c.stream_block;
  cold_start_attempts = or_default (pos 5) c.cold_start_attempts;
  min_resync_interval = or_default (pos 30_000_000_000) c.min_resync_interval;
}

-- `last_resync` is none for the zero time.
pub record Syncer : Type 0 where
  pub cfg : SyncerConfig
  pub cursor : String
  pub last_resync : Option ℤ

unfoldable pub new_syncer : SyncerConfig → Syncer
unfolding with_defaults
new_syncer cfg = record { cfg = with_defaults cfg; cursor = "0"; last_resync = none }

unfoldable pub set_cursor : String → Syncer → Syncer
set_cursor id s = record s { cursor = id }

unfoldable pub mark_resynced : ℤ → Syncer → Syncer
mark_resynced now s = record s { last_resync = some now }

unfoldable pub resync_wait : ℤ → Syncer → ℤ
unfolding ◌-ℤ◌
resync_wait now s = elim s.last_resync [
  | none ↦ pos 0
  | some last ↦
      if ltb_ℤ (now -ℤ last) s.cfg.min_resync_interval
      then s.cfg.min_resync_interval -ℤ (now -ℤ last)
      else pos 0
]

-- strings.SplitN(id, "-", 2): what stands before the first dash, and after it.
unfoldable pub split_dash : String → String × Option String
split_dash String.[] = ("", none)
split_dash (String.◌∷◌ c s) =
    let rest = split_dash s in
    if nat_eq (code c) b'-' then ("", some s) else (String.◌∷◌ c rest.0, rest.1)

unfoldable pub split_stream_id : String → ℤ × ℤ
unfolding split_dash parse_int
split_stream_id id = elim ((split_dash id).1) [
  | none ↦ (value_of (parse_int (split_dash id).0), pos 0)
  | some seq ↦ (value_of (parse_int (split_dash id).0), value_of (parse_int seq))
]

unfoldable pub compare_stream_ids : String → String → ℤ
unfolding split_stream_id
compare_stream_ids a b =
    let x = split_stream_id a in
    let y = split_stream_id b in
    if ltb_ℤ x.0 y.0
    then negsuc 0
    else if ltb_ℤ y.0 x.0
    then pos 1
    else if ltb_ℤ x.1 y.1
    then negsuc 0
    else if ltb_ℤ y.1 x.1
    then pos 1
    else pos 0

-- `oldest` is the id of the oldest entry, none where the read fails or the stream is empty.
unfoldable pub lagged : Option String → Syncer → Bool
unfolding compare_stream_ids
lagged oldest s = elim oldest [
  | none ↦ false
  | some id ↦ not (s.cursor == "0") && ltb_ℤ (compare_stream_ids s.cursor id) (pos 0)
]
