-- ===== src/Api/Search.antt =====
-- internal/api/search.go: the search handler, and the part of internal/api/server.go that makes its
-- validator. The query of a request is a parameter: `query` answers Ctx.Query and `query_int`
-- Ctx.QueryInt, each with the default that is given. The timings of the answer are left out.
pub mod Safe
pub mod Params
use multi_agent_travel.Raptor.State.{SignalBuffer}
use multi_agent_travel.Prelude.GoMap.{lookup}
use multi_agent_travel.Model.Dates.{valid_date}
use multi_agent_travel.Schedule.Buffer.{RouteBuffer}
use multi_agent_travel.Raptor.Validator.{Validator, Redis, new_validator}
use multi_agent_travel.Raptor.Search.{raptor_search}
use multi_agent_travel.Prelude.Text.{
  no_number, exact, clamped, Parsed, trim_space, parse_int, byte_length,
}
use multi_agent_travel.Model.{max_allowed_rounds, max_passengers, SearchParams, JourneyPath}
use multi_agent_travel.Config.{Config}
use multi_agent_travel.Raptor.Validator
use multi_agent_travel.Prelude.{
  ℕ, String, Bool, true, false, not, ◌||◌, none, some, List, ltb, if◌then◌else◌, ◌==◌, eq_ℕ,
  eq_String,
}
use multi_agent_travel.Prelude.Int.{ℤ, pos, ltb_ℤ, leb_ℤ, eq_ℤ}

pub record Query : Type 0 where
  pub query : String → String → String
  pub query_int : String → ℤ → ℤ

abbrev pub max_departure_unix : ℤ
max_departure_unix = pos 7_258_118_400

pub data SearchError : Type 0 where
  missing_field same_station bad_date missing_dep_time bad_dep_time : SearchError
  past_dep_time distant_dep_time long_seat_class : SearchError
  many_passengers bad_max_rounds bad_min_transfer : SearchError

pub data ParsedSearch : Type 0 where
  parsed : SearchParams → ParsedSearch
  refused : SearchError → ParsedSearch

abbrev pub seat_class_of : String → String
seat_class_of s = if s == "" then "lower" else s

abbrev pub passengers_of : ℤ → ℤ
passengers_of n = if ltb_ℤ n (pos 1) then pos 1 else n

-- The checks that follow dep_time, in their order.
unfoldable pub check_options : Config → SearchParams → ParsedSearch
unfolding byte_length
check_options cfg p =
    if ltb 32 (byte_length p.seat_class)
    then refused long_seat_class
    else if ltb_ℤ max_passengers p.passengers
    then refused many_passengers
    else if ltb_ℤ p.max_rounds (pos 1) || ltb_ℤ max_allowed_rounds p.max_rounds
    then refused bad_max_rounds
    else if ltb_ℤ p.min_transfer_seconds (pos 0) || ltb_ℤ (pos 21_600) p.min_transfer_seconds
    then refused bad_min_transfer
    else parsed p

unfoldable pub check_dep_time : Config → SearchParams → Parsed → ParsedSearch
unfolding check_options
check_dep_time cfg p no_number = refused bad_dep_time
check_dep_time cfg p (clamped dep) = refused bad_dep_time
check_dep_time cfg p (exact dep) =
    if leb_ℤ dep (pos 0)
    then refused past_dep_time
    else if ltb_ℤ max_departure_unix dep
    then refused distant_dep_time
    else check_options cfg (record p { dep_time = dep })

-- What the query asks for, with dep_time still to be read.
unfoldable pub requested : Config → Query → SearchParams
unfolding trim_space
requested cfg q = record {
  origin = trim_space (q.query "origin" "");
  destination = trim_space (q.query "destination" "");
  date = trim_space (q.query "date" "");
  dep_time = pos 0;
  seat_class = seat_class_of (trim_space (q.query "seat_class" "lower"));
  passengers = passengers_of (q.query_int "passengers" (pos 1));
  max_rounds = q.query_int "max_rounds" cfg.max_rounds;
  min_transfer_seconds = q.query_int "min_transfer" cfg.min_transfer_seconds;
  date_window_days = cfg.date_window_days;
}

unfoldable pub parse_search : Config → Query → ParsedSearch
unfolding requested check_dep_time parse_int trim_space valid_date
parse_search cfg q =
    let p = requested cfg q in
    let raw_dep = trim_space (q.query "dep_time" "") in
    if p.origin == "" || p.destination == "" || p.date == ""
    then refused missing_field
    else if p.origin == p.destination
    then refused same_station
    else if not (valid_date p.date)
    then refused bad_date
    else if raw_dep == ""
    then refused missing_dep_time
    else check_dep_time cfg p (parse_int raw_dep)

unfoldable pub station_known : RouteBuffer → String → Bool
station_known buf station = elim (lookup station buf.stop_to_routes) [
  | some stops ↦ true
  | none ↦ elim (lookup station buf.footpaths) [ some edges ↦ true | none ↦ false ]
]

-- NewServer; the Redis client is there or not.
pub record Server : Type 0 where
  pub cfg : Config
  pub validator : Validator

unfoldable pub new_server : Config → Bool → Server
unfolding new_validator
new_server cfg has_client = record {
  cfg = cfg;
  validator = new_validator has_client (record {
    strict = cfg.strict_seat_mode;
    mget_chunk = cfg.redis_mget_chunk;
    max_results = cfg.search_results;
    breaker_threshold = cfg.breaker_threshold;
    breaker_cooldown = cfg.breaker_cooldown;
  });
}

-- The answer of the handler. The counts of the source's answer are those of the two lists.
pub record SearchAnswer : Type 0 where
  pub paths : List JourneyPath
  pub candidates : List JourneyPath
  pub searched : SearchParams

pub data Response : Type 0 where
  bad_request : SearchError → Response
  unknown_station : String → Response
  found : SearchAnswer → Response

-- handleSearch. The live timetable is loaded twice and can be replaced in between: `known_buf` is the
-- one that the stations are looked up in, `buf` and `signals` are those published when the search
-- starts. `cancelled` is the state of the request's context before each round, and the clock is read
-- as in Validate.
unfoldable pub handle_search :
    Redis
    → ℤ
    → ℤ
    → (ℕ → Bool)
    → SignalBuffer
    → RouteBuffer
    → RouteBuffer
    → Server
    → Query
    → Server × Response
unfolding parse_search station_known raptor_search
handle_search redis now later cancelled signals known_buf buf server q =
    elim (parse_search server.cfg q) [
      | refused e ↦ (server, bad_request e)
      | parsed p ↦
          let candidates = raptor_search cancelled signals buf p server.cfg.search_candidates in
          let checked =
            Validator.validate redis now later server.validator candidates p.seat_class
              p.passengers in
          if not (station_known known_buf p.origin)
          then (server, unknown_station p.origin)
          else if not (station_known known_buf p.destination)
          then (server, unknown_station p.destination)
          else (
            record server { validator = checked.0 },
            found (record { paths = checked.1; candidates = candidates; searched = p }),
          )
    ]
