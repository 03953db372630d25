-- ===== src/Api/Search/Safe.antt =====
-- internal/api/search.go: what the search handler answers.
use multi_agent_travel.Config.{Config}
use multi_agent_travel.Raptor.Validator.Confirmed.{validate-strict}
use multi_agent_travel.Raptor.Validator.Subset.{validate-All}
use multi_agent_travel.Model.{SearchParams}
use multi_agent_travel.Raptor.Validator.Answers.{store, has_stored_seats, Replies}
use multi_agent_travel.Raptor.Search.{raptor_search, new_search}
use multi_agent_travel.Raptor.Reach.{IsMeasured}
use multi_agent_travel.Raptor.Search.Sound.{raptor_search-IsReal, IsReal}
use multi_agent_travel.Api.Search.Params.{parse_search-IsAccepted, IsAccepted}
use multi_agent_travel.Schedule.Buffer.{RouteBuffer}
use multi_agent_travel.Raptor.State.{SignalBuffer}
use multi_agent_travel.Raptor.Validator.{SeatValue, Redis}
use multi_agent_travel.Api.Search.{
  refused, ParsedSearch, station_known, parsed, parse_search, Query, Server, found, handle_search,
  SearchAnswer,
}
use multi_agent_travel.Prelude.{
  ℕ, String, ◌≡◌, refl, inl, inr, Bool, true, not, arith, Bool-cases, eq_ℕ, eq_String, All,
}
use multi_agent_travel.Prelude.Int.{ℤ, pos, ◌<ℤ◌, eq_ℤ}

-- What an answer of the search handler to a query promises.
pub record IsSafe (redis : Redis) (reply : String → SeatValue) (signals : SignalBuffer)
    (buf : RouteBuffer) (cfg : Config) (q : Query) (a : SearchAnswer) : Type 0 where
  pub understood : parse_search cfg q ≡ parsed a.searched
  pub asked : IsAccepted a.searched
  pub real : All (IsReal (new_search signals buf a.searched)) a.paths
  pub seated :
      All
        (λ p.
          has_stored_seats (store redis reply) a.searched.seat_class a.searched.passengers p.legs
          ≡ true)
        a.paths

found_inj : {a b : SearchAnswer} → found a ≡ found b → a ≡ b
found_inj e = cc

-- Whatever a request asks for and whatever Redis does, an answer of the search handler with a strict
-- seat gate is safe: the search is the one that parseSearch reads in the query, and keeps its bounds;
-- every journey is real for that search over the timetable published when the search starts: it goes
-- from the origin to the destination, each leg is a usable trip of that timetable, with its ids and
-- times, or a footpath, the transfer time passes between its rides, and it arrives when a journey over
-- that timetable does; and every journey has a stored seat, in the class and for the passengers asked
-- for, on every leg that needs one. The timetable that the stations are looked up in may be another
-- one. The FIFO marks of the searched timetable were measured, an MGET fails or replies the values of
-- its keys, and the chunk size is positive.
pub handle_search-IsSafe :
    (redis : Redis) (reply : String → SeatValue) (now later : ℤ) (cancelled : ℕ → Bool)
    (signals : SignalBuffer) (known_buf buf : RouteBuffer) (server : Server) (q : Query)
    (a : SearchAnswer)
    → IsMeasured buf
    → Replies redis reply
    → pos 0 <ℤ server.validator.cfg.mget_chunk
    → server.validator.cfg.strict ≡ true
    → (handle_search redis now later cancelled signals known_buf buf server q).1 ≡ found a
    → IsSafe redis reply signals buf server.cfg q a
unfolding handle_search
handle_search-IsSafe redis reply now later cancelled signals known_buf buf server q a m replies
      chunk strict h =
    by_parse (parse_search server.cfg q) refl
  where
    by_params :
        (p : SearchParams)
        → parse_search server.cfg q ≡ parsed p
        → (handle_search redis now later cancelled signals known_buf buf server q).1 ≡ found a
        → IsSafe redis reply signals buf server.cfg q a
    by_params p e k =
        let candidates = raptor_search cancelled signals buf p server.cfg.search_candidates in
        let real = raptor_search-IsReal cancelled signals buf p server.cfg.search_candidates m in
        elim (Bool-cases (not (station_known known_buf p.origin))) [
          | inl unknown ↦ absurd (ground (arith, rw (handle_search, e, unknown) at k))
          | inr known ↦ elim (Bool-cases (not (station_known known_buf p.destination))) [
            | inl unknown ↦ absurd (ground (arith, rw (handle_search, e, known, unknown) at k))
            | inr both ↦
                let same = found_inj (rw (handle_search, e, known, both) at k) in
                rw (← same) (record {
                  understood = e;
                  asked = parse_search-IsAccepted server.cfg q p e;
                  real =
                      validate-All (IsReal (new_search signals buf p)) redis now later
                        server.validator candidates p.seat_class p.passengers real;
                  seated =
                      validate-strict redis reply now later server.validator candidates p.seat_class
                        p.passengers replies chunk strict;
                })
          ]
        ]

    by_parse :
        (r : ParsedSearch)
        → parse_search server.cfg q ≡ r
        → IsSafe redis reply signals buf server.cfg q a
    by_parse (refused x) e = absurd (ground (arith, rw (handle_search, e) at h))
    by_parse (parsed p) e = by_params p e h
