-- ===== src/Lib.antt =====
-- Axentra: a multi-modal journey planner in Go. A timetable is loaded from Postgres into a route
-- buffer, which is published by a pointer swap; seat signals are kept beside it. A query looks its
-- stations up in the published buffer, runs a seat-aware RAPTOR search over a snapshot of both, and
-- passes the journeys found to a seat gate that asks Redis behind a circuit breaker.
--
-- Which file models which part:
--   Model, Model/Dates, Model/SeatKeys: internal/model/types.go, the domain types, the search
--     parameters, dates and the Redis keys of a trip. `Path` is `JourneyPath` here.
--   Schedule/Buffer, Schedule/Fifo, Schedule/Publish: internal/schedule/buffer.go, RouteBuffer with
--     its lookups, computeFIFO, and the manifest hash with the published pointer.
--   Schedule/Footpaths, Schedule/Footpaths/Queue: internal/schedule/buffer.go, closeFootpaths with its
--     binary heap walkQueue, and loadFootpaths of loader.go. Their child modules are proofs: Order, Sink
--     and Least of the heap, Sound, Relax, Shortest, Enough and Least of the closure.
--   Schedule/Loader: internal/schedule/loader.go, ReloadRouteArrays from the query rows on.
--   Schedule/Ingestion: internal/schedule/ingestion.go, ValidateBatch.
--   Raptor/State, Boarding, Scan, Walk, Rounds, Backtrack, Frontier, Search: internal/raptor/engine.go.
--     searchState is SearchState for what a search never changes; the labels and journal entries of
--     a round are a Layer, and Work is the layer being filled with `best` and the improved stops.
--     scanRoute is scan_route, scanTrip scan_trip, earliestTrip earliest_trip, relaxFootpaths
--     relax_footpaths, buildPath build_path, and RaptorSearch raptor_search.
--   Raptor/Reach: what a label and a journal entry stand for, independent of the search; its child
--     modules are proofs. Raptor/Backtrack/Timetabled and Transfers: what the legs of a rebuilt
--     journey are, and what passes between them.
--   Raptor/Itinerary, Raptor/Validator: internal/raptor/validator.go, ValidatePath and Validator.
--   Breaker: internal/breaker/breaker.go.  SeatState: internal/state/signal.go.
--   Api/Search, Api/Health: internal/api/search.go, server.go, health.go and middleware.go, the search
--     handler with its parser, and the readiness probe and gate.
--   Seat/Gate: internal/seat/luagate.go with lua/seat_gate.lua, one step on the store of seat data.
--   Seat/Poller: internal/seat/poller.go, HandlePollTask.
--   Seat/Syncer with Signals, Refresh: internal/seat/refresher.go, the Syncer, fetchSignals, and
--     ColdStart with RefreshLoop. The other child modules are its proofs.
--   Zone: internal/seat/zone.go, ClassifyZone.  Config: internal/config/config.go, Validate.
--   Prelude: numbers, lists, maps, texts and sorting.  Tests: concrete inputs.
--
-- Conventions. int and int64 are integers of Prelude/Int; where the search adds or subtracts times
-- the 64-bit wrap-around is written out (add64, sub64), and counters are natural numbers. A Go map is
-- an association list with one entry for each key, in any order, since Go fixes none. A slice index
-- that the source guards is an optional lookup. A call under a mutex is one step. The clock, Redis,
-- the JSON decoder, the rows of a query, the content hash and the cancellation of a query are
-- arguments.
--
-- Fuel. sort.Search halves an interval of n indices and gets fuel n. buildPath stops itself after
-- 2 * (rounds + 1) + 2 legs, and its loop gets two steps more. The chunks of a seat check get one
-- step for each key, since a chunk has at least one. The search of the footpath closure gets one step
-- for each direct edge and one more, which empties its queue; the loops of its heap get the index that
-- falls, or the length that a growing index stays below.
--
-- The runs of the syncer. The pollers may write between any two reads of the syncer; Redis gives a
-- new entry an id after every one before it; the stream is not trimmed. A cold start that fails is
-- not a step of a run.
--
-- Not modelled: logging, SQL, the task queue, the seat providers, the JSON of the answers, the
-- schedule watcher, the migrations and the process wiring.
pub mod Api
pub mod Breaker
pub mod Config
pub mod Model
pub mod Prelude
pub mod Raptor
pub mod Schedule
pub mod Seat
pub mod SeatState
pub mod Tests
pub mod Zone
