-- ===== src/Seat.antt =====
-- internal/seat: how seat data comes from the providers to Redis and from there to the searches.
pub mod Gate
pub mod Poller
pub mod Syncer
