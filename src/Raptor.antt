-- ===== src/Raptor.antt =====
-- internal/raptor: the seat-aware search and the validation of its results.
pub mod State
pub mod Boarding
pub mod Scan
pub mod Walk
pub mod Rounds
pub mod Itinerary
pub mod Backtrack
pub mod Frontier
pub mod Search
pub mod Validator
pub mod Reach
