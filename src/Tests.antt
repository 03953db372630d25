-- ===== src/Tests.antt =====
-- The development on concrete inputs.
pub mod Network
mod SearchWitnesses
mod JourneyWitnesses
mod TimetableWitnesses
mod SeatWitnesses
mod ServiceWitnesses
mod ModelWitnesses
mod ApiWitnesses
mod SyncerWitnesses
mod FootpathWitnesses
