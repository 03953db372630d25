-- ===== src/Schedule.antt =====
-- internal/schedule: the timetable in memory and how it is built and checked.
pub mod Buffer
pub mod Fifo
pub mod Ingestion
pub mod Loader
pub mod Publish
pub mod Footpaths
