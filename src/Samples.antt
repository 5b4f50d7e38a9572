-- ===== src/Samples.antt =====
-- Concrete inputs for the theorems: a clock, a calendar, a job and its store.
pub mod Data
pub mod Jobs
pub mod Stores
pub mod Disk
pub mod Sled
pub mod Processors
pub mod Actors
pub mod Races
pub mod Threads
mod Interleaved
mod Lives
mod DiskRounds
mod DiskReady
mod Rounds
mod Systems
