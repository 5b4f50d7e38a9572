-- ===== src/Storage.antt =====
-- The trait `Storage` of jobs-core/src/storage.rs: its operations and provided methods, the
-- abstract store that it stands for, and what holds of every store that obeys its laws.
pub mod Trait
pub mod Spec
pub mod Refines
pub mod Sound
pub mod Ready
pub mod Race
pub mod Overflow
pub mod Valid
pub mod Delivery
pub mod Calls
pub mod Total
pub mod Reliable
pub mod Complete
pub mod Covers
pub mod Trace
pub mod Threads
pub mod Fit
