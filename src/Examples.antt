-- ===== src/Examples.antt =====
-- The theorems applied to concrete inputs.
pub mod Data
pub mod Placing
pub mod Timing
pub mod Shards
pub mod Keys
pub mod Resync
pub mod Admission
pub mod Measuring
pub mod Locks
pub mod Requests
mod Converging
mod Working
mod Starting
mod Operating
mod Websites
mod Tracking
