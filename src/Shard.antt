-- ===== src/Shard.antt =====
-- pkg/shard: what a sharded controller runs.
pub mod Controller
pub mod Builder
pub mod Responsible
pub mod Handover
pub mod Convergence
pub mod LeaseLock
