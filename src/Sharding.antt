-- ===== src/Sharding.antt =====
-- pkg/sharding: what the components share.
pub mod Ring
pub mod Predicate
pub mod Handler
pub mod Key
