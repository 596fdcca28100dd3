-- ===== src/Sharder.antt =====
-- pkg/controller/sharder/reconciler.go: the periodic resync of the object assignments of a ring.
pub mod Operation
pub mod Reconcile
pub mod Safety
pub mod Effects
pub mod Queue
pub mod Workers
pub mod Labels
