-- ===== src/Webhook.antt =====
-- pkg/webhook/sharder: the admission webhook that assigns objects to shards.
pub mod Path
pub mod Escape
pub mod Handler
