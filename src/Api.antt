-- ===== src/Api.antt =====
-- The API objects of Kubernetes and of this project (pkg/apis/sharding/v1alpha1).
pub mod Core
pub mod Labels
pub mod ControllerRing
pub mod Client
