-- ===== src/Configuration.antt =====
-- pkg/apis/config/v1alpha1/types.go: the configuration of the sharder.
pub mod Defaults
use kubernetes_controller_sh.Base.{ℕ, String, Bool, Option, List}
use kubernetes_controller_sh.Base.Int.{ℤ}
use kubernetes_controller_sh.Api.ControllerRing.{LabelSelector}
use kubernetes_controller_sh.Controllerring.Config.{ServiceReference, ClientConfig}

-- k8s.io/component-base/config/v1alpha1: the fields that the program uses. A float32 is its bits.
pub record ClientConnectionConfiguration : Type 0 where
  pub qps : ℕ
  pub burst : ℤ

pub record LeaderElectionConfiguration : Type 0 where
  pub leader_elect : Option Bool
  pub lease_duration : ℤ
  pub renew_deadline : ℤ
  pub retry_period : ℤ
  pub resource_lock : String
  pub resource_name : String
  pub resource_namespace : String

pub record DebuggingConfiguration : Type 0 where
  pub enable_profiling : Option Bool
  pub enable_contention_profiling : Option Bool

pub record HealthEndpoint : Type 0 where
  pub bind_address : String

pub record MetricsEndpoint : Type 0 where
  pub bind_address : String

-- Durations are in nanoseconds.
pub record SharderController : Type 0 where
  pub sync_period : Option ℤ
  pub concurrent_moves : Option ℤ

pub record Controller : Type 0 where
  pub sharder : Option SharderController

pub record WebhookServer : Type 0 where
  pub cert_dir : Option String
  pub cert_name : Option String
  pub key_name : Option String

pub record WebhookConfig : Type 0 where
  pub annotations : Option (List (String × String))
  pub client_config : Option ClientConfig
  pub namespace_selector : Option LabelSelector

pub record Webhook : Type 0 where
  pub server : Option WebhookServer
  pub config : Option WebhookConfig

pub record SharderConfig : Type 0 where
  pub client_connection : Option ClientConnectionConfiguration
  pub leader_election : Option LeaderElectionConfiguration
  pub debugging : Option DebuggingConfiguration
  pub health : HealthEndpoint
  pub metrics : MetricsEndpoint
  pub controller : Controller
  pub webhook : Webhook
  pub graceful_shutdown_timeout : Option ℤ
