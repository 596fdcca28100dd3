-- ===== src/Configuration/Defaults.antt =====
-- pkg/apis/config/v1alpha1/defaults.go, with the traversal of zz_generated.defaults.go.
pub mod Idempotent
use kubernetes_controller_sh.Base.{
  ℕ, String, ◌==◌, Bool, false, Option, none, some, List, [], ◌∷◌, if◌then◌else◌,
}
use kubernetes_controller_sh.Base.Int.{ℤ, pos, ◌*ℤ◌}
use kubernetes_controller_sh.Api.Core.{namespace_system}
use kubernetes_controller_sh.Api.ControllerRing.{LabelSelector, Requirement}
use kubernetes_controller_sh.Leases.Duration.{second, minute}
use kubernetes_controller_sh.Controllerring.Config.{ServiceReference, ClientConfig}
use kubernetes_controller_sh.Configuration.{
  ClientConnectionConfiguration, LeaderElectionConfiguration, DebuggingConfiguration,
  HealthEndpoint, MetricsEndpoint, SharderController, Controller, WebhookServer, WebhookConfig,
  Webhook, SharderConfig,
}

-- The defaulting functions of k8s.io/component-base.
pub record Recommended : Type 0 where
  pub leader_election : LeaderElectionConfiguration → LeaderElectionConfiguration
  pub debugging : DebuggingConfiguration → DebuggingConfiguration

-- `if obj.Field == nil { obj.Field = default }`
unfoldable pub or_default : {A : Type 0} → A → Option A → A
or_default d none = d
or_default d (some a) = a

-- `if obj.Field == "" { obj.Field = default }`
unfoldable pub or_text : String → String → String
or_text d s = if s == "" then d else s

-- `if obj.Field != nil { SetDefaults(obj.Field) }`
unfoldable pub in_place : {A : Type 0} → (A → A) → Option A → Option A
in_place f none = none
in_place f (some a) = some (f a)

abbrev pub default_graceful_shutdown_timeout : ℤ
default_graceful_shutdown_timeout = pos 15 *ℤ second

abbrev pub default_sync_period : ℤ
default_sync_period = pos 5 *ℤ minute

-- The zero values that new structs have.
abbrev pub no_client_connection : ClientConnectionConfiguration
no_client_connection = record { qps = 0; burst = pos 0 }

abbrev pub no_leader_election : LeaderElectionConfiguration
no_leader_election = record {
  leader_elect = none;
  lease_duration = pos 0;
  renew_deadline = pos 0;
  retry_period = pos 0;
  resource_lock = "";
  resource_name = "";
  resource_namespace = "";
}

abbrev pub no_debugging : DebuggingConfiguration
no_debugging = record { enable_profiling = none; enable_contention_profiling = none }

abbrev pub no_server : WebhookServer
no_server = record { cert_dir = none; cert_name = none; key_name = none }

abbrev pub no_webhook_config : WebhookConfig
no_webhook_config = record { annotations = none; client_config = none; namespace_selector = none }

abbrev pub no_client_config : ClientConfig
no_client_config = record { url = none; service = none }

abbrev pub no_service : ServiceReference
no_service = record { namespace = ""; name = ""; path = none }

unfoldable pub set_defaults_sharder_config : SharderConfig → SharderConfig
unfolding or_default
set_defaults_sharder_config obj = record obj {
  client_connection = some (or_default no_client_connection obj.client_connection);
  leader_election = some (or_default no_leader_election obj.leader_election);
  debugging = some (or_default no_debugging obj.debugging);
  graceful_shutdown_timeout =
      some (or_default default_graceful_shutdown_timeout obj.graceful_shutdown_timeout);
}

unfoldable pub set_defaults_leader_election :
    Recommended → LeaderElectionConfiguration → LeaderElectionConfiguration
unfolding or_text
set_defaults_leader_election r obj =
    let done =
      r.leader_election (record obj { resource_lock = or_text "leases" obj.resource_lock }) in
    record done {
      resource_name = or_text "sharder" done.resource_name;
      resource_namespace = or_text namespace_system done.resource_namespace;
    }

unfoldable pub set_defaults_debugging :
    Recommended → DebuggingConfiguration → DebuggingConfiguration
unfolding or_default
set_defaults_debugging r obj =
    let done = r.debugging obj in
    record done {
      enable_contention_profiling = some (or_default false done.enable_contention_profiling);
    }

unfoldable pub set_defaults_health_endpoint : HealthEndpoint → HealthEndpoint
unfolding or_text
set_defaults_health_endpoint obj = record obj { bind_address = or_text ":8081" obj.bind_address }

unfoldable pub set_defaults_metrics_endpoint : MetricsEndpoint → MetricsEndpoint
unfolding or_text
set_defaults_metrics_endpoint obj = record obj { bind_address = or_text ":8080" obj.bind_address }

unfoldable pub set_defaults_controller : Controller → Controller
unfolding or_default
set_defaults_controller obj = record obj {
  sharder = some (or_default (record { sync_period = none; concurrent_moves = none }) obj.sharder);
}

unfoldable pub set_defaults_sharder_controller : SharderController → SharderController
unfolding or_default
set_defaults_sharder_controller obj = record obj {
  sync_period = some (or_default default_sync_period obj.sync_period);
  concurrent_moves = some (or_default (pos 100) obj.concurrent_moves);
}

unfoldable pub set_defaults_webhook : Webhook → Webhook
unfolding or_default
set_defaults_webhook obj = record obj {
  server = some (or_default no_server obj.server);
  config = some (or_default no_webhook_config obj.config);
}

abbrev pub default_namespace_selector : LabelSelector
default_namespace_selector = record {
  match_labels = [];
  match_expressions =
      record {
        key = "kubernetes.io/metadata.name";
        operator = "NotIn";
        values = "kube-system" ∷ namespace_system ∷ [];
      }
      ∷ [];
}

unfoldable pub set_defaults_webhook_config : WebhookConfig → WebhookConfig
unfolding or_default
set_defaults_webhook_config obj = record obj {
  client_config = some (or_default no_client_config obj.client_config);
  namespace_selector = some (or_default default_namespace_selector obj.namespace_selector);
}

unfoldable pub default_service : Option String → Option ServiceReference → Option ServiceReference
default_service none none = some no_service
default_service none (some service) = some service
default_service (some url) service = service

unfoldable pub set_defaults_webhook_client_config : ClientConfig → ClientConfig
unfolding default_service
set_defaults_webhook_client_config obj = record obj {
  service = default_service obj.url obj.service;
}

unfoldable pub set_defaults_service_reference : ServiceReference → ServiceReference
unfolding or_text
set_defaults_service_reference obj = record obj {
  namespace = or_text namespace_system obj.namespace;
  name = or_text "sharder" obj.name;
}

-- `SetObjectDefaults_SharderConfig` calls them from the outside to the inside.
unfoldable pub default_client_config : ClientConfig → ClientConfig
unfolding in_place
default_client_config obj =
    let done = set_defaults_webhook_client_config obj in
    record done { service = in_place set_defaults_service_reference done.service }

unfoldable pub default_webhook_config : WebhookConfig → WebhookConfig
unfolding in_place
default_webhook_config obj =
    let done = set_defaults_webhook_config obj in
    record done { client_config = in_place default_client_config done.client_config }

unfoldable pub default_webhook : Webhook → Webhook
unfolding in_place
default_webhook obj =
    let done = set_defaults_webhook obj in
    record done { config = in_place default_webhook_config done.config }

unfoldable pub default_controller : Controller → Controller
unfolding in_place
default_controller obj =
    let done = set_defaults_controller obj in
    record done { sharder = in_place set_defaults_sharder_controller done.sharder }

unfoldable pub set_object_defaults_sharder_config : Recommended → SharderConfig → SharderConfig
unfolding in_place
set_object_defaults_sharder_config r obj =
    let done = set_defaults_sharder_config obj in
    record done {
      leader_election = in_place (set_defaults_leader_election r) done.leader_election;
      debugging = in_place (set_defaults_debugging r) done.debugging;
      health = set_defaults_health_endpoint done.health;
      metrics = set_defaults_metrics_endpoint done.metrics;
      controller = default_controller done.controller;
      webhook = default_webhook done.webhook;
    }
