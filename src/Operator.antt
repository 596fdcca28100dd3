-- ===== src/Operator.antt =====
-- webhosting-operator/pkg/apis/config/v1alpha1: the configuration of the operator and its defaults.
pub mod Options
pub mod Cached
use kubernetes_controller_sh.Base.{
  ℕ, String, ◌==◌, Bool, true, false, not, Option, none, some, List, [], ◌∷◌, if◌then◌else◌,
}
use kubernetes_controller_sh.Base.Int.{ℤ, pos, ◌*ℤ◌}
use kubernetes_controller_sh.Base.Result.{Result, ok, err, ◌>>=◌, ◌>>◌, wrap_err}
use kubernetes_controller_sh.Api.Core.{Labels, label_shard}
use kubernetes_controller_sh.Api.Client.{ApiError}
use kubernetes_controller_sh.Leases.Duration.{second}
use kubernetes_controller_sh.Shard.LeaseLock.{Host, LeaseLock, LockError, new_resource_lock}
use kubernetes_controller_sh.Configuration.{
  ClientConnectionConfiguration, LeaderElectionConfiguration, DebuggingConfiguration,
  HealthEndpoint, MetricsEndpoint,
}
use kubernetes_controller_sh.Configuration.Defaults.{
  Recommended, or_default, or_text, in_place, no_client_connection, no_leader_election,
  no_debugging,
}
use kubernetes_controller_sh.Command
use kubernetes_controller_sh.Command.{
  RestConfig, MetricsOptions, ManagerOptions, is_positive_float, is_positive, new_manager_options,
}
use kubernetes_controller_sh.Webhosting.{webhosting_operator_name}
use kubernetes_controller_sh.Webhosting.Objects.{IngressConfiguration}

abbrev pub namespace_system : String
namespace_system = "webhosting-system"

pub record WebhostingOperatorConfig : Type 0 where
  pub client_connection : Option ClientConnectionConfiguration
  pub leader_election : Option LeaderElectionConfiguration
  pub debugging : Option DebuggingConfiguration
  pub health : HealthEndpoint
  pub metrics : MetricsEndpoint
  pub graceful_shutdown_timeout : Option ℤ
  pub ingress : Option IngressConfiguration

unfoldable pub set_defaults_operator_config : WebhostingOperatorConfig → WebhostingOperatorConfig
unfolding or_default
set_defaults_operator_config obj = record obj {
  client_connection = some (or_default no_client_connection obj.client_connection);
  leader_election = some (or_default no_leader_election obj.leader_election);
  debugging = some (or_default no_debugging obj.debugging);
  graceful_shutdown_timeout = some (or_default (pos 15 *ℤ second) obj.graceful_shutdown_timeout);
}

unfoldable pub set_defaults_leader_election :
    Recommended → LeaderElectionConfiguration → LeaderElectionConfiguration
unfolding or_text
set_defaults_leader_election r obj =
    let done =
      r.leader_election (record obj { resource_lock = or_text "leases" obj.resource_lock }) in
    record done {
      resource_name = or_text webhosting_operator_name done.resource_name;
      resource_namespace = or_text namespace_system done.resource_namespace;
    }

unfoldable pub set_defaults_debugging :
    Recommended → DebuggingConfiguration → DebuggingConfiguration
unfolding or_default
set_defaults_debugging r obj =
    let done = r.debugging obj in
    record done {
      enable_contention_profiling = some (or_default false done.enable_contention_profiling);
    }

unfoldable pub set_defaults_health_endpoint : HealthEndpoint → HealthEndpoint
unfolding or_text
set_defaults_health_endpoint obj = record obj { bind_address = or_text ":8081" obj.bind_address }

unfoldable pub set_defaults_metrics_endpoint : MetricsEndpoint → MetricsEndpoint
unfolding or_text
set_defaults_metrics_endpoint obj = record obj { bind_address = or_text ":8080" obj.bind_address }

unfoldable pub set_object_defaults_operator_config :
    Recommended → WebhostingOperatorConfig → WebhostingOperatorConfig
unfolding in_place
set_object_defaults_operator_config r obj =
    let done = set_defaults_operator_config obj in
    record done {
      leader_election = in_place (set_defaults_leader_election r) done.leader_election;
      debugging = in_place (set_defaults_debugging r) done.debugging;
      health = set_defaults_health_endpoint done.health;
      metrics = set_defaults_metrics_endpoint done.metrics;
    }
