-- ===== src/Operator/Options.antt =====
-- webhosting-operator/cmd/webhosting-operator/main.go: from the configuration to the options of the manager.
use kubernetes_controller_sh.Base.{
  String, ◌==◌, Bool, true, false, Option, none, some, List, [], ◌∷◌, if◌then◌else◌,
}
use kubernetes_controller_sh.Base.Result.{Result, ok, err, ◌>>=◌, ◌>>◌, wrap_err}
use kubernetes_controller_sh.Api.Core.{label_shard}
use kubernetes_controller_sh.Api.Client.{ApiError}
use kubernetes_controller_sh.Shard.LeaseLock.{Host, LeaseLock, LockError, new_resource_lock}
use kubernetes_controller_sh.Configuration.{
  ClientConnectionConfiguration, LeaderElectionConfiguration, DebuggingConfiguration,
}
use kubernetes_controller_sh.Configuration.Defaults.{Recommended}
use kubernetes_controller_sh.Command.{
  RestConfig, ManagerOptions, is_positive_float, is_positive, new_manager_options,
}
use kubernetes_controller_sh.Webhosting.{webhosting_operator_name}
use kubernetes_controller_sh.Operator.{
  WebhostingOperatorConfig, set_object_defaults_operator_config,
}

pub data Failure : Type 0 where
  reading_config decoding_config loading_kubeconfig : ApiError → Failure
  parsing_leader_elect parsing_enable_sharding : ApiError → Failure
  leader_election_disabled : Failure
  creating_shard_lease : LockError → Failure
  nil_pointer : Failure

-- The file system, the decoder, the kubeconfig and the environment.
pub record Env : Type 0 where
  pub read_file : String → Result ApiError String
  pub decode_into : String → Result ApiError WebhostingOperatorConfig
  pub get_config : Result ApiError RestConfig
  pub lookup_env : String → Option String
  pub parse_bool : String → Result ApiError Bool
  pub host : Host

-- `options`: the options of the manager, the lock that it elects a leader by, and the selectors of its
-- cache, by the type of the objects.
pub record Options : Type 0 where
  pub config : WebhostingOperatorConfig
  pub rest_config : RestConfig
  pub manager_options : ManagerOptions (Unit {0})
  pub enable_sharding : Bool
  pub controller_ring_name : String
  pub shard_name : String
  pub lock : Option LeaseLock
  pub by_object : List (String × String × String)

unfoldable pub deref : {A : Type 0} → Option A → Result Failure A
deref none = err nil_pointer
deref (some a) = ok a

unfoldable pub apply_config_to_rest_config :
    Option ClientConnectionConfiguration → RestConfig → RestConfig
unfolding is_positive_float is_positive
apply_config_to_rest_config none rest = rest
apply_config_to_rest_config (some c) rest = record rest {
  qps = if is_positive_float c.qps then c.qps else rest.qps;
  burst = if is_positive c.burst then c.burst else rest.burst;
}

unfoldable pub with_leader_election :
    Option LeaderElectionConfiguration
    → ManagerOptions (Unit {0})
    → Result Failure (ManagerOptions (Unit {0}))
unfolding deref ◌>>=◌
with_leader_election none m = ok m
with_leader_election (some c) m = do
  elect ← deref c.leader_elect
  ok (record m {
    leader_election = elect;
    resource_lock = c.resource_lock;
    leader_election_id = c.resource_name;
    leader_election_namespace = c.resource_namespace;
    lease_duration = some c.lease_duration;
    renew_deadline = some c.renew_deadline;
    retry_period = some c.retry_period;
  })

-- Whether there are handlers for profiling; the block profile is not a part of the options.
unfoldable pub profiling : Option DebuggingConfiguration → Result Failure Bool
unfolding deref ◌>>=◌
profiling debugging = do
  d ← deref debugging
  enabled ← deref d.enable_profiling
  if enabled then deref d.enable_contention_profiling >>= (λ contention. ok true) else ok false

unfoldable pub measured :
    WebhostingOperatorConfig
    → ManagerOptions (Unit {0})
    → Result Failure (ManagerOptions (Unit {0}))
unfolding profiling ◌>>=◌
measured config m = do
  handlers ← profiling config.debugging
  ok (record m {
    metrics = record {
      secure_serving = true;
      bind_address = config.metrics.bind_address;
      with_authentication = true;
      extra_handlers = handlers;
    };
  })

unfoldable pub with_metrics :
    WebhostingOperatorConfig
    → ManagerOptions (Unit {0})
    → Result Failure (ManagerOptions (Unit {0}))
unfolding measured
with_metrics config m = if config.metrics.bind_address == "0" then ok m else measured config m

unfoldable pub apply_config_to_options :
    WebhostingOperatorConfig
    → ManagerOptions (Unit {0})
    → Result Failure (ManagerOptions (Unit {0}))
unfolding with_leader_election with_metrics deref ◌>>=◌
apply_config_to_options config m = do
  elected ← with_leader_election config.leader_election m
  served ←
      with_metrics config
        (record elected { health_probe_bind_address = config.health.bind_address })
  timeout ← deref config.graceful_shutdown_timeout
  ok (record served { graceful_shutdown_timeout = some timeout })

-- A variable of the environment that is not set leaves the option as it is.
unfoldable pub overridden : Env → (ApiError → Failure) → Option String → Bool → Result Failure Bool
overridden env w none old = ok old
overridden env w (some text) old = wrap_err w (env.parse_bool text)

unfoldable pub shard_selectors : String → String → List (String × String × String)
shard_selectors ring_name shard_name =
    ("Website", label_shard ring_name, shard_name)
    ∷ ("Deployment", label_shard ring_name, shard_name)
    ∷ ("ConfigMap", label_shard ring_name, shard_name)
    ∷ ("Service", label_shard ring_name, shard_name)
    ∷ ("Ingress", label_shard ring_name, shard_name)
    ∷ []

unfoldable pub leading : Bool → Result Failure (Unit {0})
leading elected = if elected then ok tt else err leader_election_disabled

unfoldable pub with_shard : Env → Options → Result Failure Options
unfolding leading shard_selectors ◌>>=◌ ◌>>◌
with_shard env o = do
  leading o.manager_options.leader_election
  lock ← wrap_err creating_shard_lease (
      new_resource_lock env.host (record {
        controller_ring_name = webhosting_operator_name;
        lease_namespace = "";
        shard_name = "";
      }))
  ok (record o {
    controller_ring_name = webhosting_operator_name;
    shard_name = lock.identity;
    lock = some lock;
    by_object = shard_selectors webhosting_operator_name lock.identity;
  })

unfoldable pub if_sharded : Env → Options → Result Failure Options
unfolding with_shard
if_sharded env o = if o.enable_sharding then with_shard env o else ok o

unfoldable pub apply_options_overrides : Env → Options → Result Failure Options
unfolding overridden if_sharded ◌>>=◌
apply_options_overrides env o = do
  elect ←
      overridden env parsing_leader_elect (env.lookup_env "LEADER_ELECT")
        o.manager_options.leader_election
  enable ←
      overridden env parsing_enable_sharding (env.lookup_env "ENABLE_SHARDING") o.enable_sharding
  if_sharded env (record o {
    manager_options = record o.manager_options { leader_election = elect };
    enable_sharding = enable;
  })

abbrev pub no_config : WebhostingOperatorConfig
no_config = record {
  client_connection = none;
  leader_election = none;
  debugging = none;
  health = record { bind_address = "" };
  metrics = record { bind_address = "" };
  graceful_shutdown_timeout = none;
  ingress = none;
}

unfoldable pub load_config : Recommended → Env → String → Result Failure WebhostingOperatorConfig
unfolding ◌>>=◌
load_config r env config_file =
    if config_file == "" then ok (set_object_defaults_operator_config r no_config) else (do
      content ← wrap_err reading_config (env.read_file config_file)
      wrap_err decoding_config (env.decode_into content))

unfoldable pub complete : Recommended → Env → String → Result Failure Options
unfolding load_config ◌>>=◌
complete r env config_file = do
  config ← load_config r env config_file
  rest_config ← wrap_err loading_kubeconfig env.get_config
  manager_options ← apply_config_to_options config (new_manager_options (Unit {0}))
  apply_options_overrides env (record {
    config = config;
    rest_config = apply_config_to_rest_config config.client_connection rest_config;
    manager_options = manager_options;
    enable_sharding = false;
    controller_ring_name = "";
    shard_name = "";
    lock = none;
    by_object = [];
  })
