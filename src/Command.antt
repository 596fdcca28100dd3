-- ===== src/Command.antt =====
-- cmd/sharder/app/options.go: from the configuration to the options of the manager.
pub mod Total
pub mod Served
use kubernetes_controller_sh.Base.{
  ℕ, String, ◌==◌, Bool, true, false, not, ◌&&◌, Option, none, some, List, [], ◌∷◌, if◌then◌else◌,
  ltb, leb,
}
use kubernetes_controller_sh.Base.Int.{ℤ, pos, negsuc}
use kubernetes_controller_sh.Base.Map.{or_empty}
use kubernetes_controller_sh.Base.Result.{Result, ok, err, ◌>>=◌, wrap_err}
use kubernetes_controller_sh.Api.Core.{Labels, label_controller_ring}
use kubernetes_controller_sh.Api.ControllerRing.{Requirement}
use kubernetes_controller_sh.Api.Labels.{delete_label}
use kubernetes_controller_sh.Api.Client.{ApiError}
use kubernetes_controller_sh.Configuration.{
  ClientConnectionConfiguration, LeaderElectionConfiguration, DebuggingConfiguration, WebhookServer,
  SharderConfig,
}
use kubernetes_controller_sh.Configuration.Defaults.{
  Recommended, no_server, set_object_defaults_sharder_config,
}

-- `nil_pointer` is the panic of a nil pointer that is dereferenced.
pub data Failure : Type 0 where
  reading_config decoding_config loading_kubeconfig parsing_leader_elect : ApiError → Failure
  nil_pointer : Failure

-- rest.Config: the fields that the program sets. A float32 is its bits.
pub record RestConfig : Type 0 where
  pub qps : ℕ
  pub burst : ℤ

-- metricsserver.Options; `extra_handlers` tells whether they are those for profiling.
pub record MetricsOptions : Type 0 where
  pub secure_serving : Bool
  pub bind_address : String
  pub with_authentication : Bool
  pub extra_handlers : Bool

pub record WebhookOptions : Type 0 where
  pub cert_dir : String
  pub cert_name : String
  pub key_name : String

-- manager.Options, with the selectors of k8s.io/apimachinery as a type.
pub record ManagerOptions (Selector : Type 0) : Type 0 where
  pub release_on_cancel : Bool
  pub leader_election : Bool
  pub resource_lock : String
  pub leader_election_id : String
  pub leader_election_namespace : String
  pub lease_duration : Option ℤ
  pub renew_deadline : Option ℤ
  pub retry_period : Option ℤ
  pub health_probe_bind_address : String
  pub metrics : MetricsOptions
  pub webhook_server : Option WebhookOptions
  pub graceful_shutdown_timeout : Option ℤ
  pub lease_selector : Option Selector

-- `options`, with whether the block profile was switched on.
pub record Options (Selector : Type 0) : Type 0 where
  pub config : SharderConfig
  pub rest_config : RestConfig
  pub manager_options : ManagerOptions Selector
  pub block_profile : Bool

-- labels.NewSelector and Selector.Add
pub record Selectors : Type 1 where
  pub Selector : Type 0
  pub new_selector : Selector
  pub add : Selector → Requirement → Selector
  pub matches : Selector → Labels → Bool

-- The file system, the decoder, the kubeconfig and the environment.
pub record Env : Type 0 where
  pub read_file : String → Result ApiError String
  pub decode_into : String → Result ApiError SharderConfig
  pub get_config : Result ApiError RestConfig
  pub lookup_env : String → Option String
  pub parse_bool : String → Result ApiError Bool

-- `*p`
unfoldable pub deref : {A : Type 0} → Option A → Result Failure A
deref none = err nil_pointer
deref (some a) = ok a

-- The floats above zero are those whose bits lie above those of 0 and up to those of infinity.
unfoldable pub is_positive_float : ℕ → Bool
is_positive_float bits = ltb 0 bits && leb bits 2_139_095_040

unfoldable pub is_positive : ℤ → Bool
is_positive (pos n) = ltb 0 n
is_positive (negsuc n) = false

unfoldable pub apply_config_to_rest_config :
    Option ClientConnectionConfiguration → RestConfig → RestConfig
unfolding is_positive_float is_positive
apply_config_to_rest_config none rest = rest
apply_config_to_rest_config (some c) rest = record rest {
  qps = if is_positive_float c.qps then c.qps else rest.qps;
  burst = if is_positive c.burst then c.burst else rest.burst;
}

-- The zero value, and what `complete` sets.
unfoldable pub new_manager_options : (S : Type 0) → ManagerOptions S
new_manager_options S = record {
  release_on_cancel = true;
  leader_election = false;
  resource_lock = "";
  leader_election_id = "";
  leader_election_namespace = "";
  lease_duration = none;
  renew_deadline = none;
  retry_period = none;
  health_probe_bind_address = "";
  metrics = record {
    secure_serving = false;
    bind_address = "";
    with_authentication = false;
    extra_handlers = false;
  };
  webhook_server = none;
  graceful_shutdown_timeout = none;
  lease_selector = none;
}

-- Whether there are handlers for profiling, and whether the block profile is switched on.
unfoldable pub profiling : Option DebuggingConfiguration → Result Failure (Bool × Bool)
unfolding deref ◌>>=◌
profiling debugging = do
  d ← deref debugging
  enabled ← deref d.enable_profiling
  if enabled
      then deref d.enable_contention_profiling >>= (λ contention. ok (true, contention))
      else ok (false, false)

unfoldable pub webhook_options : Option WebhookServer → WebhookOptions
webhook_options none = record { cert_dir = ""; cert_name = ""; key_name = "" }
webhook_options (some server) = record {
  cert_dir = or_empty server.cert_dir;
  cert_name = or_empty server.cert_name;
  key_name = or_empty server.key_name;
}

module _ {S : Type 0} where
  unfoldable pub with_leader_election :
      Option LeaderElectionConfiguration → ManagerOptions S → Result Failure (ManagerOptions S)
  unfolding deref
  with_leader_election none m = ok m
  with_leader_election (some c) m = do
    elect ← deref c.leader_elect
    ok (record m {
      leader_election = elect;
      resource_lock = c.resource_lock;
      leader_election_id = c.resource_name;
      leader_election_namespace = c.resource_namespace;
      lease_duration = some c.lease_duration;
      renew_deadline = some c.renew_deadline;
      retry_period = some c.retry_period;
    })

  unfoldable pub measured :
      SharderConfig → ManagerOptions S → Result Failure (ManagerOptions S × Bool)
  measured config m = do
    (handlers, blocks) ← profiling config.debugging
    ok (
      record m {
        metrics = record {
          secure_serving = true;
          bind_address = config.metrics.bind_address;
          with_authentication = true;
          extra_handlers = handlers;
        };
      },
      blocks,
    )

  -- The address "0" leaves the options as they are.
  unfoldable pub with_metrics :
      SharderConfig → ManagerOptions S → Result Failure (ManagerOptions S × Bool)
  unfolding measured
  with_metrics config m =
      if config.metrics.bind_address == "0" then ok (m, false) else measured config m

  unfoldable pub apply_config_to_manager_options :
      SharderConfig → ManagerOptions S → Result Failure (ManagerOptions S × Bool)
  unfolding with_leader_election with_metrics webhook_options deref ◌>>=◌
  apply_config_to_manager_options config m = do
    elected ← with_leader_election config.leader_election m
    (measured, blocks) ←
        with_metrics config
          (record elected { health_probe_bind_address = config.health.bind_address })
    timeout ← deref config.graceful_shutdown_timeout
    ok (
      record measured {
        webhook_server = some (webhook_options config.webhook.server);
        graceful_shutdown_timeout = some timeout;
      },
      blocks,
    )

-- `Add` answers with a new selector, which the code does not keep.
unfoldable pub apply_cache_options :
    (s : Selectors) → ManagerOptions s.Selector → ManagerOptions s.Selector
apply_cache_options s m =
    let lease_selector = s.new_selector in
    let added =
      s.add lease_selector
        (record { key = label_controller_ring; operator = "Exists"; values = [] }) in
    record m { lease_selector = some lease_selector }

unfoldable pub overridden :
    {S : Type 0} → Env → Option String → ManagerOptions S → Result Failure (ManagerOptions S)
unfolding ◌>>=◌
overridden env none m = ok m
overridden env (some text) m = do
  elect ← wrap_err parsing_leader_elect (env.parse_bool text)
  ok (record m { leader_election = elect })

unfoldable pub apply_options_overrides :
    {S : Type 0} → Env → ManagerOptions S → Result Failure (ManagerOptions S)
unfolding overridden
apply_options_overrides env m = overridden env (env.lookup_env "LEADER_ELECT") m

abbrev pub no_config : SharderConfig
no_config = record {
  client_connection = none;
  leader_election = none;
  debugging = none;
  health = record { bind_address = "" };
  metrics = record { bind_address = "" };
  controller = record { sharder = none };
  webhook = record { server = none; config = none };
  graceful_shutdown_timeout = none;
}

-- The decoder applies the defaults itself.
unfoldable pub load_config : Recommended → Env → String → Result Failure SharderConfig
unfolding ◌>>=◌
load_config r env config_file =
    if config_file == "" then ok (set_object_defaults_sharder_config r no_config) else (do
      content ← wrap_err reading_config (env.read_file config_file)
      wrap_err decoding_config (env.decode_into content))

unfoldable pub complete :
    (s : Selectors) → Recommended → Env → String → Result Failure (Options s.Selector)
unfolding load_config ◌>>=◌
complete s r env config_file = do
  config ← load_config r env config_file
  rest_config ← wrap_err loading_kubeconfig env.get_config
  (applied, blocks) ← apply_config_to_manager_options config (new_manager_options s.Selector)
  manager_options ← apply_options_overrides env (apply_cache_options s applied)
  ok (record {
    config = config;
    rest_config = apply_config_to_rest_config config.client_connection rest_config;
    manager_options = manager_options;
    block_profile = blocks;
  })

-- What the cache transforms: an object with metadata, or anything else.
pub data Cached (F I : Type 0) : Type 0 where
  object : List F → Labels → Cached F I
  other : I → Cached F I

unfoldable pub drop_unwanted_metadata : {F I : Type 0} → Cached F I → Cached F I
unfolding delete_label
drop_unwanted_metadata (other i) = other i
drop_unwanted_metadata (object managed_fields annotations) =
    object [] (delete_label annotations "kubectl.kubernetes.io/last-applied-configuration")
