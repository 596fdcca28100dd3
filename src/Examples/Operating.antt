-- ===== src/Examples/Operating.antt =====
-- The operator starts with sharding.
use kubernetes_controller_sh.Base.{◌≡◌, refl, ◌⊎◌, true, some}
use kubernetes_controller_sh.Base.Int.{pos}
use kubernetes_controller_sh.Base.Result.{ok, err, ◌>>=◌, ◌>>◌}
use kubernetes_controller_sh.Api.Client.{not_found}
use kubernetes_controller_sh.Shard.LeaseLock.{
  Host, exists, new_resource_lock, required, get_in_cluster_namespace,
}
use kubernetes_controller_sh.Configuration.Defaults.{or_text, or_default, in_place}
use kubernetes_controller_sh.Operator.{
  set_object_defaults_operator_config, set_defaults_operator_config, set_defaults_leader_election,
  set_defaults_metrics_endpoint, set_defaults_debugging,
}
use kubernetes_controller_sh.Operator.Options.{
  Env, Options, complete, load_config, apply_config_to_options, with_leader_election, profiling,
  measured, with_metrics, deref, apply_options_overrides, overridden, if_sharded, with_shard,
  leading,
}
use kubernetes_controller_sh.Operator.Cached.{IsSharded, IsUnsharded, complete-IsSharded}
use kubernetes_controller_sh.Examples.Starting.{recommended}

abbrev host : Host
host = record {
  new_client = ok tt;
  hostname = ok "a";
  stat = exists;
  read_file = ok "webhosting-system";
}

-- Both variables are set to true.
abbrev env : Env
env = record {
  read_file = λ name. err not_found;
  decode_into = λ content. err not_found;
  get_config = ok (record { qps = 0; burst = pos 0 });
  lookup_env = λ name. some "true";
  parse_bool = λ text. ok true;
  host = host;
}

done : (o : Options) × (complete recommended env "" ≡ ok o)
unfolding complete load_config apply_config_to_options with_leader_election with_metrics measured
    profiling deref apply_options_overrides overridden if_sharded with_shard leading
    new_resource_lock required get_in_cluster_namespace set_object_defaults_operator_config
    set_defaults_operator_config set_defaults_leader_election set_defaults_metrics_endpoint
    set_defaults_debugging in_place or_text or_default ◌>>=◌ ◌>>◌
done = (_, refl)

complete-IsSharded_example : IsSharded env done.0 ⊎ IsUnsharded done.0
complete-IsSharded_example = complete-IsSharded recommended env "" done.0 done.1
