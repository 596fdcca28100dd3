-- ===== src/Examples/Locks.antt =====
-- A shard's lock, its builder, and the webhook configuration and status of its ring.
use kubernetes_controller_sh.Base.{String, ◌≡◌, refl, ◌↔◌, true, none, some, [], ◌∷◌, In}
use kubernetes_controller_sh.Base.Result.{ok, ◌>>=◌, ◌>>◌}
use kubernetes_controller_sh.Api.Core.{Lease, label_controller_ring}
use kubernetes_controller_sh.Sharding.Key.{Func, func_for_resource}
use kubernetes_controller_sh.Shard.Controller.{Identity}
use kubernetes_controller_sh.Shard.Builder.{Builder, ShardedReconciler, build}
use kubernetes_controller_sh.Shard.LeaseLock.{
  Options, Host, exists, LeaseLock, new_resource_lock, required, get_in_cluster_namespace,
}
use kubernetes_controller_sh.Controllerring.{Env, with_leases}
use kubernetes_controller_sh.Controllerring.Config.{
  WebhookConfig, rule_for_resource, webhook_for_controller_ring,
}
use kubernetes_controller_sh.Controllerring.Config.Rules.{webhook-rules}
use kubernetes_controller_sh.Controllerring.Status.{settled, with_leases-settled}
use kubernetes_controller_sh.Examples.Data.{lease_of, at, ring, secrets}

abbrev host : Host
host = record { new_client = ok tt; hostname = ok "pod"; stat = exists; read_file = ok "default" }

abbrev options : Options
options = record { controller_ring_name = "ring"; lease_namespace = ""; shard_name = "" }

abbrev lock : LeaseLock
lock = record {
  namespace = "default";
  name = "pod";
  identity = "pod";
  labels = (label_controller_ring, "ring") ∷ [];
  lease = none;
}

made : new_resource_lock host options ≡ ok lock
unfolding new_resource_lock required get_in_cluster_namespace ◌>>=◌ ◌>>◌
made = refl

abbrev pod_lease : Lease
pod_lease = lease_of "pod" (some "pod")

abbrev identity : Identity
identity = record { controller_ring_name = "ring"; shard_name = "pod" }

abbrev builder : Builder String String
builder = record {
  object = some "ConfigMap";
  client = some "client";
  identity = identity;
  error = none;
}

abbrev built : ShardedReconciler String String String
built = record {
  object = "ConfigMap";
  client = "client";
  identity = identity;
  delegate = "reconciler";
}

builds : build builder (some "reconciler") ≡ ok built
unfolding build ◌>>=◌ ◌>>◌
builds = refl

abbrev config : WebhookConfig
config = record {
  annotations = none;
  client_config = record { url = none; service = none };
  namespace_selector = none;
}

webhook-rules_example :
    In (rule_for_resource secrets) (webhook_for_controller_ring ring config).rules
    ↔ ((f : Func) × (func_for_resource secrets ring ≡ ok f))
webhook-rules_example = webhook-rules ring config secrets

-- A library whose list of conditions holds the last one that is set.
abbrev env : Env
env = record {
  get = λ name. ok ring;
  set_controller_reference = λ r c. ok c;
  apply = λ c. none;
  list_leases = λ selector. ok (pod_lease ∷ []);
  update_status = λ r. none;
  set_status_condition = λ conditions c. c ∷ [];
  semantic_equal = λ a b. true;
  message = λ e. "";
  now = at 112;
}

with_leases-settled_example :
    with_leases env (settled env ring (pod_lease ∷ [])) (ok (pod_lease ∷ [])) ≡ (none, [])
with_leases-settled_example =
    with_leases-settled env ring (pod_lease ∷ []) (λ conditions c. refl) (λ s. refl)
