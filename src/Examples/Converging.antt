-- ===== src/Examples/Converging.antt =====
-- A misplaced config map gets to the shard that the ring wants; and a shard that makes checksums.
use kubernetes_controller_sh.Base.{String, ◌≡◌, ◌≢◌, refl, false, none, [], ◌∷◌}
use kubernetes_controller_sh.Base.Map.{lookup}
use kubernetes_controller_sh.Base.Result.{ok}
use kubernetes_controller_sh.Api.Core.{Object, Labels, label_shard, label_drain}
use kubernetes_controller_sh.Api.Labels.{find_label, set_label}
use kubernetes_controller_sh.Api.ControllerRing.{ring_label_shard}
use kubernetes_controller_sh.Sharding.Ring.{from_leases}
use kubernetes_controller_sh.Shard.Controller.{
  Env, Identity, delegated, reconcile, with_object, is_foreign, responsible,
}
use kubernetes_controller_sh.Checksum
use kubernetes_controller_sh.Checksum.{Secret, panicked}
use kubernetes_controller_sh.Checksum.Safe.{reconcile-panicked}
use kubernetes_controller_sh.Shard.Convergence.{labels_released}
use kubernetes_controller_sh.Sharder.Operation.{Operation, WorkItem, work_item}
use kubernetes_controller_sh.Examples.Data.{by_length, at, on_shard, configs, ring}
use kubernetes_controller_sh.Examples.Resync
use kubernetes_controller_sh.Examples.Resync.{on_a}
use kubernetes_controller_sh.Examples.Admission.{shard_b}
use kubernetes_controller_sh.Webhook.Handler

abbrev operation : Operation
operation = record Resync.operation {
  hash_ring = (from_leases by_length (shard_b ∷ []) (at 112)).0;
}

abbrev item : WorkItem
item = work_item operation configs false on_a "a"

abbrev shard : String → Identity
shard name = record { controller_ring_name = "ring"; shard_name = name }

abbrev reads : Object → Env
reads obj = record { get = ok obj; patch = λ before after. none }

-- The object as the webhook gets it.
abbrev released : Labels
released = labels_released operation on_a item (shard "a")

abbrev final : Labels
final = set_label released (ring_label_shard ring) "b"

-- The secret has the labels of the object that the shard reads.
abbrev secret : Secret
secret = record {
  name = "settings";
  namespace = "default";
  labels = on_shard "a";
  content = ("password", "1234") ∷ [];
}

abbrev checksum_env : Checksum.Env
checksum_env = record {
  get = ok secret;
  set_owner = λ s owners. ok owners;
  create = λ c. none;
  is_already_exists = λ e. false;
  sha256_hex = λ text. text;
}

runs_a : (reconcile (reads on_a) (shard "a")).1 ≡ delegated
unfolding reconcile with_object is_foreign responsible find_label lookup label_shard label_drain
runs_a = refl

reconcile-panicked_example : Checksum.reconcile checksum_env ≢ panicked
reconcile-panicked_example =
    reconcile-panicked (reads on_a) (shard "a") on_a checksum_env secret refl refl refl runs_a
