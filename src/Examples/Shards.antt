-- ===== src/Examples/Shards.antt =====
-- Two shards and a config map that changes hands.
use kubernetes_controller_sh.Base.{String, ◌≡◌, refl, ◌⊎◌, false, none, []}
use kubernetes_controller_sh.Base.Result.{ok}
use kubernetes_controller_sh.Base.Map.{lookup}
use kubernetes_controller_sh.Api.Core.{Object, Labels, label_shard, label_drain}
use kubernetes_controller_sh.Api.Labels.{get_label, find_label, set_label}
use kubernetes_controller_sh.Api.ControllerRing.{ring_label_shard}
use kubernetes_controller_sh.Shard.Controller.{
  Env, Identity, nothing, delegated, predicate, is_drained, is_assigned, is_some, all_predicates,
  reconcile,
}
use kubernetes_controller_sh.Shard.Responsible.{predicate-Acts}
use kubernetes_controller_sh.Sharder.Operation.{item_patch}
use kubernetes_controller_sh.Sharder.Labels.{merge}
use kubernetes_controller_sh.Examples.Data.{config_map, on_shard, ring}
use kubernetes_controller_sh.Examples.Resync.{operation, on_a, item}

abbrev shard : String → Identity
shard name = record { controller_ring_name = "ring"; shard_name = name }

abbrev reads : Object → Env
reads obj = record { get = ok obj; patch = λ before after. none }

foreign : predicate (shard "b") [] on_a ≡ false
unfolding predicate is_drained is_assigned is_some get_label find_label lookup label_shard
    label_drain
foreign = refl

predicate-Acts_example :
    ((reconcile (reads on_a) (shard "b")).1 ≡ nothing)
    ⊎ (((reconcile (reads on_a) (shard "b")).1 ≡ delegated) × (all_predicates [] on_a ≡ false))
predicate-Acts_example = predicate-Acts (reads on_a) (shard "b") on_a [] refl foreign

-- The labels after the sharder's move.
abbrev unassigned : Labels
unassigned = merge (on_shard "a") (item_patch operation item).labels

-- The labels after the webhook.
abbrev on_b : Object
on_b = config_map (set_label unassigned (ring_label_shard ring) "b")
