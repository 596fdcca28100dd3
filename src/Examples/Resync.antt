-- ===== src/Examples/Resync.antt =====
-- A resync that finds a config map on a shard that is gone.
use kubernetes_controller_sh.Base.{String, ◌≡◌, refl, inl, false, none, some, [], ◌∷◌, In}
use kubernetes_controller_sh.Base.Map.{lookup}
use kubernetes_controller_sh.Base.Result.{ok, ◌>>=◌}
use kubernetes_controller_sh.Api.Core.{Object, label_shard}
use kubernetes_controller_sh.Api.Labels.{get_label, find_label}
use kubernetes_controller_sh.Api.ControllerRing.{ring_label_shard}
use kubernetes_controller_sh.Consistenthash.{
  Ring, hash_key, is_empty, next_index, binary_search, search_loop,
}
use kubernetes_controller_sh.Leases.{is_available, by_id}
use kubernetes_controller_sh.Pager
use kubernetes_controller_sh.Sharding.Key.{apply, for_object, for_metadata}
use kubernetes_controller_sh.Sharder.Operation.{
  Operation, WorkItem, Client, work_item, work_item_for_key, work_item_for_object, move_patch,
  item_patch, resync_controller_ring, compile_work_items_for_ring, compile_resources,
  compile_work_items_for_resource, with_kinds, compile_controlled, compile_objects, compile_object,
  of_result, has_namespace, key_func, process,
}
use kubernetes_controller_sh.Sharder.Queue.{Justified, resync-Justified}
use kubernetes_controller_sh.Examples.Data.{
  by_length, ring, configs, config_map, on_shard, apimachinery,
}

-- All keys are placed on the shard `b`.
abbrev pub hash_ring : Ring
hash_ring = record {
  hash = by_length;
  tokens_per_node = 1;
  tokens = 4 ∷ [];
  token_to_node = (4, "b") ∷ [];
}

-- No shard is known, so none is available.
abbrev pub operation : Operation
operation = record {
  controller_ring = ring;
  namespaces = "default" ∷ [];
  hash_ring = hash_ring;
  shards = [];
}

abbrev pub on_a : Object
on_a = config_map (on_shard "a")

abbrev pub key : String
key = "/ConfigMap/default/settings"

abbrev pub item : WorkItem
item = work_item operation configs false on_a "a"

pub queued : work_item_for_key operation configs false on_a key ≡ some item
unfolding work_item_for_key hash_key is_empty next_index binary_search search_loop lookup get_label
    find_label label_shard ring_label_shard
queued = refl

-- A server with the one config map and no secrets.
abbrev pub client : Client
client = record {
  kinds_for = λ gr. ok (on_a.gvk ∷ []);
  reader = λ gvk. record {
    page = λ round options. ok (record { items = on_a ∷ []; continue_token = "" });
    is_done = λ round. false;
    is_done_handling = λ round. false;
  };
  patch = λ p. none;
  apimachinery = apimachinery;
}

moved : In (move_patch operation item) (resync_controller_ring 1 client operation).0
unfolding resync_controller_ring compile_work_items_for_ring compile_resources
    compile_work_items_for_resource with_kinds compile_controlled compile_objects compile_object
    of_result has_namespace key_func process item_patch work_item_for_object apply for_object
    for_metadata work_item_for_key hash_key is_empty next_index binary_search search_loop lookup
    get_label find_label Pager.each_list_item Pager.each_list_chunk Pager.chunk_loop Pager.new
    Pager.first_options Pager.handle_pages ◌>>=◌ is_available by_id label_shard ring_label_shard
moved = inl refl

resync-Justified_example : Justified 1 client operation (move_patch operation item)
resync-Justified_example = resync-Justified 1 client operation (move_patch operation item) moved
