-- ===== src/Sharder/Operation.antt =====
-- The operation of one resync: which objects are drained or moved, and the patches for that.
use kubernetes_controller_sh.Base.{
  ℕ, String, ◌==◌, Bool, true, false, not, ◌&&◌, ◌||◌, Option, none, some, List, [], ◌∷◌, ◌++◌,
  if◌then◌else◌,
}
use kubernetes_controller_sh.Base.Int.{pos}
use kubernetes_controller_sh.Base.Result.{Result, ok, err, ◌>>=◌}
use kubernetes_controller_sh.Api.Core.{Object, GroupResource, GroupVersionKind}
use kubernetes_controller_sh.Api.Labels.{get_label}
use kubernetes_controller_sh.Api.Client.{ApiError}
use kubernetes_controller_sh.Api.ControllerRing.{
  ControllerRing, RingResource, ring_label_shard, ring_label_drain,
}
use kubernetes_controller_sh.Consistenthash.{Ring, hash_key}
use kubernetes_controller_sh.Leases.{Shard, is_available, by_id}
use kubernetes_controller_sh.Pager
use kubernetes_controller_sh.Pager.{Reader, ListOptions, PagerError}
use kubernetes_controller_sh.Sharding.Key.{
  Apimachinery, KeyError, Func, object_func, controller_func, apply,
}

pub record Operation : Type 0 where
  pub controller_ring : ControllerRing
  pub namespaces : List String
  pub hash_ring : Ring
  pub shards : List Shard

pub record WorkItem : Type 0 where
  pub drain : Bool
  pub gr : GroupResource
  pub gvk : GroupVersionKind
  pub namespace : String
  pub name : String
  pub resource_version : String
  pub current_shard : String

-- A merge patch of an object's labels with the resource version for optimistic locking; `none` is null.
pub record Patch : Type 0 where
  pub gvk : GroupVersionKind
  pub namespace : String
  pub name : String
  pub resource_version : String
  pub labels : List (String × Option String)

pub data OperationError : Type 0 where
  determining_kinds : GroupResource → ApiError → OperationError
  no_kinds_found : GroupResource → OperationError
  listing : GroupResource → PagerError → OperationError
  calculating_key : KeyError → OperationError
  draining moving : WorkItem → ApiError → OperationError

-- What the operation calls: the REST mapper, the API reader, and `Patch` of the client.
pub record Client : Type 0 where
  pub kinds_for : GroupResource → Result ApiError (List GroupVersionKind)
  pub reader : GroupVersionKind → Reader Object
  pub patch : Patch → Option ApiError
  pub apimachinery : Apimachinery

unfoldable pub key_func : Bool → Func
key_func controlled = if controlled then controller_func else object_func

-- The item for an object that has to leave its shard: only a main object is drained, and only from a
-- shard that is still available.
abbrev pub work_item : Operation → GroupResource → Bool → Object → String → WorkItem
work_item o gr controlled obj current_shard = record {
  drain =
      not (current_shard == "")
      && (is_available (by_id o.shards current_shard).state && not controlled);
  gr = gr;
  gvk = obj.gvk;
  namespace = obj.meta.namespace;
  name = obj.meta.name;
  resource_version = obj.meta.resource_version;
  current_shard = current_shard;
}

-- The decision of `workItemForObject` behind the hash key.
unfoldable pub work_item_for_key :
    Operation → GroupResource → Bool → Object → String → Option WorkItem
work_item_for_key o gr controlled obj key =
    let desired_shard = hash_key o.hash_ring key in
    let current_shard = get_label obj.meta.labels (ring_label_shard o.controller_ring) in
    if key == ""
    then none
    else if desired_shard == ""
    then none
    else if desired_shard == current_shard
    then none
    else some (work_item o gr controlled obj current_shard)

unfoldable pub work_item_for_object :
    Apimachinery → Operation → GroupResource → Bool → Object → Result KeyError (Option WorkItem)
work_item_for_object lib o gr controlled obj = do
  key ← apply lib (key_func controlled) obj
  ok (work_item_for_key o gr controlled obj key)

unfoldable pub has_namespace : List String → String → Bool
has_namespace [] ns = false
has_namespace (x ∷ xs) ns = x == ns || has_namespace xs ns

-- The work items that go into the queue, and the errors.
abbrev pub Compiled : Type 0
Compiled = List WorkItem × List OperationError

abbrev pub join : Compiled → Compiled → Compiled
join a b = (a.0 ++ b.0, a.1 ++ b.1)

unfoldable pub of_result : Result KeyError (Option WorkItem) → Compiled
of_result (ok none) = ([], [])
of_result (ok (some w)) = (w ∷ [], [])
of_result (err e) = ([], calculating_key e ∷ [])

-- The handler of `EachListItemWithAlloc`.
unfoldable pub compile_object : Apimachinery → Operation → GroupResource → Bool → Object → Compiled
compile_object lib o gr controlled obj =
    if not (has_namespace o.namespaces obj.meta.namespace)
    then ([], [])
    else of_result (work_item_for_object lib o gr controlled obj)

unfoldable pub compile_objects :
    Apimachinery → Operation → GroupResource → Bool → List Object → Compiled
compile_objects lib o gr controlled [] = ([], [])
compile_objects lib o gr controlled (obj ∷ objs) =
    join (compile_object lib o gr controlled obj) (compile_objects lib o gr controlled objs)

-- `utilclient.ResourceVersion("0")`
abbrev pub from_cache : ListOptions
from_cache = record {
  limit = pos 0;
  continue_token = "";
  resource_version = "0";
  resource_version_match = "";
}

listing_error : GroupResource → Option PagerError → List OperationError
listing_error gr none = []
listing_error gr (some e) = listing gr e ∷ []

unfoldable pub with_kinds :
    ℕ
    → Client
    → Operation
    → GroupResource
    → Bool
    → Result ApiError (List GroupVersionKind)
    → Compiled
unfolding listing_error
with_kinds fuel c o gr controlled (err e) = ([], determining_kinds gr e ∷ [])
with_kinds fuel c o gr controlled (ok []) = ([], no_kinds_found gr ∷ [])
with_kinds fuel c o gr controlled (ok (gvk ∷ gvks)) =
    let (objs, failure) = Pager.each_list_item fuel (Pager.new (c.reader gvk)) from_cache in
    join (compile_objects c.apimachinery o gr controlled objs) ([], listing_error gr failure)

unfoldable pub compile_work_items_for_resource :
    ℕ → Client → Operation → GroupResource → Bool → Compiled
compile_work_items_for_resource fuel c o gr controlled =
    with_kinds fuel c o gr controlled (c.kinds_for gr)

unfoldable pub compile_controlled : ℕ → Client → Operation → List GroupResource → Compiled
compile_controlled fuel c o [] = ([], [])
compile_controlled fuel c o (gr ∷ grs) =
    join (compile_work_items_for_resource fuel c o gr true) (compile_controlled fuel c o grs)

unfoldable pub compile_resources : ℕ → Client → Operation → List RingResource → Compiled
compile_resources fuel c o [] = ([], [])
compile_resources fuel c o (r ∷ rs) =
    join
      (join (compile_work_items_for_resource fuel c o r.group_resource false)
        (compile_controlled fuel c o r.controlled_resources))
      (compile_resources fuel c o rs)

unfoldable pub compile_work_items_for_ring : ℕ → Client → Operation → Compiled
compile_work_items_for_ring fuel c o = compile_resources fuel c o o.controller_ring.spec.resources

patch_labels : WorkItem → List (String × Option String) → Patch
patch_labels w labels = record {
  gvk = w.gvk;
  namespace = w.namespace;
  name = w.name;
  resource_version = w.resource_version;
  labels = labels;
}

-- `drainObject`
unfoldable pub drain_patch : Operation → WorkItem → Patch
unfolding patch_labels
drain_patch o w = patch_labels w ((ring_label_drain o.controller_ring, some "true") ∷ [])

-- `moveObject`
unfoldable pub move_patch : Operation → WorkItem → Patch
unfolding patch_labels
move_patch o w =
    patch_labels w
      ((ring_label_shard o.controller_ring, none) ∷ (ring_label_drain o.controller_ring, none) ∷ [])

-- `processNextWorkItem` with an item: the patch that it sends.
unfoldable pub item_patch : Operation → WorkItem → Patch
item_patch o w = if w.drain then drain_patch o w else move_patch o w

unfoldable pub patch_error : WorkItem → Option ApiError → List OperationError
patch_error w none = []
patch_error w (some e) = (if w.drain then draining w e else moving w e) ∷ []

-- The processors; every item of the queue is processed once, whatever happens to the others.
unfoldable pub process : Client → Operation → List WorkItem → List Patch × List OperationError
unfolding patch_error
process c o [] = ([], [])
process c o (w ∷ ws) =
    let rest = process c o ws in
    (item_patch o w ∷ rest.0, patch_error w (c.patch (item_patch o w)) ++ rest.1)

-- The patches that are sent, and the errors that are combined into one.
unfoldable pub resync_controller_ring : ℕ → Client → Operation → List Patch × List OperationError
resync_controller_ring fuel c o =
    let compiled = compile_work_items_for_ring fuel c o in
    let processed = process c o compiled.0 in (processed.0, compiled.1 ++ processed.1)
