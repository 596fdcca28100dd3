-- ===== src/Sharder/Safety.antt =====
-- Which objects the sharder drains and moves.
use kubernetes_controller_sh.Base.{
  eq_false, String, ◌==◌, eq_iff, ◌≡◌, ◌≢◌, refl, inl, inr, Bool, not, ◌&&◌, none, some, Bool-cases,
  arith,
}
use mathlib.Core.Path.{subst}
use kubernetes_controller_sh.Api.Core.{Object, GroupResource}
use kubernetes_controller_sh.Api.Labels.{get_label}
use kubernetes_controller_sh.Api.ControllerRing.{ring_label_shard}
use kubernetes_controller_sh.Consistenthash.{hash_key}
use kubernetes_controller_sh.Leases.{is_available, by_id}
use kubernetes_controller_sh.Sharder.Operation.{Operation, WorkItem, work_item, work_item_for_key}

-- Why an object is queued: it has a key that the ring places on another shard than the object's, and
-- it is drained exactly if it is a main object whose shard is still available.
pub record Misplaced (o : Operation) (controlled : Bool) (obj : Object) (key : String)
    (w : WorkItem) : Type 0 where
  pub key_not_empty : key ≢ ""
  pub desired_not_empty : hash_key o.hash_ring key ≢ ""
  pub current : w.current_shard ≡ get_label obj.meta.labels (ring_label_shard o.controller_ring)
  pub elsewhere : hash_key o.hash_ring key ≢ w.current_shard
  pub drain_iff : w.drain ≡ (
      not (w.current_shard == "")
      && (is_available (by_id o.shards w.current_shard).state && not controlled))
  pub same_object :
      (w.namespace ≡ obj.meta.namespace)
      × (w.name ≡ obj.meta.name)
      × (w.gvk ≡ obj.gvk)
      × (w.resource_version ≡ obj.meta.resource_version)

some_inj : (v w : WorkItem) → some v ≡ some w → v ≡ w
some_inj v w h = cc

-- An object that is queued is misplaced.
pub work_item_for_key-Misplaced :
    (o : Operation) (gr : GroupResource) (controlled : Bool) (obj : Object) (key : String)
    (w : WorkItem)
    → work_item_for_key o gr controlled obj key ≡ some w
    → Misplaced o controlled obj key w
unfolding work_item_for_key
work_item_for_key-Misplaced o gr controlled obj key w h = elim (Bool-cases (key == "")) [
  | inl e ↦ cc (rw e at h)
  | inr has_key ↦ elim (Bool-cases (hash_key o.hash_ring key == "")) [
    | inl e ↦ cc (rw (has_key, e) at h)
    | inr has_shard ↦
        elim (Bool-cases (
          hash_key o.hash_ring key
          == get_label obj.meta.labels (ring_label_shard o.controller_ring))) [
            | inl e ↦ cc (rw (has_key, has_shard, e) at h)
            | inr differs ↦
                subst (Misplaced o controlled obj key)
                  (some_inj
                    (work_item o gr controlled obj
                      (get_label obj.meta.labels (ring_label_shard o.controller_ring)))
                    w (rw (has_key, has_shard, differs) at h))
                  (record {
                    key_not_empty = eq_false _ _ has_key;
                    desired_not_empty = eq_false _ _ has_shard;
                    current = refl;
                    elsewhere = eq_false _ _ differs;
                    drain_iff = refl;
                    same_object = (refl, refl, refl, refl);
                  })
          ]
  ]
]

-- An object that is assigned as the ring says is left alone.
pub work_item_for_key_settled :
    (o : Operation) (gr : GroupResource) (controlled : Bool) (obj : Object) (key : String)
    → get_label obj.meta.labels (ring_label_shard o.controller_ring) ≡ hash_key o.hash_ring key
    → work_item_for_key o gr controlled obj key ≡ none
unfolding work_item_for_key
work_item_for_key_settled o gr controlled obj key h =
    let current = get_label obj.meta.labels (ring_label_shard o.controller_ring) in
    let desired = hash_key o.hash_ring key in ground (arith, h, eq_iff desired current)
