-- ===== src/Sharder/Effects.antt =====
-- What the patch of a work item does to the labels of its object, and to which objects it may do so.
use kubernetes_controller_sh.Base.{
  ◌||◌, if◌then◌else◌, String, ◌==◌, eq_iff, ◌≡◌, ◌≢◌, ◌⊎◌, inl, inr, Bool, true, false, not, ◌&&◌,
  none, some, Bool-cases, arith,
}
use kubernetes_controller_sh.Api.Core.{Object}
use kubernetes_controller_sh.Api.ControllerRing.{ControllerRing, ring_label_shard, ring_label_drain}
use kubernetes_controller_sh.Api.Labels.{find_label, get_label}
use kubernetes_controller_sh.Sharder.Labels.{merge, merge-drain_patch, merge-move_patch}
use kubernetes_controller_sh.Leases.{is_available, by_id}
use kubernetes_controller_sh.Sharder.Operation.{
  Operation, WorkItem, Patch, item_patch, drain_patch, move_patch,
}
use kubernetes_controller_sh.Sharder.Safety.{Misplaced}

-- The patch is for this version of the object.
abbrev pub IsFor : Object → Patch → Type 0
IsFor obj p =
    (p.gvk ≡ obj.gvk)
    × (p.namespace ≡ obj.meta.namespace)
    × (p.name ≡ obj.meta.name)
    × (p.resource_version ≡ obj.meta.resource_version)

-- The patch sets the drain label, and changes no other label: the object keeps its shard.
abbrev pub Drains : ControllerRing → Object → Patch → Type 0
Drains ring obj p =
    (k : String)
    → find_label (merge obj.meta.labels p.labels) k
      ≡ (if ring_label_drain ring == k then some "true" else find_label obj.meta.labels k)

-- The patch takes off the shard label and the drain label, and changes no other label.
abbrev pub Moves : ControllerRing → Object → Patch → Type 0
Moves ring obj p =
    (k : String)
    → find_label (merge obj.meta.labels p.labels) k ≡ (
        if ring_label_shard ring == k || ring_label_drain ring == k
        then none
        else find_label obj.meta.labels k)

-- What a patch may do to an object: it drains a main object whose shard is available, and moves an object
-- whose shard is not available, one that has no shard, or a controlled one.
abbrev pub Allowed : Operation → Bool → Object → Patch → Type 0
Allowed o controlled obj p =
    let current = get_label obj.meta.labels (ring_label_shard o.controller_ring) in
    ((current ≢ "")
      × (is_available (by_id o.shards current).state ≡ true)
      × (controlled ≡ false)
      × Drains o.controller_ring obj p)
    ⊎ (((current ≡ "")
          ⊎ ((is_available (by_id o.shards current).state ≡ false) ⊎ (controlled ≡ true)))
        × Moves o.controller_ring obj p)

pub item_patch-IsFor :
    (o : Operation) (w : WorkItem) (obj : Object) (controlled : Bool) (key : String)
    → Misplaced o controlled obj key w
    → IsFor obj (item_patch o w)
unfolding item_patch drain_patch move_patch
item_patch-IsFor o w obj controlled key h =
    let (namespace, name, gvk, version) = h.same_object in
    elim (Bool-cases w.drain) [
      | inl d ↦ rw d (gvk, namespace, name, version)
      | inr d ↦ rw d (gvk, namespace, name, version)
    ]

drains :
    (o : Operation) (w : WorkItem) (obj : Object)
    → w.drain ≡ true
    → Drains o.controller_ring obj (item_patch o w)
unfolding item_patch drain_patch
drains o w obj d = rw d (merge-drain_patch o w obj.meta.labels)

moves :
    (o : Operation) (w : WorkItem) (obj : Object)
    → w.drain ≡ false
    → Moves o.controller_ring obj (item_patch o w)
unfolding item_patch move_patch
moves o w obj d = rw d (merge-move_patch o w obj.meta.labels)

-- When an item is drained.
drain-cases :
    (drain available controlled : Bool) (current : String)
    → drain ≡ (not (current == "") && (available && not controlled))
    → ((drain ≡ true) × (current ≢ "") × (available ≡ true) × (controlled ≡ false))
      ⊎ ((drain ≡ false) × ((current ≡ "") ⊎ ((available ≡ false) ⊎ (controlled ≡ true))))
drain-cases drain available controlled current h = ground (arith, eq_iff current "")

pub item_patch-Allowed :
    (o : Operation) (w : WorkItem) (obj : Object) (controlled : Bool) (key : String)
    → Misplaced o controlled obj key w
    → Allowed o controlled obj (item_patch o w)
item_patch-Allowed o w obj controlled key h =
    elim (drain-cases w.drain
      (is_available
        (by_id o.shards (get_label obj.meta.labels (ring_label_shard o.controller_ring))).state)
      controlled (get_label obj.meta.labels (ring_label_shard o.controller_ring))
      (rw (h.current) at h.drain_iff)) [
        | inl (d, named, available, is_main) ↦ inl (named, available, is_main, drains o w obj d)
        | inr (d, why) ↦ inr (why, moves o w obj d)
      ]
