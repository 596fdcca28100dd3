-- ===== src/Sharder/Queue.antt =====
-- Every patch that a resync sends is justified by the object that it is for.
use kubernetes_controller_sh.Base.{
  sym, ℕ, String, ◌≡◌, ◌≢◌, refl, inl, inr, Bool, true, false, Option, none, some, List, [], ◌∷◌,
  ◌++◌, In, In-append, Bool-cases,
}
use mathlib.Core.Path.{subst}
use kubernetes_controller_sh.Base.Result.{Result, ok, err, >>=-eq-ok}
use kubernetes_controller_sh.Api.Core.{Object, GroupResource, GroupVersionKind}
use kubernetes_controller_sh.Api.Client.{ApiError}
use kubernetes_controller_sh.Api.ControllerRing.{RingResource, ring_label_shard}
use kubernetes_controller_sh.Api.Labels.{get_label}
use kubernetes_controller_sh.Consistenthash.{hash_key}
use kubernetes_controller_sh.Pager
use kubernetes_controller_sh.Sharding.Key.{Apimachinery, KeyError, apply}
use kubernetes_controller_sh.Sharder.Operation.{
  from_cache, Client, Operation, WorkItem, Patch, key_func, work_item_for_object, has_namespace,
  of_result, compile_object, compile_objects, with_kinds, compile_work_items_for_resource,
  compile_controlled, compile_resources, compile_work_items_for_ring, item_patch, process,
  resync_controller_ring,
}
use kubernetes_controller_sh.Sharder.Safety.{Misplaced, work_item_for_key-Misplaced}
use kubernetes_controller_sh.Sharder.Effects.{IsFor, Allowed, item_patch-IsFor, item_patch-Allowed}

-- The item is for this object, of a selected namespace, which is misplaced.
pub record Selected (lib : Apimachinery) (o : Operation) (controlled : Bool) (obj : Object)
    (w : WorkItem) : Type 0 where
  pub key : String
  pub selected : has_namespace o.namespaces obj.meta.namespace ≡ true
  pub keyed : apply lib (key_func controlled) obj ≡ ok key
  pub misplaced : Misplaced o controlled obj key w

-- The item is for an object that is listed for one of the resources of the ring.
pub record Queued (fuel : ℕ) (c : Client) (o : Operation) (gr : GroupResource) (controlled : Bool)
    (w : WorkItem) : Type 0 where
  pub gvk : GroupVersionKind
  pub gvks : List GroupVersionKind
  pub kinds : c.kinds_for gr ≡ ok (gvk ∷ gvks)
  pub obj : Object
  pub listed : In obj (Pager.each_list_item fuel (Pager.new (c.reader gvk)) from_cache).0
  pub item : Selected c.apimachinery o controlled obj w

-- A main resource of the ring, or one that a main resource controls.
pub data IsOf (o : Operation) : GroupResource → Bool → Type 0 where
  main : (r : RingResource) → In r o.controller_ring.spec.resources → IsOf o r.group_resource false
  controlled_by :
      (r : RingResource) (gr : GroupResource)
      → In r o.controller_ring.spec.resources
      → In gr r.controlled_resources
      → IsOf o gr true

module _ (lib : Apimachinery) (o : Operation) where
  In-of_result :
      (w : WorkItem) (r : Result KeyError (Option WorkItem))
      → In w (of_result r).0
      → r ≡ ok (some w)
  unfolding of_result
  In-of_result w (ok (some v)) (inl e) = cc
  In-of_result w (ok (some v)) (inr m) = elim m [ ]
  In-of_result w (ok none) m = elim m [ ]
  In-of_result w (err e) m = elim m [ ]

  compile_object-Selected :
      (gr : GroupResource) (controlled : Bool) (obj : Object) (w : WorkItem)
      → In w (compile_object lib o gr controlled obj).0
      → Selected lib o controlled obj w
  unfolding compile_object work_item_for_object
  compile_object-Selected gr controlled obj w m =
      elim (Bool-cases (has_namespace o.namespaces obj.meta.namespace)) [
        | inr outside ↦ absurd (rw outside at m)
        | inl inside ↦
            let e = In-of_result w _ (rw inside at m) in
            let (key, keyed, h) = >>=-eq-ok (apply lib (key_func controlled) obj) _ e in
            record {
              key = key;
              selected = inside;
              keyed = keyed;
              misplaced = work_item_for_key-Misplaced o gr controlled obj key w (cc h);
            }
      ]

  compile_objects-Selected :
      (gr : GroupResource) (controlled : Bool) (objs : List Object) (w : WorkItem)
      → In w (compile_objects lib o gr controlled objs).0
      → (obj : Object) × In obj objs × Selected lib o controlled obj w
  unfolding compile_objects
  compile_objects-Selected gr controlled [] w m = elim m [ ]
  compile_objects-Selected gr controlled (obj ∷ objs) w m =
      elim (In-append w (compile_object lib o gr controlled obj).0
        (compile_objects lib o gr controlled objs).0 m) [
          | inl l ↦ (obj, inl refl, compile_object-Selected gr controlled obj w l)
          | inr r ↦ let (x, m, s) = compile_objects-Selected gr controlled objs w r in (x, inr m, s)
        ]

module _ (fuel : ℕ) (c : Client) (o : Operation) where
  with_kinds-Queued :
      (gr : GroupResource) (controlled : Bool) (kinds : Result ApiError (List GroupVersionKind))
      (w : WorkItem)
      → c.kinds_for gr ≡ kinds
      → In w (with_kinds fuel c o gr controlled kinds).0
      → Queued fuel c o gr controlled w
  unfolding with_kinds
  with_kinds-Queued gr controlled (err e) w h m = elim m [ ]
  with_kinds-Queued gr controlled (ok []) w h m = elim m [ ]
  with_kinds-Queued gr controlled (ok (gvk ∷ gvks)) w h m =
      elim (In-append w (compile_objects c.apimachinery o gr controlled _).0 [] m) [
        | inl l ↦
            let (obj, listed, item) =
              compile_objects-Selected c.apimachinery o gr controlled _ w l in
            record { gvk = gvk; gvks = gvks; kinds = h; obj = obj; listed = listed; item = item }
        | inr r ↦ absurd r
      ]

  -- The item is for an object of one of the resources of the ring.
  abbrev pub OfRing : WorkItem → Type 0
  OfRing w =
      (gr : GroupResource) × (controlled : Bool) × IsOf o gr controlled
      × Queued fuel c o gr controlled w

  compile_controlled-Queued :
      (r : RingResource) (grs : List GroupResource) (w : WorkItem)
      → In r o.controller_ring.spec.resources
      → ((gr : GroupResource) → In gr grs → In gr r.controlled_resources)
      → In w (compile_controlled fuel c o grs).0
      → OfRing w
  unfolding compile_controlled compile_work_items_for_resource
  compile_controlled-Queued r [] w of_ring among m = elim m [ ]
  compile_controlled-Queued r (gr ∷ grs) w of_ring among m =
      elim (In-append w (with_kinds fuel c o gr true (c.kinds_for gr)).0
        (compile_controlled fuel c o grs).0 m) [
          | inl l ↦ (
            gr,
            true,
            controlled_by r gr of_ring (among gr (inl refl)),
            with_kinds-Queued gr true (c.kinds_for gr) w refl l,
          )
          | inr l ↦ compile_controlled-Queued r grs w of_ring (λ g i. among g (inr i)) l
        ]

  compile_resources-Queued :
      (rs : List RingResource) (w : WorkItem)
      → ((r : RingResource) → In r rs → In r o.controller_ring.spec.resources)
      → In w (compile_resources fuel c o rs).0
      → OfRing w
  unfolding compile_resources compile_work_items_for_resource
  compile_resources-Queued [] w among m = elim m [ ]
  compile_resources-Queued (r ∷ rs) w among m =
      let main_items =
        (with_kinds fuel c o r.group_resource false (c.kinds_for r.group_resource)).0 in
      let controlled = (compile_controlled fuel c o r.controlled_resources).0 in
      elim (In-append w (main_items ++ controlled) (compile_resources fuel c o rs).0 m) [
        | inr later ↦ compile_resources-Queued rs w (λ s i. among s (inr i)) later
        | inl here ↦ elim (In-append w main_items controlled here) [
          | inl l ↦ (
            r.group_resource,
            false,
            main r (among r (inl refl)),
            with_kinds-Queued r.group_resource false (c.kinds_for r.group_resource) w refl l,
          )
          | inr l ↦
              compile_controlled-Queued r r.controlled_resources w (among r (inl refl)) (λ g i. i) l
        ]
      ]

  In-process :
      (p : Patch) (ws : List WorkItem)
      → In p (process c o ws).0
      → (w : WorkItem) × In w ws × (p ≡ item_patch o w)
  unfolding process
  In-process p [] m = elim m [ ]
  In-process p (w ∷ ws) (inl e) = (w, inl refl, e)
  In-process p (w ∷ ws) (inr m) = let (v, a, e) = In-process p ws m in (v, inr a, e)

-- What a patch of a resync is for, and what it does.
pub record Justified (fuel : ℕ) (c : Client) (o : Operation) (p : Patch) : Type 0 where
  pub gr : GroupResource
  pub controlled : Bool
  pub of_ring : IsOf o gr controlled
  pub gvk : GroupVersionKind
  pub gvks : List GroupVersionKind
  pub kinds : c.kinds_for gr ≡ ok (gvk ∷ gvks)
  pub obj : Object
  pub listed : In obj (Pager.each_list_item fuel (Pager.new (c.reader gvk)) from_cache).0
  pub selected : has_namespace o.namespaces obj.meta.namespace ≡ true
  pub key : String
  pub keyed : apply c.apimachinery (key_func controlled) obj ≡ ok key
  pub key_not_empty : key ≢ ""
  pub elsewhere :
      hash_key o.hash_ring key ≢ get_label obj.meta.labels (ring_label_shard o.controller_ring)
  pub is_for : IsFor obj p
  pub allowed : Allowed o controlled obj p

-- Every patch of a resync is for an object that is listed for a main or a controlled resource of the
-- ring, in a selected namespace, whose key the ring places on another shard than the label of the object
-- names, and for the version that was listed. If it is a main object and the shard of its label is
-- available, the patch only sets the drain label; otherwise the patch takes the shard label and the drain
-- label off and keeps all others.
pub resync-Justified :
    (fuel : ℕ) (c : Client) (o : Operation) (p : Patch)
    → In p (resync_controller_ring fuel c o).0
    → Justified fuel c o p
unfolding resync_controller_ring compile_work_items_for_ring
resync-Justified fuel c o p m =
    let (w, inside, e) = In-process fuel c o p _ m in
    let (gr, controlled, of_ring, q) =
      compile_resources-Queued fuel c o o.controller_ring.spec.resources w (λ r i. i) inside in
    let h = q.item.misplaced in
    record {
      gr = gr;
      controlled = controlled;
      of_ring = of_ring;
      gvk = q.gvk;
      gvks = q.gvks;
      kinds = q.kinds;
      obj = q.obj;
      listed = q.listed;
      selected = q.item.selected;
      key = q.item.key;
      keyed = q.item.keyed;
      key_not_empty = h.key_not_empty;
      elsewhere = rw h.current at h.elsewhere;
      is_for = subst (IsFor q.obj) (sym e) (item_patch-IsFor o w q.obj controlled q.item.key h);
      allowed =
          subst (Allowed o controlled q.obj) (sym e)
            (item_patch-Allowed o w q.obj controlled q.item.key h);
    }
