-- ===== src/Shard/Handover.antt =====
-- How an object changes hands: the sharder, the webhook and the shards, taking turns on its labels.
-- Each step is one patch; the optimistic lock makes it apply to the object that was read.
use kubernetes_controller_sh.Base.{
  String, ◌==◌, eq_iff, eq_refl, ◌≡◌, ◌≢◌, refl, sym, ap, ◌∙◌, ◌⊎◌, inl, inr, Bool, false, not,
  ◌&&◌, none, some, List, Bool-cases, arith,
}
use mathlib.Core.Path.{subst}
use kubernetes_controller_sh.Base.Result.{Result, ok}
use kubernetes_controller_sh.Api.Core.{Object, Labels, GroupResource, label_shard, label_drain}
use kubernetes_controller_sh.Api.ControllerRing.{ControllerRing, ring_label_shard, ring_label_drain}
use kubernetes_controller_sh.Api.Labels.{find_label, get_label}
use kubernetes_controller_sh.Leases.{is_available, by_id}
use kubernetes_controller_sh.Shard.Controller.{Env, Identity, patched, reconcile}
use kubernetes_controller_sh.Shard.Responsible.{Acts, reconcile-Acts}
use kubernetes_controller_sh.Sharder.Operation.{
  Operation, WorkItem, work_item_for_key, item_patch, drain_patch, move_patch,
}
use kubernetes_controller_sh.Sharder.Safety.{work_item_for_key-Misplaced}
use kubernetes_controller_sh.Sharder.Labels.{
  merge, label_shard-ne-label_drain, merge-drain_patch, merge-move_patch,
}
use kubernetes_controller_sh.Webhook.Handler
use kubernetes_controller_sh.Webhook.Handler.{
  Request, PatchOperation, handle, controller_ring_for_request,
}
use kubernetes_controller_sh.Webhook.Handler.Applied.{apply_patch}
use kubernetes_controller_sh.Webhook.Handler.Assigns.{handle-patched}

-- A change of the labels of a main object of a ring.
pub data Step (ring : String) : Labels → Labels → Type 0 where
  -- The sharder drains or moves it.
  sharder_step :
      (o : Operation) (gr : GroupResource) (obj : Object) (key : String) (w : WorkItem)
      → o.controller_ring.name ≡ ring
      → work_item_for_key o gr false obj key ≡ some w
      → Step ring obj.meta.labels (merge obj.meta.labels (item_patch o w).labels)
  -- A shard acknowledges that it is drained.
  shard_step :
      (env : Env) (r : Identity) (obj after : Object)
      → r.controller_ring_name ≡ ring
      → env.get ≡ ok obj
      → (reconcile env r).1 ≡ patched obj after
      → Step ring obj.meta.labels after.meta.labels
  -- The webhook answers a request with the object, and the API server applies the operations.
  webhook_step :
      (env : Handler.Env) (req : Request) (r : ControllerRing) (obj : Object)
      (ops : List PatchOperation) (after : Labels)
      → controller_ring_for_request env req ≡ ok r
      → r.name ≡ ring
      → env.unmarshal req.raw ≡ ok obj
      → (handle env req).0 ≡ Handler.patched ops
      → apply_patch ops obj.meta.labels ≡ some after
      → Step ring obj.meta.labels after

pub data Trace (ring : String) : Labels → Labels → Type 0 where
  here : {l : Labels} → Trace ring l l
  then_step : {l m n : Labels} → Step ring l m → Trace ring m n → Trace ring l n

-- The step takes the object off the shard.
pub data Releases (ring shard : String) : (l m : Labels) → Step ring l m → Type 0 where
  -- It is the shard itself that acknowledges a drain label.
  acknowledged :
      (env : Env) (r : Identity) (obj after : Object) (same : r.controller_ring_name ≡ ring)
      (read : env.get ≡ ok obj) (acked : (reconcile env r).1 ≡ patched obj after)
      → r.shard_name ≡ shard
      → find_label obj.meta.labels (label_drain ring) ≢ none
      → Releases ring shard obj.meta.labels after.meta.labels
          (shard_step env r obj after same read acked)
  -- It is the sharder that moves it, in an operation in which the shard is not available.
  unavailable :
      (o : Operation) (gr : GroupResource) (obj : Object) (key : String) (w : WorkItem)
      (same : o.controller_ring.name ≡ ring) (item : work_item_for_key o gr false obj key ≡ some w)
      → is_available (by_id o.shards shard).state ≡ false
      → find_label (merge obj.meta.labels (item_patch o w).labels) (label_shard ring) ≡ none
      → Releases ring shard obj.meta.labels
          (merge obj.meta.labels (item_patch o w).labels)
          (sharder_step o gr obj key w same item)

ok_inj : {E A : Type 0} (a b : A) → ◌≡◌ {A = Result E A} (ok a) (ok b) → a ≡ b
ok_inj a b h = cc

some_inj : (a b : String) → some a ≡ some b → a ≡ b
some_inj a b h = cc

shard_of_ring :
    (r : ControllerRing) (ring : String) → r.name ≡ ring → ring_label_shard r ≡ label_shard ring
unfolding ring_label_shard
shard_of_ring r ring same = ap label_shard same

pub get_of_find : (l : Labels) (k v : String) → find_label l k ≡ some v → get_label l k ≡ v
unfolding get_label
get_of_find l k v h = rw h refl

ne_key : (k j : String) → k ≢ j → (k == j) ≡ false
ne_key k j ne = ground (arith, eq_iff k j)

drain_differs :
    (r : ControllerRing) (ring : String) → (ring_label_drain r == label_shard ring) ≡ false
unfolding ring_label_drain
drain_differs r ring =
    ne_key (ring_label_drain r) (label_shard ring)
      (λ e. label_shard-ne-label_drain ring r.name (sym e))

-- A drain leaves the shard label.
pub drain_keeps :
    (o : Operation) (w : WorkItem) (l : Labels) (ring : String)
    → find_label (merge l (drain_patch o w).labels) (label_shard ring)
      ≡ find_label l (label_shard ring)
drain_keeps o w l ring =
    merge-drain_patch o w l (label_shard ring) ∙ rw (drain_differs o.controller_ring ring) refl

-- An item that is not drained names a shard that is empty or not available.
not_drained :
    (drain available : Bool) (current : String)
    → current ≢ ""
    → drain ≡ (not (current == "") && (available && not false))
    → drain ≡ false
    → available ≡ false
not_drained drain available current ne h k = ground (arith, eq_iff current "")

-- A move takes the shard label off.
moved_off :
    (o : Operation) (w : WorkItem) (l : Labels) (ring : String)
    → o.controller_ring.name ≡ ring
    → w.drain ≡ false
    → find_label (merge l (item_patch o w).labels) (label_shard ring) ≡ none
unfolding item_patch move_patch ring_label_shard
moved_off o w l ring same moving = rw moving (
    merge-move_patch o w l (label_shard ring)
    ∙ rw (same, eq_refl (label_shard ring)) (ground arith))

module _ (ring shard : String) (named : shard ≢ "") where
  sharder_step-Releases :
      (o : Operation) (gr : GroupResource) (obj : Object) (key : String) (w : WorkItem)
      (same : o.controller_ring.name ≡ ring) (item : work_item_for_key o gr false obj key ≡ some w)
      → find_label obj.meta.labels (label_shard ring) ≡ some shard
      → (find_label (merge obj.meta.labels (item_patch o w).labels) (label_shard ring) ≡ some shard)
        ⊎ Releases ring shard obj.meta.labels
            (merge obj.meta.labels (item_patch o w).labels)
            (sharder_step o gr obj key w same item)
  unfolding item_patch drain_patch move_patch ring_label_shard
  sharder_step-Releases o gr obj key w same item assigned =
      let misplaced = work_item_for_key-Misplaced o gr false obj key w item in
      let current =
        misplaced.current
        ∙ ap (get_label obj.meta.labels) (shard_of_ring o.controller_ring ring same)
        ∙ get_of_find obj.meta.labels (label_shard ring) shard assigned in
      elim (Bool-cases w.drain) [
        | inl draining ↦ inl (rw draining (drain_keeps o w obj.meta.labels ring ∙ assigned))
        | inr moving ↦ inr (
            unavailable o gr obj key w same item
              (subst (λ c. is_available (by_id o.shards c).state ≡ false) current
                (not_drained w.drain (is_available (by_id o.shards w.current_shard).state)
                  w.current_shard (λ e. named (sym current ∙ e)) misplaced.drain_iff moving))
              (moved_off o w obj.meta.labels ring same moving))
      ]

  shard_step-Releases :
      (env : Env) (r : Identity) (obj after : Object) (same : r.controller_ring_name ≡ ring)
      (e : env.get ≡ ok obj) (acked : (reconcile env r).1 ≡ patched obj after)
      → find_label obj.meta.labels (label_shard ring) ≡ some shard
      → Releases ring shard obj.meta.labels after.meta.labels
          (shard_step env r obj after same e acked)
  shard_step-Releases env r obj after same e acked assigned =
      let (_, _, mine, draining) = subst (Acts env r obj) acked (reconcile-Acts env r obj e) in
      acknowledged env r obj after same e acked
        (some_inj _ _ (
          sym
            (subst (λ n. find_label obj.meta.labels (label_shard n) ≡ some r.shard_name) same mine)
          ∙ assigned))
        (subst (λ n. find_label obj.meta.labels (label_drain n) ≢ none) same draining)

  webhook_step-assigned :
      (env : Handler.Env) (req : Request) (r : ControllerRing) (obj : Object)
      (ops : List PatchOperation)
      → controller_ring_for_request env req ≡ ok r
      → r.name ≡ ring
      → env.unmarshal req.raw ≡ ok obj
      → (handle env req).0 ≡ Handler.patched ops
      → find_label obj.meta.labels (label_shard ring) ≢ some shard
  webhook_step-assigned env req r obj ops for_ring same decoded answered assigned =
      let a = handle-patched env req ops answered in
      let same_obj = ok_inj a.obj obj (sym a.decoded ∙ decoded) in
      let same_ring = ok_inj a.ring r (sym a.for_ring ∙ for_ring) in
      named (
        sym (get_of_find obj.meta.labels (label_shard ring) shard assigned)
        ∙ sym (ap (λ x. get_label x.meta.labels (label_shard ring)) same_obj)
        ∙ ap (λ n. get_label a.obj.meta.labels (label_shard n))
            (sym (ap (λ x. x.name) same_ring ∙ same))
        ∙ a.unassigned)

  -- A step either leaves the object with its shard or releases it.
  Step-Releases :
      {l m : Labels} (s : Step ring l m)
      → find_label l (label_shard ring) ≡ some shard
      → (find_label m (label_shard ring) ≡ some shard) ⊎ Releases ring shard l m s
  Step-Releases (sharder_step o gr obj key w same item) assigned =
      sharder_step-Releases o gr obj key w same item assigned
  Step-Releases (shard_step env r obj after same e acked) assigned =
      inr (shard_step-Releases env r obj after same e acked assigned)
  Step-Releases (webhook_step env req r obj ops after for_ring same decoded answered applied)
        assigned =
      absurd (webhook_step-assigned env req r obj ops for_ring same decoded answered assigned)

  -- Over any sequence of steps a main object stays with its shard, if that has a name, unless one
  -- of the steps releases it: the shard acknowledges a drain, or the sharder moves the object while
  -- the shard is not available.
  pub Trace-Releases :
      {l n : Labels}
      → Trace ring l n
      → find_label l (label_shard ring) ≡ some shard
      → (find_label n (label_shard ring) ≡ some shard)
        ⊎ ((before : Labels) × (after : Labels) × Trace ring l before
            × ((s : Step ring before after) × Releases ring shard before after s)
            × Trace ring after n)
  Trace-Releases here assigned = inl assigned
  Trace-Releases (then_step {l} {m} {n} s rest) assigned = elim (Step-Releases s assigned) [
    | inr released ↦ inr (l, m, here, (s, released), rest)
    | inl still ↦ elim (Trace-Releases rest still) [
      | inl kept ↦ inl kept
      | inr (before, after, trace, released, rest') ↦
          inr (before, after, then_step s trace, released, rest')
    ]
  ]
