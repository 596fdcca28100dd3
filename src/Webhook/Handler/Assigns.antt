-- ===== src/Webhook/Handler/Assigns.antt =====
-- What the handler assigns, and when.
use kubernetes_controller_sh.Base.{
  is_neq, eq_false, String, eq_iff, ◌≡◌, ◌≢◌, refl, ap, sym, ◌∙◌, some, Bool, true, false, not,
  List, In, inl, inr,
}
use kubernetes_controller_sh.Base.Result.{
  Result, ok, err, ◌>>=◌, ◌>>◌, >>=-eq-ok, >>-eq-ok, wrap_err-eq-ok,
}
use kubernetes_controller_sh.Api.Core.{Object, Lease, Labels, label_shard}
use kubernetes_controller_sh.Api.Labels.{get_label, set_label}
use kubernetes_controller_sh.Api.ControllerRing.{ControllerRing, ring_label_shard, lease_selector}
use kubernetes_controller_sh.Base.Slash.{NoSlash}
use kubernetes_controller_sh.Leases.Listing.{available_shards-In}
use kubernetes_controller_sh.Webhook.Handler.Applied.{apply_patch, apply_patch-assignment_patch}
use kubernetes_controller_sh.Webhook.Path.{
  webhook_path_for_controller_ring, controller_ring-webhook_path,
}
use kubernetes_controller_sh.Consistenthash.{hash_key}
use kubernetes_controller_sh.Leases.{Shard, is_available}
use kubernetes_controller_sh.Sharding.Ring.{from_leases, hash_key-from_leases}
use kubernetes_controller_sh.Sharding.Key.{Func, func_for_resource, apply}
use kubernetes_controller_sh.Webhook.Handler.{
  Env, Request, patched, Early, Reason, PatchOperation, Assignment, HandlerError, Status,
  controller_ring_for_request, assignment_patch, allow_if, fail, assign, handle, respond,
  request_path,
}

-- The object of the request is unassigned, and the operations assign it to the available shard on
-- which the ring places its key.
pub record Assigns (env : Env) (req : Request) (ops : List PatchOperation) : Type 0 where
  pub ring : ControllerRing
  pub for_ring : controller_ring_for_request env req ≡ ok ring
  pub obj : Object
  pub decoded : env.unmarshal req.raw ≡ ok obj
  pub unassigned : get_label obj.meta.labels (label_shard ring.name) ≡ ""
  pub key_func : Func
  pub key_func_found : func_for_resource req.resource ring ≡ ok key_func
  pub key : String
  pub key_calculated : apply env.apimachinery key_func obj ≡ ok key
  pub key_not_empty : key ≢ ""
  pub leases : List Lease
  pub listed : env.list_leases (lease_selector ring) ≡ ok leases
  pub shard : Shard
  pub among : In shard (from_leases env.default_hash leases env.now).1
  pub available : is_available shard.state ≡ true
  pub placed : hash_key (from_leases env.default_hash leases env.now).0 key ≡ shard.id
  pub assigned :
      apply_patch ops obj.meta.labels
      ≡ some (set_label obj.meta.labels (label_shard ring.name) shard.id)

allow_if-eq-ok : (b : Bool) (r : Reason) {u : Unit {0}} → allow_if b r ≡ ok u → b ≡ false
unfolding allow_if
allow_if-eq-ok true r h = cc
allow_if-eq-ok false r h = refl

fail-eq-ok :
    {E A : Type 0} (s : Status) (w : E → HandlerError) (m : Result E A) {a : A}
    → fail s w m ≡ ok a
    → m ≡ ok a
unfolding fail
fail-eq-ok s w m h = wrap_err-eq-ok _ m h

respond-patched :
    (r : Result Early (List PatchOperation × List Assignment)) (ops : List PatchOperation)
    → (respond r).0 ≡ patched ops
    → (counted : List Assignment) × (r ≡ ok (ops, counted))
unfolding respond
respond-patched (ok (patches, counted)) ops h = (counted, cc)
respond-patched (err e) ops h = cc

not-false : (b : Bool) → not b ≡ false → b ≡ true
not-false true h = refl
not-false false h = cc

patch_of_ok :
    (labels : Labels) (label_shard placed id : String) (ops : List PatchOperation)
    {x y : List Assignment}
    → ◌≡◌ {A = Result Early (List PatchOperation × List Assignment)}
        (ok (assignment_patch labels label_shard placed, x))
        (ok (ops, y))
    → id ≡ placed
    → ops ≡ assignment_patch labels label_shard id
patch_of_ok labels label_shard placed id ops h same = cc

assigned_of_ok :
    (labels : Labels) (label_shard placed id : String) (ops : List PatchOperation)
    {x y : List Assignment}
    → ◌≡◌ {A = Result Early (List PatchOperation × List Assignment)}
        (ok (assignment_patch labels label_shard placed, x))
        (ok (ops, y))
    → id ≡ placed
    → apply_patch ops labels ≡ some (set_label labels label_shard id)
assigned_of_ok labels label_shard placed id ops h same =
    ap (λ p. apply_patch p labels) (patch_of_ok labels label_shard placed id ops h same)
    ∙ apply_patch-assignment_patch labels label_shard id

pub handle-patched :
    (env : Env) (req : Request) (ops : List PatchOperation)
    → (handle env req).0 ≡ patched ops
    → Assigns env req ops
unfolding handle assign ring_label_shard
handle-patched env req ops h =
    let (counted, e) = respond-patched (assign env req) ops h in
    let (ring, e1, h1) = >>=-eq-ok _ _ e in
    let (obj, e2, h2) = >>=-eq-ok _ _ h1 in
    let (e3, h3) = >>-eq-ok _ _ h2 in
    let (key_func, e4, h4) = >>=-eq-ok _ _ h3 in
    let (key, e5, h5) = >>=-eq-ok _ _ h4 in
    let (e6, h6) = >>-eq-ok _ _ h5 in
    let (leases, e7, h7) = >>=-eq-ok _ _ h6 in
    let (e8, h8) = >>-eq-ok _ _ h7 in
    let placed : String = hash_key (from_leases env.default_hash leases env.now).0 key in
    elim (hash_key-from_leases env.default_hash leases env.now key) [
      | inl (shard, among, available, same) ↦ record {
        ring = ring;
        for_ring = fail-eq-ok _ _ _ e1;
        obj = obj;
        decoded = fail-eq-ok _ _ _ e2;
        unassigned = (eq_iff _ "").0 (not-false _ (allow_if-eq-ok _ _ e3));
        key_func = key_func;
        key_func_found = fail-eq-ok _ _ _ e4;
        key = key;
        key_calculated = fail-eq-ok _ _ _ e5;
        key_not_empty = eq_false key "" (allow_if-eq-ok _ _ e6);
        leases = leases;
        listed = fail-eq-ok _ _ _ e7;
        shard = shard;
        among = among;
        available = available;
        placed = sym same;
        assigned =
            assigned_of_ok obj.meta.labels (ring_label_shard ring) placed shard.id ops h8 same;
      }
      | inr (none_available, empty) ↦ absurd (eq_false placed "" (allow_if-eq-ok _ _ e8) empty)
    ]

module _ (env : Env) (req : Request) (ring : ControllerRing) (obj : Object) (key_func : Func)
    (key : String) (leases : List Lease) where
  -- No early return is taken.
  pub handle-assignment_patch :
      controller_ring_for_request env req ≡ ok ring
      → env.unmarshal req.raw ≡ ok obj
      → get_label obj.meta.labels (label_shard ring.name) ≡ ""
      → func_for_resource req.resource ring ≡ ok key_func
      → apply env.apimachinery key_func obj ≡ ok key
      → key ≢ ""
      → env.list_leases (lease_selector ring) ≡ ok leases
      → hash_key (from_leases env.default_hash leases env.now).0 key ≢ ""
      → (ops : List PatchOperation) × ((handle env req).0 ≡ patched ops)
        × (apply_patch ops obj.meta.labels
            ≡ some (
                set_label obj.meta.labels
                  (label_shard ring.name)
                  (hash_key (from_leases env.default_hash leases env.now).0 key)))
  unfolding handle assign fail allow_if ◌>>=◌ ◌>>◌ respond ring_label_shard
  handle-assignment_patch for_ring decoded unassigned found keyed has_key listed placed =
      let shard = hash_key (from_leases env.default_hash leases env.now).0 key in
      (
        assignment_patch obj.meta.labels (ring_label_shard ring) shard,
        rw
            (
              for_ring,
              decoded,
              unassigned,
              found,
              keyed,
              is_neq key "" has_key,
              listed,
              is_neq shard "" placed,
            )
            refl,
        apply_patch-assignment_patch obj.meta.labels (label_shard ring.name) shard,
      )

  placed_on :
      (shard : Shard)
      → In shard (from_leases env.default_hash leases env.now).1
      → is_available shard.state ≡ true
      → ((s : Shard) → In s (from_leases env.default_hash leases env.now).1 → s.id ≢ "")
      → hash_key (from_leases env.default_hash leases env.now).0 key ≢ ""
  placed_on shard among available named empty =
      elim (hash_key-from_leases env.default_hash leases env.now key) [
        | inl (s, found, _, same) ↦ named s found (same ∙ empty)
        | inr (none_available, _) ↦
            elim (rw none_available at (
              available_shards-In shard (from_leases env.default_hash leases env.now).1 among
                available)) [ ]
      ]

  -- A request on the webhook path of an existing ring, with an object that has no shard of the ring and
  -- a key, is answered with an assignment as long as one of the listed shards is available: it is not
  -- refused and not let through. (The name of the ring is one path element, and the shards have names.)
  pub handle-Assigns :
      (shard : Shard)
      → NoSlash ring.name
      → ring.name ≢ ""
      → ring.name ≢ "."
      → ring.name ≢ ".."
      → req.path ≡ some (webhook_path_for_controller_ring ring.name)
      → env.get_ring ring.name ≡ ok ring
      → env.unmarshal req.raw ≡ ok obj
      → get_label obj.meta.labels (label_shard ring.name) ≡ ""
      → func_for_resource req.resource ring ≡ ok key_func
      → apply env.apimachinery key_func obj ≡ ok key
      → key ≢ ""
      → env.list_leases (lease_selector ring) ≡ ok leases
      → In shard (from_leases env.default_hash leases env.now).1
      → is_available shard.state ≡ true
      → ((s : Shard) → In s (from_leases env.default_hash leases env.now).1 → s.id ≢ "")
      → (ops : List PatchOperation) × ((handle env req).0 ≡ patched ops) × Assigns env req ops
  unfolding controller_ring_for_request request_path ◌>>=◌
  handle-Assigns shard flat a b c path exists decoded unassigned found keyed has_key listed among
        available named =
      let for_ring : controller_ring_for_request env req ≡ ok ring =
        rw path (rw (controller_ring-webhook_path ring.name flat a b c) (rw exists refl)) in
      let (ops, answered, _) =
        handle-assignment_patch for_ring decoded unassigned found keyed has_key listed
          (placed_on shard among available named) in
      (ops, answered, handle-patched env req ops answered)
