-- ===== src/Webhook/Handler.antt =====
-- The admission handler (pkg/webhook/sharder/handler.go).
pub mod Applied
pub mod Assigns
use kubernetes_controller_sh.Base.{
  String, ◌<>◌, ◌==◌, ◌≡◌, Bool, true, false, not, Option, none, some, List, [], ◌∷◌, ◌++◌,
  if◌then◌else◌,
}
use kubernetes_controller_sh.Base.Int.{ℤ}
use kubernetes_controller_sh.Base.Map.{or_empty}
use kubernetes_controller_sh.Base.Result.{Result, ok, err, ◌>>=◌, ◌>>◌, wrap_err}
use kubernetes_controller_sh.Api.Core.{Object, Lease, Labels, GroupResource}
use kubernetes_controller_sh.Api.Labels.{get_label}
use kubernetes_controller_sh.Api.Client.{ApiError}
use kubernetes_controller_sh.Api.ControllerRing.{ControllerRing, ring_label_shard, lease_selector}
use kubernetes_controller_sh.Consistenthash.{Hash, hash_key}
use kubernetes_controller_sh.Sharding.Ring.{from_leases}
use kubernetes_controller_sh.Sharding.Key.{Apimachinery, KeyError, Func, func_for_resource, apply}
use kubernetes_controller_sh.Webhook.Path.{PathError, controller_ring_for_webhook_path}
use kubernetes_controller_sh.Webhook.Escape.{escape}

-- What the handler is given: the reader of the cache, the clock, the default hash, and the decoder.
pub record Env : Type 0 where
  pub get_ring : String → Result ApiError ControllerRing
  pub list_leases : List (String × String) → Result ApiError (List Lease)
  pub now : ℤ
  pub default_hash : Hash
  pub apimachinery : Apimachinery
  pub unmarshal : String → Result String Object

-- admission.Request, with the request path that the context carries.
pub record Request : Type 0 where
  pub path : Option String
  pub raw : String
  pub resource : GroupResource
  pub dry_run : Option Bool

pub data RingError : Type 0 where
  no_request_path : RingError
  bad_path : PathError → RingError
  getting_ring : ApiError → RingError

pub data HandlerError : Type 0 where
  determining_ring : RingError → HandlerError
  decoding_object : String → HandlerError
  determining_key_func : KeyError → HandlerError
  calculating_key : KeyError → HandlerError
  listing_leases : ApiError → HandlerError

pub data Status : Type 0 where
  internal_server_error bad_request : Status

pub data Reason : Type 0 where
  already_assigned should_not_be_assigned no_available_shard : Reason

-- The early returns of `Handle`.
pub data Early : Type 0 where
  errored : Status → HandlerError → Early
  allowed : Reason → Early

-- jsonpatch "add" operations.
pub data PatchOperation : Type 0 where
  add_empty_map : String → PatchOperation
  add_value : String → String → PatchOperation

pub data Response : Type 0 where
  early : Early → Response
  patched : List PatchOperation → Response

-- `ObserveAssignment(controllerRingName, gr)`
pub record Assignment : Type 0 where
  pub ring_name : String
  pub resource : GroupResource

unfoldable pub request_path : Option String → Result RingError String
request_path none = err no_request_path
request_path (some path) = ok path

unfoldable pub controller_ring_for_request : Env → Request → Result RingError ControllerRing
unfolding request_path
controller_ring_for_request env req = do
  path ← request_path req.path
  name ← wrap_err bad_path (controller_ring_for_webhook_path path)
  wrap_err getting_ring (env.get_ring name)

labels_patch : Labels → List PatchOperation
labels_patch none = add_empty_map "/metadata/labels" ∷ []
labels_patch (some m) = []

-- The patch that assigns the object to the shard.
unfoldable pub assignment_patch : Labels → String → String → List PatchOperation
unfolding labels_patch
assignment_patch labels label_shard shard =
    labels_patch labels ++ add_value ("/metadata/labels/" <> escape label_shard) shard ∷ []

-- `if cond { return admission.Allowed(reason) }`
unfoldable pub allow_if : Bool → Reason → Result Early (Unit {0})
allow_if true reason = err (allowed reason)
allow_if false reason = ok tt

unfoldable pub fail : {E A : Type 0} → Status → (E → HandlerError) → Result E A → Result Early A
fail status wrap r = wrap_err (λ e. errored status (wrap e)) r

-- `!ptr.Deref(req.DryRun, false)`
is_real : Option Bool → Bool
is_real none = true
is_real (some dry_run) = not dry_run

-- Up to the shard and the patch; the assignments are those that are counted.
unfoldable pub assign : Env → Request → Result Early (List PatchOperation × List Assignment)
unfolding is_real
assign env req = do
  ring ← fail internal_server_error determining_ring (controller_ring_for_request env req)
  obj ← fail internal_server_error decoding_object (env.unmarshal req.raw)
  allow_if (not (get_label obj.meta.labels (ring_label_shard ring) == "")) already_assigned
  key_func ← fail bad_request determining_key_func (func_for_resource req.resource ring)
  key ← fail bad_request calculating_key (apply env.apimachinery key_func obj)
  allow_if (key == "") should_not_be_assigned
  leases ← fail internal_server_error listing_leases (env.list_leases (lease_selector ring))
  allow_if (hash_key (from_leases env.default_hash leases env.now).0 key == "") no_available_shard
  ok (
    assignment_patch obj.meta.labels (ring_label_shard ring)
        (hash_key (from_leases env.default_hash leases env.now).0 key),
    (if is_real req.dry_run
        then record { ring_name = ring.name; resource = req.resource } ∷ []
        else []),
  )

respond : Result Early (List PatchOperation × List Assignment) → Response × List Assignment
respond (err e) = (early e, [])
respond (ok (patches, assignments)) = (patched patches, assignments)

unfoldable pub handle : Env → Request → Response × List Assignment
unfolding respond
handle env req = respond (assign env req)
