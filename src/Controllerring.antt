-- ===== src/Controllerring.antt =====
-- pkg/controller/controllerring/reconciler.go: the webhook configuration and the status of a ring.
pub mod Config
pub mod Status
use kubernetes_controller_sh.Base.{
  ℕ, ◌+◌, ◌%◌, ◌^◌, String, Bool, true, false, Option, none, some, List, [], ◌∷◌, ◌++◌, length,
  if◌then◌else◌, ltb,
}
use kubernetes_controller_sh.Base.Int.{ℤ, pos, ◌-ℤ◌}
use kubernetes_controller_sh.Base.Result.{Result, ok, err, ◌>>=◌, wrap_err}
use kubernetes_controller_sh.Api.Core.{Lease}
use kubernetes_controller_sh.Api.Client.{ApiError, is_not_found}
use kubernetes_controller_sh.Api.ControllerRing.{
  ControllerRing, ControllerRingStatus, Condition, controller_ring_ready, lease_selector,
}
use kubernetes_controller_sh.Leases.{to_shards, available_shards}
use Config.{WebhookConfig, MutatingWebhookConfiguration, webhook_config_for_controller_ring}

pub data ReconcileError : Type 0 where
  retrieving_object reconciling_webhooks listing_leases updating_status : ApiError → ReconcileError

-- The client and its scheme, the clock, and what the library does to a list of conditions.
pub record Env : Type 0 where
  pub get : String → Result ApiError ControllerRing
  pub set_controller_reference :
      ControllerRing → MutatingWebhookConfiguration → Result ApiError MutatingWebhookConfiguration
  pub apply : MutatingWebhookConfiguration → Option ApiError
  pub list_leases : List (String × String) → Result ApiError (List Lease)
  pub update_status : ControllerRing → Option ApiError
  pub set_status_condition : List Condition → Condition → List Condition
  pub semantic_equal : ControllerRingStatus → ControllerRingStatus → Bool
  pub message : ReconcileError → String
  pub now : ℤ

-- The writes of the reconciler: a warning, an applied configuration, an updated status.
pub data Call : Type 0 where
  event : String → Call
  apply_call : MutatingWebhookConfiguration → Call
  update_status_call : ControllerRing → Call

abbrev pub Reply : Type 0
Reply = Option ReconcileError × List Call

-- `int32(n)`
unfoldable pub int32_of : ℕ → ℤ
int32_of n = let m = n % 2 ^ 32 in if ltb m (2 ^ 31) then pos m else pos m -ℤ pos (2 ^ 32)

-- The condition that is set, with its generation; the library fills in the time.
unfoldable pub ready_condition : ControllerRing → String → String → String → Condition
ready_condition ring status reason message = record {
  type_name = controller_ring_ready;
  status = status;
  observed_generation = ring.generation;
  reason = reason;
  message = message;
  last_transition_time = pos 0;
}

-- The ring with its new status.
unfoldable pub with_condition : Env → ControllerRing → Condition → ControllerRing
with_condition env ring condition = record ring {
  status = record ring.status {
    observed_generation = ring.generation;
    conditions = env.set_status_condition ring.status.conditions condition;
  };
}

-- `OptionallyUpdateStatus`
unfoldable pub optionally_update_status :
    Env → ControllerRing → ControllerRing → Condition → Option ApiError × List Call
optionally_update_status env ring before condition =
    let after = with_condition env ring condition in
    if env.semantic_equal after.status before.status
    then (none, [])
    else (env.update_status after, update_status_call after ∷ [])

failed_update : Option ApiError → Option ReconcileError
failed_update none = none
failed_update (some e) = some (updating_status e)

unfoldable pub update_status_success : Env → ControllerRing → ControllerRing → Reply
unfolding failed_update
update_status_success env ring before =
    let (failure, calls) = optionally_update_status env ring before (
      ready_condition ring "True" "ReconciliationSucceeded"
        "ControllerRing was successfully reconciled") in
    (failed_update failure, calls)

unfoldable pub update_status_error : Env → ReconcileError → ControllerRing → ControllerRing → Reply
update_status_error env e ring before =
    let message = env.message e in
    (
      some e,
      event message
          ∷ (optionally_update_status env ring before
              (ready_condition ring "False" "ReconciliationFailed" message)).1,
    )

-- The counts of the shards go into the status.
unfoldable pub with_counts : ControllerRing → List Lease → ℤ → ControllerRing
with_counts ring leases now =
    let shards = to_shards leases now in
    record ring {
      status = record ring.status {
        shards = int32_of (length shards);
        available_shards = int32_of (length (available_shards shards));
      };
    }

unfoldable pub with_leases : Env → ControllerRing → Result ApiError (List Lease) → Reply
with_leases env ring (err e) = update_status_error env (listing_leases e) ring ring
with_leases env ring (ok leases) = update_status_success env (with_counts ring leases env.now) ring

unfoldable pub after_apply :
    Env → ControllerRing → MutatingWebhookConfiguration → Option ApiError → Reply
after_apply env ring config none =
    let reply = with_leases env ring (env.list_leases (lease_selector ring)) in
    (reply.0, apply_call config ∷ reply.1)
after_apply env ring config (some e) =
    let reply = update_status_error env (reconciling_webhooks e) ring ring in
    (reply.0, apply_call config ∷ reply.1)

unfoldable pub with_config :
    Env → ControllerRing → Result ApiError MutatingWebhookConfiguration → Reply
with_config env ring (err e) = update_status_error env (reconciling_webhooks e) ring ring
with_config env ring (ok config) = after_apply env ring config (env.apply config)

unfoldable pub with_ring : Env → WebhookConfig → Result ApiError ControllerRing → Reply
with_ring env config (err e) = (if is_not_found e then none else some (retrieving_object e), [])
with_ring env config (ok ring) =
    with_config env ring
      (env.set_controller_reference ring (webhook_config_for_controller_ring ring config))

unfoldable pub reconcile : Env → WebhookConfig → String → Reply
reconcile env config name = with_ring env config (env.get name)
