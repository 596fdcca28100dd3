-- ===== src/Sharder/Reconcile.antt =====
-- `Reconcile` of the sharder controller.
use kubernetes_controller_sh.Base.{ℕ, String, Option, none, some, List, [], ◌∷◌, if◌then◌else◌}
use kubernetes_controller_sh.Base.Int.{ℤ}
use kubernetes_controller_sh.Base.Result.{Result, ok, err, ◌>>=◌, wrap_err}
use kubernetes_controller_sh.Api.Core.{Lease}
use kubernetes_controller_sh.Api.Client.{ApiError, is_not_found}
use kubernetes_controller_sh.Api.ControllerRing.{ControllerRing, LabelSelector, lease_selector}
use kubernetes_controller_sh.Consistenthash.{Hash}
use kubernetes_controller_sh.Sharding.Ring.{from_leases}
use kubernetes_controller_sh.Sharder.Operation.{
  Client, Operation, OperationError, Patch, resync_controller_ring,
}

pub record Config : Type 0 where
  pub namespace_selector : Option LabelSelector
  pub sync_period : ℤ

-- The reconciler, its cache and its clock; a label selector is converted or refused by apimachinery.
pub record Reconciler (Selector : Type 0) : Type 0 where
  pub client : Client
  pub get_ring : String → Result ApiError ControllerRing
  pub list_leases : List (String × String) → Result ApiError (List Lease)
  pub label_selector_as_selector : Option LabelSelector → Result String Selector
  pub list_namespaces : Selector → Result ApiError (List String)
  pub now : ℤ
  pub default_hash : Hash
  pub config : Config

pub data ReconcileError : Type 0 where
  retrieving_object listing_leases listing_namespaces : ApiError → ReconcileError
  terminal : String → ReconcileError
  resyncing : List OperationError → ReconcileError

-- reconcile.Result
pub data Outcome : Type 0 where
  done : Outcome
  requeue_after : ℤ → Outcome

selected : Config → ControllerRing → Option LabelSelector
selected config ring = elim ring.spec.namespace_selector [
  | none ↦ config.namespace_selector
  | some s ↦ some s
]

module _ {Selector : Type 0} where
  unfoldable pub get_selected_namespaces :
      Reconciler Selector → ControllerRing → Result ReconcileError (List String)
  unfolding selected
  get_selected_namespaces r ring = do
    selector ← wrap_err terminal (r.label_selector_as_selector (selected r.config ring))
    wrap_err listing_namespaces (r.list_namespaces selector)

  unfoldable pub new_operation :
      Reconciler Selector → ControllerRing → Result ReconcileError Operation
  new_operation r ring = do
    leases ← wrap_err listing_leases (r.list_leases (lease_selector ring))
    namespaces ← get_selected_namespaces r ring
    ok (record {
      controller_ring = ring;
      namespaces = namespaces;
      hash_ring = (from_leases r.default_hash leases r.now).0;
      shards = (from_leases r.default_hash leases r.now).1;
    })

  finish :
      Reconciler Selector
      → List Patch × List OperationError
      → Result ReconcileError Outcome × List Patch
  finish r (patches, []) = (ok (requeue_after r.config.sync_period), patches)
  finish r (patches, e ∷ es) = (err (resyncing (e ∷ es)), patches)

  with_operation :
      ℕ
      → Reconciler Selector
      → Result ReconcileError Operation
      → Result ReconcileError Outcome × List Patch
  unfolding finish
  with_operation fuel r (err e) = (err e, [])
  with_operation fuel r (ok o) = finish r (resync_controller_ring fuel r.client o)

  with_ring :
      ℕ
      → Reconciler Selector
      → Result ApiError ControllerRing
      → Result ReconcileError Outcome × List Patch
  unfolding with_operation
  with_ring fuel r (err e) = (if is_not_found e then ok done else err (retrieving_object e), [])
  with_ring fuel r (ok ring) = with_operation fuel r (new_operation r ring)

  -- The outcome and the patches that were sent.
  unfoldable pub reconcile :
      ℕ → Reconciler Selector → String → Result ReconcileError Outcome × List Patch
  unfolding with_ring
  reconcile fuel r name = with_ring fuel r (r.get_ring name)
