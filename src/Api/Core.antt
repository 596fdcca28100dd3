-- ===== src/Api/Core.antt =====
-- The Kubernetes objects that the program reads and writes: the fields that it uses, and the constants
-- of pkg/apis/sharding/v1alpha1/constants.go.
use kubernetes_controller_sh.Base.{String, ◌<>◌, Bool, Option, List}
use kubernetes_controller_sh.Base.Int.{ℤ}
use kubernetes_controller_sh.Base.Map.{Map}

abbrev pub namespace_system : String
namespace_system = "sharding-system"

abbrev pub app_controller_sharding : String
app_controller_sharding = "controller-sharding"

abbrev pub alpha_prefix : String
alpha_prefix = "alpha.sharding.timebertt.dev/"

abbrev pub label_controller_ring : String
label_controller_ring = alpha_prefix <> "controllerring"

abbrev pub label_state : String
label_state = alpha_prefix <> "state"

abbrev pub label_shard_prefix : String
label_shard_prefix = "shard." <> alpha_prefix

abbrev pub label_drain_prefix : String
label_drain_prefix = "drain." <> alpha_prefix

abbrev pub identity_shard_lease_controller : String
identity_shard_lease_controller = "shardlease-controller"

unfoldable pub label_shard : String → String
label_shard ring_name = label_shard_prefix <> ring_name

unfoldable pub label_drain : String → String
label_drain ring_name = label_drain_prefix <> ring_name

-- A nil map is `none`.
abbrev pub Labels : Type 0
Labels = Option (Map String String)

pub record OwnerReference : Type 0 where
  pub api_version : String
  pub kind : String
  pub name : String
  pub controller : Option Bool

pub record ObjectMeta : Type 0 where
  pub name : String
  pub namespace : String
  pub generate_name : String
  pub resource_version : String
  pub labels : Labels
  pub owner_references : List OwnerReference

pub record GroupVersionKind : Type 0 where
  pub group : String
  pub version : String
  pub kind : String

pub record GroupResource : Type 0 where
  pub group : String
  pub resource : String

-- metav1.PartialObjectMetadata.
pub record Object : Type 0 where
  pub gvk : GroupVersionKind
  pub meta : ObjectMeta

-- coordinationv1.LeaseSpec; times are in nanoseconds.
pub record LeaseSpec : Type 0 where
  pub holder_identity : Option String
  pub lease_duration_seconds : Option ℤ
  pub acquire_time : Option ℤ
  pub renew_time : Option ℤ
  pub lease_transitions : Option ℤ

pub record Lease : Type 0 where
  pub meta : ObjectMeta
  pub spec : LeaseSpec
