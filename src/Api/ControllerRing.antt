-- ===== src/Api/ControllerRing.antt =====
-- pkg/apis/sharding/v1alpha1/types_controllerring.go
use kubernetes_controller_sh.Base.{String, Option, List, [], ◌∷◌}
use kubernetes_controller_sh.Base.Int.{ℤ}
use kubernetes_controller_sh.Api.Core.{
  GroupResource, label_controller_ring, label_shard, label_drain,
}

pub record Requirement : Type 0 where
  pub key : String
  pub operator : String
  pub values : List String

-- metav1.LabelSelector
pub record LabelSelector : Type 0 where
  pub match_labels : List (String × String)
  pub match_expressions : List Requirement

pub record RingResource : Type 0 where
  pub group_resource : GroupResource
  pub controlled_resources : List GroupResource

pub record ControllerRingSpec : Type 0 where
  pub resources : List RingResource
  pub namespace_selector : Option LabelSelector

abbrev pub controller_ring_ready : String
controller_ring_ready = "Ready"

-- metav1.Condition; `SetStatusCondition` keeps the transition time.
pub record Condition : Type 0 where
  pub type_name : String
  pub status : String
  pub observed_generation : ℤ
  pub reason : String
  pub message : String
  pub last_transition_time : ℤ

pub record ControllerRingStatus : Type 0 where
  pub observed_generation : ℤ
  pub shards : ℤ
  pub available_shards : ℤ
  pub conditions : List Condition

pub record ControllerRing : Type 0 where
  pub name : String
  pub generation : ℤ
  pub spec : ControllerRingSpec
  pub status : ControllerRingStatus

-- The set that `LeaseSelector` selects by.
unfoldable pub lease_selector : ControllerRing → List (String × String)
lease_selector ring = (label_controller_ring, ring.name) ∷ []

-- The methods `LabelShard` and `LabelDrain` of a ring.
unfoldable pub ring_label_shard : ControllerRing → String
ring_label_shard ring = label_shard ring.name

unfoldable pub ring_label_drain : ControllerRing → String
ring_label_drain ring = label_drain ring.name
