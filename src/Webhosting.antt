-- ===== src/Webhosting.antt =====
-- webhosting-operator/pkg/apis/webhosting/v1alpha1, webhosting-operator/pkg/utils/kubernetes.go, and the
-- helpers of webhosting-operator/pkg/controllers/webhosting/website_controller.go.
pub mod Objects
pub mod Merged
pub mod Reconcile
use Prim.Native.String.{slice}
use kubernetes_controller_sh.Base.{
  String, ◌<>◌, ◌==◌, Bool, true, false, not, ◌||◌, Option, none, some, List, [], ◌∷◌,
  if◌then◌else◌,
}
use kubernetes_controller_sh.Base.Int.{ℤ, ltb_ℤ}
use kubernetes_controller_sh.Base.Map.{Map, string_key, insert}
use kubernetes_controller_sh.Api.Core.{Labels, OwnerReference}
use kubernetes_controller_sh.Api.Labels.{find_label}

abbrev pub webhosting_operator_name : String
webhosting_operator_name = "webhosting-operator"

abbrev pub label_key_skip_workload : String
label_key_skip_workload = "skip-workload"

abbrev pub phase_pending : String
phase_pending = "Pending"

abbrev pub phase_ready : String
phase_ready = "Ready"

abbrev pub phase_error : String
phase_error = "Error"

abbrev pub phase_terminating : String
phase_terminating = "Terminating"

-- Times are in nanoseconds.
pub record WebsiteStatus : Type 0 where
  pub observed_generation : ℤ
  pub phase : String
  pub last_transition_time : Option ℤ

pub record Website : Type 0 where
  pub name : String
  pub namespace : String
  pub uid : String
  pub labels : Labels
  pub generation : ℤ
  pub deletion_timestamp : Option ℤ
  pub theme : String
  pub status : WebsiteStatus

pub record Theme : Type 0 where
  pub name : String
  pub color : String
  pub font_family : String

pub record DeploymentCondition : Type 0 where
  pub type_name : String
  pub status : String
  pub reason : String

-- `GetDeploymentCondition`
unfoldable pub get_deployment_condition :
    List DeploymentCondition → String → Option DeploymentCondition
get_deployment_condition [] type_name = none
get_deployment_condition (c ∷ cs) type_name =
    let rest = get_deployment_condition cs type_name in
    if c.type_name == type_name then some c else rest

unfoldable pub is_available : Option DeploymentCondition → Bool
is_available none = false
is_available (some c) = c.status == "True"

unfoldable pub is_rolled_out : Option DeploymentCondition → Bool
is_rolled_out none = false
is_rolled_out (some c) =
    if not (c.status == "True") || not (c.reason == "NewReplicaSetAvailable") then false else true

unfoldable pub is_deployment_ready : ℤ → ℤ → List DeploymentCondition → Bool
unfolding is_available is_rolled_out
is_deployment_ready generation observed conditions =
    if ltb_ℤ observed generation
    then false
    else (if is_available (get_deployment_condition conditions "Available")
        then is_rolled_out (get_deployment_condition conditions "Progressing")
        else false)

-- `getLabelsForServer`
unfoldable pub get_labels_for_server : String → String → Map String String
get_labels_for_server server_name name =
    ("app", "website")
    ∷ ("website", name)
    ∷ ("server", server_name)
    ∷ ("managed-by", webhosting_operator_name)
    ∷ []

-- `maps.Copy`: the loop over the entries, whose keys differ, overwrites what is there.
unfoldable pub copy : Map String String → Map String String → Map String String
unfolding insert
copy out [] = out
copy out ((k, v) ∷ m) = insert k v (copy out m)

abbrev pub entries : Labels → Map String String
entries none = []
entries (some m) = m

-- `mergeMaps`, of the labels of a website and those of its server.
unfoldable pub merge_maps : Labels → Map String String → Map String String
unfolding copy
merge_maps labels m = copy (copy [] (entries labels)) m

-- `calculateServerName`, with the sha256 sum of a text in hexadecimal digits.
unfoldable pub calculate_server_name : (String → String) → Website → String
calculate_server_name sha256_hex website = website.name <> "-" <> slice (sha256_hex website.uid) 0 6

unfoldable pub is_some : {A : Type 0} → Option A → Bool
is_some none = false
is_some (some a) = true

unfoldable pub skip_workload : Website → Bool
unfolding find_label is_some
skip_workload website = is_some (find_label website.labels label_key_skip_workload)
