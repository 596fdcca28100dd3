-- ===== src/Sharding/Key.antt =====
-- pkg/sharding/key/key.go: hash keys of objects and of their controllers.
pub mod Agreement
pub mod Injective
use kubernetes_controller_sh.Base.{
  String, ◌<>◌, ◌==◌, Bool, true, false, Option, none, some, List, [], ◌∷◌, ◌++◌, map, ◌||◌, ◌&&◌,
  not, if◌then◌else◌,
}
use kubernetes_controller_sh.Base.Result.{Result, ok, err, ◌>>=◌, wrap_err}
use kubernetes_controller_sh.Api.Core.{
  Object, ObjectMeta, OwnerReference, GroupVersionKind, GroupResource,
}
use kubernetes_controller_sh.Api.ControllerRing.{ControllerRing, RingResource}

pub data KeyError : Type 0 where
  empty_gvk generate_name_unsupported empty_name : KeyError
  ref_without_api_version ref_without_kind ref_without_name invalid_api_version : KeyError
  resource_not_found : GroupResource → KeyError

-- `metav1.GetControllerOf` and `schema.ParseGroupVersion` of k8s.io/apimachinery; the parsed group and
-- version, or `none` for an error.
pub record Apimachinery : Type 0 where
  pub get_controller_of : Object → Option OwnerReference
  pub parse_group_version : String → Option (String × String)

-- The functions of type `Func` that `FuncForResource` chooses from.
pub data Func : Type 0 where
  object_func controller_func : Func

unfoldable pub same_resource : GroupResource → GroupResource → Bool
same_resource a b = a.group == b.group && a.resource == b.resource

unfoldable pub has_resource : List GroupResource → GroupResource → Bool
unfolding same_resource
has_resource [] gr = false
has_resource (x ∷ xs) gr = same_resource x gr || has_resource xs gr

-- The two sets that the loop collects.
unfoldable pub ring_resources : List RingResource → List GroupResource
ring_resources resources = map (λ r. r.group_resource) resources

unfoldable pub controlled_resources : List RingResource → List GroupResource
controlled_resources [] = []
controlled_resources (r ∷ rs) = r.controlled_resources ++ controlled_resources rs

unfoldable pub func_for_resource : GroupResource → ControllerRing → Result KeyError Func
func_for_resource gr ring =
    if has_resource (ring_resources ring.spec.resources) gr
    then ok object_func
    else if has_resource (controlled_resources ring.spec.resources) gr
    then ok controller_func
    else err (resource_not_found gr)

unfoldable pub for_metadata : String → String → String → String → String
for_metadata group kind namespace name = group <> "/" <> kind <> "/" <> namespace <> "/" <> name

is_empty_gvk : GroupVersionKind → Bool
is_empty_gvk gvk = gvk.group == "" && (gvk.version == "" && gvk.kind == "")

unfoldable pub for_object : Object → Result KeyError String
unfolding is_empty_gvk
for_object obj =
    if is_empty_gvk obj.gvk
    then err empty_gvk
    else if obj.meta.name == ""
    then (if not (obj.meta.generate_name == "")
        then err generate_name_unsupported
        else err empty_name)
    else ok (for_metadata obj.gvk.group obj.gvk.kind obj.meta.namespace obj.meta.name)

for_reference : Option (String × String) → OwnerReference → String → Result KeyError String
for_reference none ref namespace = err invalid_api_version
for_reference (some (group, version)) ref namespace =
    ok (for_metadata group ref.kind namespace ref.name)

for_controller_ref : Apimachinery → Option OwnerReference → String → Result KeyError String
unfolding for_reference
for_controller_ref lib none namespace = ok ""
for_controller_ref lib (some ref) namespace =
    if ref.api_version == ""
    then err ref_without_api_version
    else if ref.kind == ""
    then err ref_without_kind
    else if ref.name == ""
    then err ref_without_name
    else for_reference (lib.parse_group_version ref.api_version) ref namespace

-- An object that no other controls has the empty key.
unfoldable pub for_controller : Apimachinery → Object → Result KeyError String
unfolding for_controller_ref
for_controller lib obj = for_controller_ref lib (lib.get_controller_of obj) obj.meta.namespace

-- Calling the chosen function.
unfoldable pub apply : Apimachinery → Func → Object → Result KeyError String
apply lib object_func obj = for_object obj
apply lib controller_func obj = for_controller lib obj
