-- ===== src/Sharding/Key/Agreement.antt =====
-- When an object and its controller have the same key.
use kubernetes_controller_sh.Base.{
  String, ◌==◌, eq_iff, ◌≡◌, ◌≢◌, false, some, Bool-cases, inl, inr,
}
use kubernetes_controller_sh.Api.Core.{Object, OwnerReference}
use kubernetes_controller_sh.Sharding.Key.{Apimachinery}

-- `ref` is a complete reference to the object `owner`, as Kubernetes has them: its API version is
-- parsed into the owner's group, and its kind and name are the owner's.
pub record RefersTo (lib : Apimachinery) (ref : OwnerReference) (owner : Object) : Type 0 where
  pub parsed :
      (version : String) × (lib.parse_group_version ref.api_version
        ≡ some (owner.gvk.group, version))
  pub same_kind : ref.kind ≡ owner.gvk.kind
  pub same_name : ref.name ≡ owner.meta.name
  pub has_api_version : ref.api_version ≢ ""
  pub has_kind : owner.gvk.kind ≢ ""
  pub has_name : owner.meta.name ≢ ""

not_empty : (s : String) → s ≢ "" → (s == "") ≡ false
not_empty s h = elim (Bool-cases (s == "")) [ inl e ↦ absurd (h ((eq_iff s "").0 e)) | inr ne ↦ ne ]
