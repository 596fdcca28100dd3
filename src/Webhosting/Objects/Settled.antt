-- ===== src/Webhosting/Objects/Settled.antt =====
-- webhosting-operator/pkg/controllers/webhosting/website_controller.go: patching again what was patched.
use kubernetes_controller_sh.Base.{String, ◌≡◌, refl, sym, Bool, true, false, Option, List, arith}
use kubernetes_controller_sh.Base.Int.{ℤ}
use kubernetes_controller_sh.Base.Result.{Result, ok, ◌>>=◌, >>=-eq-ok}
use kubernetes_controller_sh.Api.Core.{OwnerReference}
use kubernetes_controller_sh.Api.Client.{ApiError}
use kubernetes_controller_sh.Webhosting.{Website, skip_workload}
use kubernetes_controller_sh.Webhosting.Objects.{
  SetOwner, IngressConfiguration, mutate_config_map, mutate_service, mutate_ingress,
  mutate_deployment, class_name, only_container, set_container, apply_ingress_config_to_ingress,
}

ok-path : {A : Type 0} {a b : A} → ◌≡◌ {A = Result ApiError A} (ok a) (ok b) → a ≡ b
ok-path h = cc

class_name-class_name :
    (b : Bool) (o : Option String) → class_name b (class_name b o) ≡ class_name b o
unfolding class_name
class_name-class_name true o = refl
class_name-class_name false o = ground arith

-- An owner reference that is there is not set again.
abbrev pub OwnsOnce : SetOwner → Website → Type 0
OwnsOnce set_owner website =
    (old owners : List OwnerReference)
    → set_owner website old ≡ ok owners
    → set_owner website owners ≡ ok owners

-- What a change makes of an object, it leaves as it is.
pub Settles : {A : Type 0} → (A → Result ApiError A) → Type 0
Settles {A} f = (old obj : A) → f old ≡ ok obj → f obj ≡ ok obj

module _ (set_owner : SetOwner) (server_name : String) (website : Website)
    (once : OwnsOnce set_owner website) where
  config_map-Settles :
      (index_html nginx_conf : String)
      → Settles (mutate_config_map set_owner server_name website index_html nginx_conf)
  unfolding Settles mutate_config_map ◌>>=◌
  config_map-Settles index_html nginx_conf old obj h =
      let (owners, e, d) = >>=-eq-ok (set_owner website old.owner_references) _ h in
      rw (sym (ok-path d)) (rw (once old.owner_references owners e) refl)

  service-Settles : Settles (mutate_service set_owner server_name website)
  unfolding Settles mutate_service ◌>>=◌
  service-Settles old obj h =
      let (owners, e, d) = >>=-eq-ok (set_owner website old.owner_references) _ h in
      rw (sym (ok-path d)) (rw (once old.owner_references owners e) refl)

  ingress-Settles :
      (config : Option IngressConfiguration)
      → Settles (mutate_ingress set_owner server_name website config)
  unfolding Settles mutate_ingress apply_ingress_config_to_ingress ◌>>=◌
  ingress-Settles config old obj h =
      let (owners, e, d) = >>=-eq-ok (set_owner website old.owner_references) _ h in
      rw (sym (ok-path d)) (
        rw (once old.owner_references owners e)
          (rw (class_name-class_name (skip_workload website) old.ingress_class_name) refl))

  deployment-Settles :
      (mode : ℤ) (checksum config_map : String)
      → Settles (mutate_deployment set_owner server_name website mode checksum config_map)
  unfolding Settles mutate_deployment only_container set_container ◌>>=◌
  deployment-Settles mode checksum config_map old obj h =
      let (owners, e, d) = >>=-eq-ok (set_owner website old.owner_references) _ h in
      rw (sym (ok-path d)) (rw (once old.owner_references owners e) refl)

  -- What the controller makes of an object it leaves as it is the next time, with the same input.
  -- (An owner reference that is there is not set again.)
  pub mutate-Settles :
      (index_html nginx_conf : String) (config : Option IngressConfiguration) (mode : ℤ)
      (checksum config_map : String)
      → Settles (mutate_config_map set_owner server_name website index_html nginx_conf)
        × Settles (mutate_service set_owner server_name website)
        × Settles (mutate_ingress set_owner server_name website config)
        × Settles (mutate_deployment set_owner server_name website mode checksum config_map)
  mutate-Settles index_html nginx_conf config mode checksum config_map = (
    config_map-Settles index_html nginx_conf,
    service-Settles,
    ingress-Settles config,
    deployment-Settles mode checksum config_map,
  )
