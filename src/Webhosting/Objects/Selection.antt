-- ===== src/Webhosting/Objects/Selection.antt =====
-- webhosting-operator/pkg/controllers/webhosting/website_controller.go: the objects refer to each other.
use kubernetes_controller_sh.Base.{
  String, ◌≡◌, refl, sym, ap, ◌∙◌, ◌⊎◌, inl, inr, Option, some, List, [], ◌∷◌, map, In,
}
use kubernetes_controller_sh.Base.Int.{ℤ, pos}
use kubernetes_controller_sh.Base.Map.{Map, string_key, lookup}
use kubernetes_controller_sh.Base.Result.{Result, ok, >>=-eq-ok}
use kubernetes_controller_sh.Api.Client.{ApiError}
use kubernetes_controller_sh.Webhosting.{Website, get_labels_for_server}
use kubernetes_controller_sh.Webhosting.Objects.{
  rules_for_hosts, rule_value, port_name_http, configuration, apply_ingress_config_to_ingress,
  ServicePort, Container, VolumeMount, Volume, set_container, only_container, volumes_of, SetOwner,
  ConfigMap, Service, Ingress, IngressRule, Deployment, IngressConfiguration, mutate_config_map,
  mutate_service, mutate_ingress, mutate_deployment,
}

ok-path : {A : Type 0} {a b : A} → ◌≡◌ {A = Result ApiError A} (ok a) (ok b) → a ≡ b
ok-path h = cc

-- The objects of one website, as they refer to each other.
pub record Fits (config_map : ConfigMap) (service : Service) (ingress : Ingress)
    (deployment : Deployment) : Type 0 where
  -- The service and the deployment select the pods of the deployment.
  pub selects :
      (service.selector ≡ deployment.template_labels)
      × (deployment.selector ≡ deployment.template_labels)
  -- Every rule leads to a port of the service.
  pub routes :
      (rule : IngressRule)
      → In rule ingress.rules
      → (rule.value.service_name ≡ service.name)
        × ((port : ServicePort) × In port service.ports × (port.name ≡ rule.value.port_name))
  -- Every port of the service leads to a port of a container.
  pub targets :
      (port : ServicePort)
      → In port service.ports
      → (container : Container) × In container deployment.containers
        × ((exposed : String × ℤ × String) × In exposed container.ports
            × (exposed.0 ≡ port.target_port))
  -- Every mount of a container is of a volume.
  pub mounts :
      (container : Container) (mount : VolumeMount)
      → In container deployment.containers
      → In mount container.volume_mounts
      → (volume : Volume) × In volume deployment.volumes × (volume.name ≡ mount.name)
  -- Every volume shows keys that the config map has.
  pub shows :
      (volume : Volume) (item : String × String)
      → In volume deployment.volumes
      → In item volume.items
      → (volume.config_map ≡ config_map.name)
        × ((content : Map String String) × (text : String) × (config_map.content ≡ some content)
            × (lookup item.0 content ≡ some text))

RulesLead : String → List IngressRule → Type 0
RulesLead server_name rules =
    (rule : IngressRule)
    → In rule rules
    → (rule.value.service_name ≡ server_name) × (rule.value.port_name ≡ port_name_http)

rules_for_hosts-lead :
    (server_name : String) (website : Website) (hosts : List String)
    → RulesLead server_name
        (map (λ host. record { host = host; value = rule_value server_name website }) hosts)
unfolding RulesLead rule_value
rules_for_hosts-lead server_name website [] rule m = elim m [ ]
rules_for_hosts-lead server_name website (h ∷ hs) rule (inl e) = rw e (refl, refl)
rules_for_hosts-lead server_name website (h ∷ hs) rule (inr m) =
    rules_for_hosts-lead server_name website hs rule m

applied-lead :
    (server_name : String) (website : Website) (hosts : List String)
    → RulesLead server_name (
        rules_for_hosts
          (rule_value server_name website)
          hosts
          (record { host = ""; value = rule_value server_name website } ∷ []))
unfolding rules_for_hosts
applied-lead server_name website [] = rules_for_hosts-lead server_name website ("" ∷ [])
applied-lead server_name website (h ∷ hs) = rules_for_hosts-lead server_name website (h ∷ hs)

only : {A : Type 0} {x y : A} → In x (y ∷ []) → x ≡ y
only (inl e) = e
only (inr m) = elim m [ ]

one_of : {A : Type 0} {x y z : A} → In x (y ∷ z ∷ []) → (x ≡ y) ⊎ (x ≡ z)
one_of (inl e) = inl e
one_of (inr m) = inr (only m)

In-path : {A : Type 0} (x : A) {xs ys : List A} → xs ≡ ys → In x xs → In x ys
In-path x e m = rw (sym e) m

only_at : {A : Type 0} {x y : A} {xs : List A} → xs ≡ (y ∷ []) → In x xs → x ≡ y
only_at e m = only (In-path _ e m)

first : {A : Type 0} {y : A} {xs : List A} → xs ≡ (y ∷ []) → In y xs
first e = rw e (inl refl)

mounted :
    (mode : ℤ) (config_map : String) (c : Container) (mount : VolumeMount)
    → In mount (set_container c).volume_mounts
    → (volume : Volume) × In volume (volumes_of mode config_map) × (volume.name ≡ mount.name)
unfolding set_container volumes_of
mounted mode config_map c mount m = elim (one_of m) [
  | inl e ↦ (_, inl refl, sym (ap (λ k. k.name) e))
  | inr e ↦ (_, inr (inl refl), sym (ap (λ k. k.name) e))
]

pages : String → String → Map String String
pages index_html nginx_conf = ("index.html", index_html) ∷ ("nginx.conf", nginx_conf) ∷ []

shown :
    (mode : ℤ) (config_map index_html nginx_conf : String) (volume : Volume)
    (item : String × String)
    → In volume (volumes_of mode config_map)
    → In item volume.items
    → (volume.config_map ≡ config_map)
      × ((text : String) × (lookup item.0 (pages index_html nginx_conf) ≡ some text))
unfolding volumes_of pages lookup
shown mode config_map index_html nginx_conf volume item m i = elim (one_of m) [
  | inl e ↦
      let at_key = only_at (ap (λ k. k.items) e) i in
      (ap (λ k. k.config_map) e, (index_html, rw (ap (λ k. k.0) at_key) refl))
  | inr e ↦
      let at_key = only_at (ap (λ k. k.items) e) i in
      (ap (λ k. k.config_map) e, (nginx_conf, rw (ap (λ k. k.0) at_key) refl))
]

module _ (set_owner : SetOwner) (server_name : String) (website : Website) where
  rules-lead :
      (config : Option IngressConfiguration) (old ingress : Ingress)
      → mutate_ingress set_owner server_name website config old ≡ ok ingress
      → RulesLead server_name ingress.rules
  unfolding mutate_ingress apply_ingress_config_to_ingress
  rules-lead config old ingress h =
      let (owners, _, d) = >>=-eq-ok (set_owner website old.owner_references) _ h in
      rw (sym (ap (λ k. k.rules) (ok-path d)))
        (applied-lead server_name website (configuration config).hosts)

  service-facts :
      (old service : Service)
      → mutate_service set_owner server_name website old ≡ ok service
      → (service.name ≡ old.name)
        × (service.selector ≡ some (get_labels_for_server server_name website.name))
        × (service.ports
            ≡ record { name = "http"; port = pos 8080; target_port = "http"; protocol = "TCP" }
              ∷ [])
  unfolding mutate_service
  service-facts old service h =
      let (owners, _, d) = >>=-eq-ok (set_owner website old.owner_references) _ h in
      let p = sym (ok-path d) in (ap (λ k. k.name) p, ap (λ k. k.selector) p, ap (λ k. k.ports) p)

  config_map-facts :
      (index_html nginx_conf : String) (old config_map : ConfigMap)
      → mutate_config_map set_owner server_name website index_html nginx_conf old ≡ ok config_map
      → config_map.content ≡ some (pages index_html nginx_conf)
  unfolding mutate_config_map pages
  config_map-facts index_html nginx_conf old config_map h =
      let (owners, _, d) = >>=-eq-ok (set_owner website old.owner_references) _ h in
      sym (ap (λ k. k.content) (ok-path d))

  deployment-facts :
      (mode : ℤ) (checksum config_map : String) (old deployment : Deployment)
      → mutate_deployment set_owner server_name website mode checksum config_map old ≡ ok deployment
      → (deployment.selector ≡ some (get_labels_for_server server_name website.name))
        × (deployment.template_labels ≡ some (get_labels_for_server server_name website.name))
        × (deployment.containers ≡ set_container (only_container old.containers) ∷ [])
        × (deployment.volumes ≡ volumes_of mode config_map)
  unfolding mutate_deployment
  deployment-facts mode checksum config_map old deployment h =
      let (owners, _, d) = >>=-eq-ok (set_owner website old.owner_references) _ h in
      let p = sym (ok-path d) in
      (
        ap (λ k. k.selector) p,
        ap (λ k. k.template_labels) p,
        ap (λ k. k.containers) p,
        ap (λ k. k.volumes) p,
      )

  -- The four objects that are made for one website refer to each other: service and deployment
  -- select the pods of the deployment, every rule of the ingress leads to a port of the service,
  -- every port of the service to a port of the container, every mount to a volume, and every volume
  -- to keys that the config map has. (The service has the name of the server.)
  pub mutate-Fits :
      (index_html nginx_conf checksum : String) (config : Option IngressConfiguration) (mode : ℤ)
      (old_map config_map : ConfigMap) (old_service service : Service)
      (old_ingress ingress : Ingress) (old_deployment deployment : Deployment)
      → old_service.name ≡ server_name
      → mutate_config_map set_owner server_name website index_html nginx_conf old_map
        ≡ ok config_map
      → mutate_service set_owner server_name website old_service ≡ ok service
      → mutate_ingress set_owner server_name website config old_ingress ≡ ok ingress
      → mutate_deployment set_owner server_name website mode checksum config_map.name old_deployment
        ≡ ok deployment
      → Fits config_map service ingress deployment
  unfolding set_container volumes_of RulesLead lookup
  mutate-Fits index_html nginx_conf checksum config mode old_map config_map old_service service
        old_ingress ingress old_deployment deployment named mapped served exposed deployed =
      let (name, selector, ports) = service-facts old_service service served in
      let content = config_map-facts index_html nginx_conf old_map config_map mapped in
      let (own, template, containers, volumes) =
        deployment-facts mode checksum config_map.name old_deployment deployment deployed in
      let lead = rules-lead config old_ingress ingress exposed in
      record {
        selects = (selector ∙ sym template, own ∙ sym template);
        routes = λ rule m.
            let (to, port) = lead rule m in (to ∙ sym named ∙ sym name, (_, first ports, sym port));
        targets = λ port m.
            let found = only_at ports m in
            (
              _,
              first containers,
              (("http", pos 80, "TCP"), inl refl, sym (ap (λ k. k.target_port) found)),
            );
        mounts = λ container mount c m. rw volumes (
            mounted mode config_map.name (only_container old_deployment.containers) mount
              (In-path mount (ap (λ k. k.volume_mounts) (only_at containers c)) m));
        shows = λ volume item v i.
            let (same, (text, found)) =
              shown mode config_map.name index_html nginx_conf volume item
                (In-path volume volumes v) i in
            (same, (pages index_html nginx_conf, text, content, found));
      }
