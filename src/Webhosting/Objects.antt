-- ===== src/Webhosting/Objects.antt =====
-- webhosting-operator/pkg/controllers/webhosting/website_controller.go: the objects of a website, with
-- the fields that the controller sets. Each is patched by a function of what the cluster has.
pub mod Selection
pub mod Settled
use kubernetes_controller_sh.Base.{
  String, ◌<>◌, ◌==◌, Bool, true, false, Option, none, some, List, [], ◌∷◌, map, if◌then◌else◌,
}
use kubernetes_controller_sh.Base.Int.{ℤ, pos}
use kubernetes_controller_sh.Base.Map.{Map, string_key, or_empty}
use kubernetes_controller_sh.Base.Result.{Result, ok, ◌>>=◌}
use kubernetes_controller_sh.Api.Core.{Labels, OwnerReference}
use kubernetes_controller_sh.Api.Labels.{set_label}
use kubernetes_controller_sh.Api.Client.{ApiError}
use kubernetes_controller_sh.Webhosting.{
  Website, DeploymentCondition, get_labels_for_server, merge_maps, skip_workload,
}

-- `controllerutil.SetControllerReference`, on the owners of an object.
abbrev pub SetOwner : Type 0
SetOwner = Website → List OwnerReference → Result ApiError (List OwnerReference)

pub record ConfigMap : Type 0 where
  pub name : String
  pub namespace : String
  pub labels : Labels
  pub owner_references : List OwnerReference
  pub content : Option (Map String String)

pub record ServicePort : Type 0 where
  pub name : String
  pub port : ℤ
  pub target_port : String
  pub protocol : String

pub record Service : Type 0 where
  pub name : String
  pub namespace : String
  pub labels : Labels
  pub owner_references : List OwnerReference
  pub service_type : String
  pub selector : Option (Map String String)
  pub ports : List ServicePort

pub record IngressRuleValue : Type 0 where
  pub path : String
  pub path_type : String
  pub service_name : String
  pub port_name : String

pub record IngressRule : Type 0 where
  pub host : String
  pub value : IngressRuleValue

pub record IngressTls : Type 0 where
  pub hosts : List String
  pub secret_name : String

pub record IngressConfiguration : Type 0 where
  pub annotations : Option (Map String String)
  pub hosts : List String
  pub tls : List IngressTls

pub record Ingress : Type 0 where
  pub name : String
  pub namespace : String
  pub labels : Labels
  pub annotations : Option (Map String String)
  pub owner_references : List OwnerReference
  pub rules : List IngressRule
  pub tls : List IngressTls
  pub ingress_class_name : Option String

pub record VolumeMount : Type 0 where
  pub name : String
  pub read_only : Bool
  pub mount_path : String

pub record Container : Type 0 where
  pub name : String
  pub image : String
  pub image_pull_policy : String
  pub ports : List (String × ℤ × String)
  pub volume_mounts : List VolumeMount

-- A volume from one key of a config map.
pub record Volume : Type 0 where
  pub name : String
  pub config_map : String
  pub items : List (String × String)
  pub default_mode : Option ℤ

pub record Deployment : Type 0 where
  pub name : String
  pub namespace : String
  pub labels : Labels
  pub generation : ℤ
  pub owner_references : List OwnerReference
  pub selector : Option (Map String String)
  pub revision_history_limit : Option ℤ
  pub template_labels : Labels
  pub template_annotations : Option (Map String String)
  pub containers : List Container
  pub volumes : List Volume
  pub replicas : Option ℤ
  pub observed_generation : ℤ
  pub conditions : List DeploymentCondition

abbrev pub key_index_html : String
key_index_html = "index.html"

abbrev pub key_nginx_conf : String
key_nginx_conf = "nginx.conf"

abbrev pub port_name_http : String
port_name_http = "http"

module _ (set_owner : SetOwner) (server_name : String) (website : Website) where
  unfoldable pub mutate_config_map : String → String → ConfigMap → Result ApiError ConfigMap
  unfolding ◌>>=◌
  mutate_config_map index_html nginx_conf obj = do
    owners ← set_owner website obj.owner_references
    ok (record obj {
      labels = some (merge_maps website.labels (get_labels_for_server server_name website.name));
      content = some ((key_index_html, index_html) ∷ (key_nginx_conf, nginx_conf) ∷ []);
      owner_references = owners;
    })

  unfoldable pub mutate_service : Service → Result ApiError Service
  unfolding ◌>>=◌
  mutate_service obj = do
    owners ← set_owner website obj.owner_references
    ok (record obj {
      labels = some (merge_maps website.labels (get_labels_for_server server_name website.name));
      service_type = "ClusterIP";
      selector = some (get_labels_for_server server_name website.name);
      ports =
          record {
            name = port_name_http;
            port = pos 8080;
            target_port = port_name_http;
            protocol = "TCP";
          }
          ∷ [];
      owner_references = owners;
    })

unfoldable pub rule_value : String → Website → IngressRuleValue
rule_value server_name website = record {
  path = "/" <> website.namespace <> "/" <> website.name;
  path_type = "Prefix";
  service_name = server_name;
  port_name = port_name_http;
}

unfoldable pub set_all : Option (Map String String) → Map String String → Option (Map String String)
unfolding set_label
set_all annotations [] = annotations
set_all annotations ((k, v) ∷ rest) = set_all (set_label annotations k v) rest

unfoldable pub rules_for_hosts :
    IngressRuleValue → List String → List IngressRule → List IngressRule
rules_for_hosts value [] rules = rules
rules_for_hosts value (h ∷ hs) rules = map (λ host. record { host = host; value = value }) (h ∷ hs)

abbrev pub no_ingress_configuration : IngressConfiguration
no_ingress_configuration = record { annotations = none; hosts = []; tls = [] }

abbrev pub configuration : Option IngressConfiguration → IngressConfiguration
configuration none = no_ingress_configuration
configuration (some config) = config

abbrev pub all_entries : Option (Map String String) → Map String String
all_entries none = []
all_entries (some m) = m

-- `applyIngressConfigToIngress`, on an ingress whose first rule has the given value.
unfoldable pub apply_ingress_config_to_ingress :
    Option IngressConfiguration → IngressRuleValue → Ingress → Ingress
unfolding set_all rules_for_hosts
apply_ingress_config_to_ingress config value obj =
    let c = configuration config in
    record obj {
      annotations = set_all none (all_entries c.annotations);
      rules = rules_for_hosts value c.hosts obj.rules;
      tls = c.tls;
    }

unfoldable pub class_name : Bool → Option String → Option String
class_name true old = some "fake"
class_name false old = if or_empty old == "fake" then none else old

-- One container, the first of those that are there.
unfoldable pub only_container : List Container → Container
only_container (c ∷ []) = c
only_container [] = record {
  name = "";
  image = "";
  image_pull_policy = "";
  ports = [];
  volume_mounts = [];
}
only_container (c ∷ d ∷ ds) = record {
  name = "";
  image = "";
  image_pull_policy = "";
  ports = [];
  volume_mounts = [];
}

unfoldable pub set_container : Container → Container
set_container container = record container {
  name = "nginx";
  image = "nginx:1.29-alpine";
  image_pull_policy = "IfNotPresent";
  ports = (port_name_http, pos 80, "TCP") ∷ [];
  volume_mounts =
      record { name = "website-data"; read_only = true; mount_path = "/usr/share/nginx/html" }
      ∷ record { name = "website-config"; read_only = true; mount_path = "/etc/nginx/conf.d" }
      ∷ [];
}

unfoldable pub volumes_of : ℤ → String → List Volume
volumes_of mode config_map =
    record {
      name = "website-data";
      config_map = config_map;
      items = (key_index_html, "index.html") ∷ [];
      default_mode = some mode;
    }
    ∷ record {
      name = "website-config";
      config_map = config_map;
      items = (key_nginx_conf, "nginx.conf") ∷ [];
      default_mode = some mode;
    }
    ∷ []

module _ (set_owner : SetOwner) (server_name : String) (website : Website) where
  unfoldable pub mutate_ingress : Option IngressConfiguration → Ingress → Result ApiError Ingress
  unfolding ◌>>=◌ rule_value class_name
  mutate_ingress config obj =
      let value = rule_value server_name website in
      let applied = apply_ingress_config_to_ingress config value (record obj {
        labels = some (merge_maps website.labels (get_labels_for_server server_name website.name));
        rules = record { host = ""; value = value } ∷ [];
      }) in
      do
        owners ← set_owner website obj.owner_references
        ok (record applied {
          ingress_class_name = class_name (skip_workload website) obj.ingress_class_name;
          owner_references = owners;
        })

  -- `mode` is `ConfigMapVolumeSourceDefaultMode` of k8s.io/api.
  unfoldable pub mutate_deployment : ℤ → String → String → Deployment → Result ApiError Deployment
  unfolding ◌>>=◌ only_container set_container volumes_of
  mutate_deployment mode checksum config_map obj = do
    owners ← set_owner website obj.owner_references
    ok (record obj {
      labels = some (merge_maps website.labels (get_labels_for_server server_name website.name));
      selector = some (get_labels_for_server server_name website.name);
      revision_history_limit = some (pos 2);
      template_labels = some (get_labels_for_server server_name website.name);
      template_annotations = some (("checksum/configmap", checksum) ∷ []);
      containers = set_container (only_container obj.containers) ∷ [];
      volumes = volumes_of mode config_map;
      replicas = some (if skip_workload website then pos 0 else pos 1);
      owner_references = owners;
    })
