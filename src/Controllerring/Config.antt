-- ===== src/Controllerring/Config.antt =====
-- pkg/controller/controllerring/reconciler.go: the webhook configuration of a ring.
pub mod Rules
use Prim.Native.String.{slice, len}
use kubernetes_controller_sh.Base.{
  ℕ, ◌-◌, String, ◌<>◌, ◌==◌, Bool, true, false, Option, none, some, List, [], ◌∷◌, ◌++◌, map,
  if◌then◌else◌,
}
use kubernetes_controller_sh.Base.Int.{ℤ, pos}
use kubernetes_controller_sh.Api.Core.{
  GroupResource, label_controller_ring, app_controller_sharding,
}
use kubernetes_controller_sh.Api.ControllerRing.{
  ControllerRing, RingResource, LabelSelector, Requirement, ring_label_shard,
}
use kubernetes_controller_sh.Webhook.Path.{webhook_path_for_controller_ring}

-- admissionregistration.k8s.io/v1
pub record ServiceReference : Type 0 where
  pub namespace : String
  pub name : String
  pub path : Option String

pub record ClientConfig : Type 0 where
  pub url : Option String
  pub service : Option ServiceReference

pub record Rule : Type 0 where
  pub operations : List String
  pub api_groups : List String
  pub api_versions : List String
  pub resources : List String
  pub scope : String

pub record MutatingWebhook : Type 0 where
  pub name : String
  pub client_config : ClientConfig
  pub namespace_selector : Option LabelSelector
  pub object_selector : LabelSelector
  pub failure_policy : String
  pub timeout_seconds : ℤ
  pub side_effects : String
  pub admission_review_versions : List String
  pub rules : List Rule

pub record MutatingWebhookConfiguration : Type 0 where
  pub name : String
  pub labels : List (String × String)
  pub annotations : Option (List (String × String))
  pub webhooks : List MutatingWebhook

-- pkg/apis/config/v1alpha1, `WebhookConfig`, where the client config is set.
pub record WebhookConfig : Type 0 where
  pub annotations : Option (List (String × String))
  pub client_config : ClientConfig
  pub namespace_selector : Option LabelSelector

-- `strings.TrimSuffix(url, "/")`
unfoldable pub trim_slash : String → String
trim_slash url = if slice url (len url - 1) (len url) == "/" then slice url 0 (len url - 1) else url

unfoldable pub rule_for_resource : GroupResource → Rule
rule_for_resource gr = record {
  operations = "CREATE" ∷ "UPDATE" ∷ [];
  api_groups = gr.group ∷ [];
  api_versions = "*" ∷ [];
  resources = gr.resource ∷ [];
  scope = "*";
}

unfoldable pub rules_for : List RingResource → List Rule
rules_for [] = []
rules_for (r ∷ rs) =
    rule_for_resource r.group_resource ∷ map rule_for_resource r.controlled_resources
    ++ rules_for rs

service_with_path : String → Option ServiceReference → Option ServiceReference
service_with_path path none = none
service_with_path path (some service) = some (record service { path = some path })

url_with_path : String → Option String → Option String
url_with_path path none = none
url_with_path path (some url) = some (trim_slash url <> path)

unfoldable pub selector_or : Option LabelSelector → Option LabelSelector → Option LabelSelector
selector_or none default = default
selector_or (some selector) default = some selector

unfoldable pub webhook_for_controller_ring : ControllerRing → WebhookConfig → MutatingWebhook
unfolding service_with_path url_with_path
webhook_for_controller_ring ring config =
    let path = webhook_path_for_controller_ring ring.name in
    record {
      name = "sharder.sharding.timebertt.dev";
      client_config = record {
        url = url_with_path path config.client_config.url;
        service = service_with_path path config.client_config.service;
      };
      namespace_selector = selector_or ring.spec.namespace_selector config.namespace_selector;
      object_selector = record {
        match_labels = [];
        match_expressions =
            record { key = ring_label_shard ring; operator = "DoesNotExist"; values = [] } ∷ [];
      };
      failure_policy = "Ignore";
      timeout_seconds = pos 5;
      side_effects = "None";
      admission_review_versions = "v1" ∷ [];
      rules = rules_for ring.spec.resources;
    }

unfoldable pub webhook_config_for_controller_ring :
    ControllerRing → WebhookConfig → MutatingWebhookConfiguration
webhook_config_for_controller_ring ring config = record {
  name = "controllerring-" <> ring.name;
  labels =
      ("app.kubernetes.io/name", app_controller_sharding) ∷ (label_controller_ring, ring.name) ∷ [];
  annotations = config.annotations;
  webhooks = webhook_for_controller_ring ring config ∷ [];
}
