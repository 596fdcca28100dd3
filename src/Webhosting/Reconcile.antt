-- ===== src/Webhosting/Reconcile.antt =====
-- webhosting-operator/pkg/controllers/webhosting/website_controller.go: Reconcile and its predicates.
pub mod Phase
pub mod RolledOut
pub mod Stored
use kubernetes_controller_sh.Base.{
  String, ◌==◌, Bool, true, false, not, ◌&&◌, Option, none, some, List, [], ◌∷◌, map, if◌then◌else◌,
}
use kubernetes_controller_sh.Base.Int.{ℤ, pos, eq_ℤ}
use kubernetes_controller_sh.Base.Map.{Map}
use kubernetes_controller_sh.Base.Result.{Result, ok, err, ◌>>=◌, wrap_err}
use kubernetes_controller_sh.Api.Client.{ApiError, is_not_found}
use kubernetes_controller_sh.Webhosting.{
  Website, WebsiteStatus, Theme, phase_pending, phase_ready, phase_error, phase_terminating,
  is_deployment_ready, calculate_server_name, is_some,
}
use kubernetes_controller_sh.Webhosting.Objects.{
  SetOwner, ConfigMap, Service, Ingress, Deployment, IngressConfiguration, mutate_config_map,
  mutate_service, mutate_ingress, mutate_deployment,
}

-- `controllerutil.CreateOrPatch` takes an object with its name, and how to change what is there.
abbrev pub CreateOrPatch : Type 0 → Type 0
CreateOrPatch A = A → (A → Result ApiError A) → Result ApiError A

-- The API server, the templates, the libraries, the clock and the configuration.
pub record Env : Type 0 where
  pub get_theme : String → Result ApiError Theme
  pub render_index_html : String → Website → Theme → Result ApiError String
  pub render_nginx_conf : String → Website → Result ApiError String
  pub set_owner : SetOwner
  pub config_map_call : CreateOrPatch ConfigMap
  pub service_call : CreateOrPatch Service
  pub ingress_call : CreateOrPatch Ingress
  pub deployment_call : CreateOrPatch Deployment
  pub update_status : Website → Result ApiError (Unit {0})
  pub marshal : Option (Map String String) → Result ApiError String
  pub sha256_hex : String → String
  pub default_mode : ℤ
  pub now : ℤ
  pub ingress : Option IngressConfiguration

pub data Failure : Type 0 where
  theme_not_found : String → Failure
  getting_theme : String → ApiError → Failure
  reconciling_config_map reconciling_service reconciling_ingress : ApiError → Failure
  calculating_checksum reconciling_deployment : ApiError → Failure

-- The reason of the event that is recorded with an error.
unfoldable pub reason : Failure → String
reason (theme_not_found name) = "ThemeNotFound"
reason (getting_theme name e) = "ReconcilerError"
reason (reconciling_config_map e) = "ReconcilerError"
reason (reconciling_service e) = "ReconcilerError"
reason (reconciling_ingress e) = "ReconcilerError"
reason (calculating_checksum e) = "ReconcilerError"
reason (reconciling_deployment e) = "ReconcilerError"

unfoldable pub theme_error : String → ApiError → Failure
theme_error name e = if is_not_found e then theme_not_found name else getting_theme name e

abbrev pub new_config_map : String → String → ConfigMap
new_config_map name namespace = record {
  name = name;
  namespace = namespace;
  labels = none;
  owner_references = [];
  content = none;
}

abbrev pub new_service : String → String → Service
new_service name namespace = record {
  name = name;
  namespace = namespace;
  labels = none;
  owner_references = [];
  service_type = "";
  selector = none;
  ports = [];
}

abbrev pub new_ingress : String → String → Ingress
new_ingress name namespace = record {
  name = name;
  namespace = namespace;
  labels = none;
  annotations = none;
  owner_references = [];
  rules = [];
  tls = [];
  ingress_class_name = none;
}

abbrev pub new_deployment : String → String → Deployment
new_deployment name namespace = record {
  name = name;
  namespace = namespace;
  labels = none;
  generation = pos 0;
  owner_references = [];
  selector = none;
  revision_history_limit = none;
  template_labels = none;
  template_annotations = none;
  containers = [];
  volumes = [];
  replicas = none;
  observed_generation = pos 0;
  conditions = [];
}

module _ (env : Env) (server_name : String) (website : Website) where
  unfoldable pub reconcile_config_map : Theme → Result ApiError ConfigMap
  unfolding ◌>>=◌
  reconcile_config_map theme = do
    index_html ← env.render_index_html server_name website theme
    nginx_conf ← env.render_nginx_conf server_name website
    env.config_map_call (new_config_map server_name website.namespace)
        (mutate_config_map env.set_owner server_name website index_html nginx_conf)

  unfoldable pub reconcile_service : Result ApiError Service
  reconcile_service =
      env.service_call (new_service server_name website.namespace)
        (mutate_service env.set_owner server_name website)

  unfoldable pub reconcile_ingress : Result ApiError Ingress
  reconcile_ingress =
      env.ingress_call (new_ingress server_name website.namespace)
        (mutate_ingress env.set_owner server_name website env.ingress)

  -- `calculateConfigMapChecksum` is the sum of the marshalled data.
  unfoldable pub reconcile_deployment : ConfigMap → Result Failure Deployment
  unfolding ◌>>=◌
  reconcile_deployment config_map = do
    content ← wrap_err calculating_checksum (env.marshal config_map.content)
    wrap_err reconciling_deployment (
        env.deployment_call (new_deployment server_name website.namespace) (
          mutate_deployment env.set_owner server_name website env.default_mode
            (env.sha256_hex content) config_map.name))

unfoldable pub phase_of : Deployment → String
phase_of d =
    if is_deployment_ready d.generation d.observed_generation d.conditions
    then phase_ready
    else phase_pending

-- What `reconcileWebsite` does for a website that is not deleted and names a theme.
unfoldable pub reconcile_objects : Env → Website → Result Failure String
unfolding ◌>>=◌ phase_of
reconcile_objects env website =
    let server_name = calculate_server_name env.sha256_hex website in
    do
      theme ← wrap_err (theme_error website.theme) (env.get_theme website.theme)
      config_map ←
          wrap_err reconciling_config_map (reconcile_config_map env server_name website theme)
      service ← wrap_err reconciling_service (reconcile_service env server_name website)
      ingress ← wrap_err reconciling_ingress (reconcile_ingress env server_name website)
      deployment ← reconcile_deployment env server_name website config_map
      ok (phase_of deployment)

-- The phase, the events and the error that `reconcileWebsite` leaves.
pub record Step : Type 0 where
  pub phase : String
  pub events : List String
  pub error : Option Failure

unfoldable pub step_of : String → Result Failure String → Step
step_of old (ok phase) = record { phase = phase; events = []; error = none }
step_of old (err f) = record { phase = old; events = reason f ∷ []; error = some f }

unfoldable pub reconcile_website : Env → Website → Step
unfolding step_of is_some
reconcile_website env website =
    if is_some website.deletion_timestamp
    then record { phase = phase_terminating; events = []; error = none }
    else (if website.theme == ""
        then record { phase = website.status.phase; events = "ThemeUnspecified" ∷ []; error = none }
        else step_of website.status.phase (reconcile_objects env website))

unfoldable pub eq_time : Option ℤ → Option ℤ → Bool
unfolding eq_ℤ
eq_time none none = true
eq_time (some a) (some b) = eq_ℤ a b
eq_time none (some b) = false
eq_time (some a) none = false

-- `DeepEqual` of two statuses
unfoldable pub same_status : WebsiteStatus → WebsiteStatus → Bool
unfolding eq_ℤ eq_time
same_status a b =
    eq_ℤ a.observed_generation b.observed_generation
    && a.phase == b.phase
    && eq_time a.last_transition_time b.last_transition_time

-- What `Reconcile` returns: the two errors that it joins; the website that it updates the status of; and
-- the events.
pub record Reply : Type 0 where
  pub error : Option Failure
  pub update_error : Option ApiError
  pub update : Option Website
  pub events : List String

abbrev pub error_of : Result ApiError (Unit {0}) → Option ApiError
error_of (ok u) = none
error_of (err e) = some e

unfoldable pub final_phase : Step → String
final_phase step = if is_some step.error then phase_error else step.phase

-- The status before the transition time is set.
unfoldable pub new_status : Env → Website → WebsiteStatus
unfolding final_phase
new_status env website =
    let observed = record website.status { observed_generation = website.generation } in
    record observed {
      phase = final_phase (reconcile_website env (record website { status = observed }));
    }

unfoldable pub reconcile : Env → Website → Reply
unfolding same_status
reconcile env website =
    let observed = record website.status { observed_generation = website.generation } in
    let step = reconcile_website env (record website { status = observed }) in
    let status = new_status env website in
    let updated = record website {
      status = record status { last_transition_time = some env.now };
    } in
    if not (same_status website.status status)
    then record {
      error = step.error;
      update_error = error_of (env.update_status updated);
      update = some updated;
      events = step.events;
    }
    else record { error = step.error; update_error = none; update = none; events = step.events }

-- `MapThemeToWebsites`, with the answer to the listing; the names of the websites to reconcile.
unfoldable pub map_theme_to_websites : Result ApiError (List Website) → List (String × String)
map_theme_to_websites (err e) = []
map_theme_to_websites (ok websites) = map (λ w. (w.namespace, w.name)) websites

-- An object of an update event: nil, of another type, or of the type that is asked for.
pub data Seen (A : Type 0) : Type 0 where
  nil_object other_object : Seen A
  typed : A → Seen A

unfoldable pub on_update : {A : Type 0} → (A → A → Bool) → Seen A → Seen A → Bool
on_update changed (typed old) (typed new) = changed old new
on_update changed nil_object new = false
on_update changed other_object new = false
on_update changed (typed old) nil_object = false
on_update changed (typed old) other_object = false

unfoldable pub website_status_changed : Seen Website → Seen Website → Bool
unfolding on_update
website_status_changed = on_update (λ old new. not (same_status old.status new.status))

abbrev pub is_ready : Deployment → Bool
is_ready d = is_deployment_ready d.generation d.observed_generation d.conditions

unfoldable pub deployment_availability_changed : Seen Deployment → Seen Deployment → Bool
unfolding on_update
deployment_availability_changed =
    on_update (λ old new. if is_ready old then not (is_ready new) else is_ready new)
