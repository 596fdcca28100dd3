-- ===== src/Configuration/Defaults/Idempotent.antt =====
-- pkg/apis/config/v1alpha1/defaults.go: defaulting a second time changes nothing.
use kubernetes_controller_sh.Base.{
  String, ◌≡◌, ◌≢◌, refl, ap, ◌∙◌, Option, none, some, eq_iff, arith,
}
use kubernetes_controller_sh.Base.Int.{pos}
use kubernetes_controller_sh.Controllerring.Config.{ServiceReference, ClientConfig}
use kubernetes_controller_sh.Api.Core.{namespace_system}
use kubernetes_controller_sh.Configuration.{
  LeaderElectionConfiguration, DebuggingConfiguration, Controller, Webhook, WebhookConfig,
  SharderConfig,
}
use kubernetes_controller_sh.Configuration.Defaults.{
  Recommended, or_default, or_text, in_place, set_defaults_sharder_config,
  set_defaults_leader_election, set_defaults_debugging, set_defaults_health_endpoint,
  set_defaults_metrics_endpoint, set_defaults_controller, set_defaults_sharder_controller,
  set_defaults_webhook, set_defaults_webhook_config, default_service,
  set_defaults_webhook_client_config, set_defaults_service_reference, default_client_config,
  default_webhook_config, default_webhook, default_controller, set_object_defaults_sharder_config,
}

or_text-or_text : (d s : String) → or_text d (or_text d s) ≡ or_text d s
unfolding or_text
or_text-or_text d s = ground (arith, eq_iff s "", eq_iff d "")

pub or_text-≢ : (d s : String) → d ≢ "" → or_text d s ≢ ""
unfolding or_text
or_text-≢ d s h = ground (arith, eq_iff s "")

pub or_text-set : (d s : String) → s ≢ "" → or_text d s ≡ s
unfolding or_text
or_text-set d s h = ground (arith, eq_iff s "")

in_place_idem :
    {A : Type 0} (f : A → A)
    → ((a : A) → f (f a) ≡ f a)
    → (x : Option A) → in_place f (in_place f x) ≡ in_place f x
unfolding in_place
in_place_idem f h none = refl
in_place_idem f h (some a) = ap some (h a)

service_idem :
    (s : ServiceReference)
    → set_defaults_service_reference (set_defaults_service_reference s)
      ≡ set_defaults_service_reference s
unfolding set_defaults_service_reference
service_idem s = simp (or_text-or_text)

default_service_idem :
    (url : Option String) (service : Option ServiceReference)
    → in_place set_defaults_service_reference (
        default_service url (in_place set_defaults_service_reference (default_service url service)))
      ≡ in_place set_defaults_service_reference (default_service url service)
unfolding default_service in_place
default_service_idem none none = ap some (service_idem _)
default_service_idem none (some s) = ap some (service_idem s)
default_service_idem (some u) none = refl
default_service_idem (some u) (some s) = ap some (service_idem s)

client_config_idem :
    (c : ClientConfig) → default_client_config (default_client_config c) ≡ default_client_config c
unfolding default_client_config set_defaults_webhook_client_config
client_config_idem c = ap (λ s. record c { service = s }) (default_service_idem c.url c.service)

webhook_config_idem :
    (c : WebhookConfig)
    → default_webhook_config (default_webhook_config c) ≡ default_webhook_config c
unfolding default_webhook_config set_defaults_webhook_config or_default in_place
webhook_config_idem c = simp (client_config_idem)

webhook_idem : (c : Webhook) → default_webhook (default_webhook c) ≡ default_webhook c
unfolding default_webhook set_defaults_webhook or_default in_place
webhook_idem c = simp (webhook_config_idem)

controller_idem :
    (c : Controller) → default_controller (default_controller c) ≡ default_controller c
unfolding default_controller set_defaults_controller set_defaults_sharder_controller or_default
    in_place
controller_idem c = refl

-- What component-base documents: its functions fill the fields that are not set, and no other.
pub record IsFilled (c : LeaderElectionConfiguration) : Type 0 where
  pub elects : c.leader_elect ≢ none
  pub duration : c.lease_duration ≢ pos 0
  pub deadline : c.renew_deadline ≢ pos 0
  pub period : c.retry_period ≢ pos 0
  pub lock : c.resource_lock ≢ ""

pub record Fills (r : Recommended) : Type 0 where
  pub fills : (c : LeaderElectionConfiguration) → IsFilled (r.leader_election c)
  pub keeps : (c : LeaderElectionConfiguration) → IsFilled c → r.leader_election c ≡ c
  pub profiling : (c : DebuggingConfiguration) → (r.debugging c).enable_profiling ≢ none
  pub profiling_kept : (c : DebuggingConfiguration) → c.enable_profiling ≢ none → r.debugging c ≡ c

module _ (r : Recommended) (f : Fills r) where
  set_defaults-IsFilled :
      (d : LeaderElectionConfiguration)
      → IsFilled d
      → set_defaults_leader_election r d ≡ record d {
        resource_name = or_text "sharder" d.resource_name;
        resource_namespace = or_text namespace_system d.resource_namespace;
      }
  unfolding set_defaults_leader_election
  set_defaults-IsFilled d h =
      rw (or_text-set "leases" d.resource_lock h.lock) (rw (f.keeps d h) refl)

  pub leader_election-IsFilled :
      (c : LeaderElectionConfiguration) → IsFilled (set_defaults_leader_election r c)
  unfolding set_defaults_leader_election
  leader_election-IsFilled c =
      let h = f.fills (record c { resource_lock = or_text "leases" c.resource_lock }) in
      record {
        elects = h.elects;
        duration = h.duration;
        deadline = h.deadline;
        period = h.period;
        lock = h.lock;
      }

  leader_election_idem :
      (c : LeaderElectionConfiguration)
      → set_defaults_leader_election r (set_defaults_leader_election r c)
        ≡ set_defaults_leader_election r c
  unfolding set_defaults_leader_election
  leader_election_idem c =
      set_defaults-IsFilled (set_defaults_leader_election r c) (leader_election-IsFilled c)
      ∙ simp (or_text-or_text)

  debugging_idem :
      (c : DebuggingConfiguration)
      → set_defaults_debugging r (set_defaults_debugging r c) ≡ set_defaults_debugging r c
  unfolding set_defaults_debugging or_default
  debugging_idem c = rw (f.profiling_kept (set_defaults_debugging r c) (f.profiling c)) refl

  -- Defaulting a configuration twice is defaulting it once. (The defaults of component-base fill
  -- what is not set, and change nothing where all is set.)
  pub set_object_defaults_idem :
      (c : SharderConfig)
      → set_object_defaults_sharder_config r (set_object_defaults_sharder_config r c)
        ≡ set_object_defaults_sharder_config r c
  unfolding set_object_defaults_sharder_config set_defaults_sharder_config or_default in_place
      set_defaults_health_endpoint set_defaults_metrics_endpoint
  set_object_defaults_idem c =
      simp (webhook_idem, controller_idem, leader_election_idem, debugging_idem, or_text-or_text)
