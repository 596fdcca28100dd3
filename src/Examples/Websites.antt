-- ===== src/Examples/Websites.antt =====
-- A website with a theme, on the shard `a`, and what becomes of it.
use kubernetes_controller_sh.Base.{◌≡◌, refl, ◌↔◌, none, some, [], ◌∷◌, eq_false}
use kubernetes_controller_sh.Base.Int.{pos}
use kubernetes_controller_sh.Base.Map.{lookup}
use kubernetes_controller_sh.Base.Result.{ok, ◌>>=◌}
use kubernetes_controller_sh.Api.Core.{label_shard}
use kubernetes_controller_sh.Api.Labels.{find_label}
use kubernetes_controller_sh.Webhosting.{Website, phase_ready, webhosting_operator_name}
use kubernetes_controller_sh.Webhosting.Objects.{
  SetOwner, ConfigMap, Service, Ingress, Deployment, mutate_config_map, mutate_service,
  mutate_ingress, mutate_deployment,
}
use kubernetes_controller_sh.Webhosting.Objects.Selection.{Fits, mutate-Fits}
use kubernetes_controller_sh.Webhosting.Objects.Settled.{OwnsOnce, Settles, mutate-Settles}
use kubernetes_controller_sh.Webhosting.Reconcile.{
  Env, new_config_map, new_service, new_ingress, new_deployment, new_status,
}
use kubernetes_controller_sh.Webhosting.Reconcile.Phase.{RollsOut, observed, new_status-ready}
use kubernetes_controller_sh.Webhosting.Reconcile.RolledOut.{IsRolledOut}
use kubernetes_controller_sh.Operator.Cached.{Carries, mutate-Carries}
use kubernetes_controller_sh.Examples.Data.{at, owner_reference}

abbrev website : Website
website = record {
  name = "shop";
  namespace = "project";
  uid = "1234";
  labels = some ((label_shard webhosting_operator_name, "a") ∷ []);
  generation = pos 2;
  deletion_timestamp = none;
  theme = "dark";
  status = record { observed_generation = pos 1; phase = "Pending"; last_transition_time = none };
}

abbrev set_owner : SetOwner
set_owner w owners = ok (owner_reference ∷ [])

abbrev config_map : ConfigMap
config_map = new_config_map "shop-abcdef" "project"

abbrev service : Service
service = new_service "shop-abcdef" "project"

abbrev ingress : Ingress
ingress = new_ingress "shop-abcdef" "project"

abbrev deployment : Deployment
deployment = new_deployment "shop-abcdef" "project"

mapped :
    (c : ConfigMap) × (mutate_config_map set_owner "shop-abcdef" website "html" "conf" config_map
      ≡ ok c)
unfolding mutate_config_map ◌>>=◌
mapped = (_, refl)

served : (s : Service) × (mutate_service set_owner "shop-abcdef" website service ≡ ok s)
unfolding mutate_service ◌>>=◌
served = (_, refl)

exposed : (i : Ingress) × (mutate_ingress set_owner "shop-abcdef" website none ingress ≡ ok i)
unfolding mutate_ingress ◌>>=◌
exposed = (_, refl)

deployed :
    (d : Deployment) × (mutate_deployment set_owner "shop-abcdef" website
        (pos 420)
        "sum"
        mapped.0.name
        deployment
      ≡ ok d)
unfolding mutate_deployment ◌>>=◌
deployed = (_, refl)

mutate-Fits_example : Fits mapped.0 served.0 exposed.0 deployed.0
mutate-Fits_example =
    mutate-Fits set_owner "shop-abcdef" website "html" "conf" "sum" none (pos 420) config_map
      mapped.0 service served.0 ingress exposed.0 deployment deployed.0 refl mapped.1 served.1
      exposed.1 deployed.1

once : OwnsOnce set_owner website
once old owners h = h

mutate-Settles_example :
    Settles (mutate_config_map set_owner "shop-abcdef" website "html" "conf")
    × Settles (mutate_service set_owner "shop-abcdef" website)
    × Settles (mutate_ingress set_owner "shop-abcdef" website none)
    × Settles (mutate_deployment set_owner "shop-abcdef" website (pos 420) "sum" "shop-abcdef")
mutate-Settles_example =
    mutate-Settles set_owner "shop-abcdef" website once "html" "conf" none (pos 420) "sum"
      "shop-abcdef"

on_a : find_label website.labels (label_shard webhosting_operator_name) ≡ some "a"
unfolding find_label lookup label_shard
on_a = refl

mutate-Carries_example :
    Carries (λ k. k.labels) "a" (mutate_config_map set_owner "shop-abcdef" website "html" "conf")
    × Carries (λ k. k.labels) "a" (mutate_service set_owner "shop-abcdef" website)
    × Carries (λ k. k.labels) "a" (mutate_ingress set_owner "shop-abcdef" website none)
    × Carries
        (λ k. k.labels)
        "a"
        (mutate_deployment set_owner "shop-abcdef" website (pos 420) "sum" "shop-abcdef")
mutate-Carries_example =
    mutate-Carries set_owner "shop-abcdef" website "a" on_a "html" "conf" none (pos 420) "sum"
      "shop-abcdef"

-- A cluster in which nothing is there yet.
abbrev env : Env
env = record {
  get_theme = λ name. ok (record { name = name; color = "black"; font_family = "serif" });
  render_index_html = λ server_name w theme. ok "html";
  render_nginx_conf = λ server_name w. ok "conf";
  set_owner = set_owner;
  config_map_call = λ new change. change new;
  service_call = λ new change. change new;
  ingress_call = λ new change. change new;
  deployment_call = λ new change. change new;
  update_status = λ w. ok tt;
  marshal = λ content. ok "{}";
  sha256_hex = λ text. "abcdef0123";
  default_mode = pos 420;
  now = at 5;
  ingress = none;
}

new_status-ready_example :
    ((new_status env website).phase ≡ phase_ready)
    ↔ ((r : RollsOut env (observed website)) × IsRolledOut r.deployment)
new_status-ready_example = new_status-ready env website refl (eq_false "dark" "" refl)
