-- ===== src/Webhosting/Reconcile/Phase.antt =====
-- webhosting-operator/pkg/controllers/webhosting/website_controller.go: when a website is ready.
use kubernetes_controller_sh.Base.{
  String, eq_false, is_neq, ◌≡◌, ◌≢◌, refl, sym, ap, ◌∙◌, ◌↔◌, Bool, true, false, none,
  if◌then◌else◌,
}
use kubernetes_controller_sh.Base.Result.{
  Result, ok, err, ◌>>=◌, wrap_err, >>=-eq-ok, wrap_err-eq-ok,
}
use kubernetes_controller_sh.Webhosting.{
  Website, Theme, phase_ready, phase_pending, phase_error, calculate_server_name, is_some,
}
use kubernetes_controller_sh.Webhosting.Objects.{ConfigMap, Service, Ingress, Deployment}
use kubernetes_controller_sh.Webhosting.Reconcile.RolledOut.{
  IsRolledOut, is_deployment_ready-IsRolledOut, IsRolledOut-is_deployment_ready,
}
use kubernetes_controller_sh.Webhosting.Reconcile.{
  Env, Failure, theme_error, reconciling_config_map, reconciling_service, reconciling_ingress,
  reconcile_config_map, reconcile_service, reconcile_ingress, reconcile_deployment, phase_of,
  reconcile_objects, step_of, reconcile_website, final_phase, new_status, is_ready,
}

-- All the calls succeed, and the last one answers with the deployment.
pub record RollsOut (env : Env) (website : Website) : Type 0 where
  pub theme : Theme
  pub config_map : ConfigMap
  pub service : Service
  pub ingress : Ingress
  pub deployment : Deployment
  pub finds : env.get_theme website.theme ≡ ok theme
  pub configures :
      reconcile_config_map env (calculate_server_name env.sha256_hex website) website theme
      ≡ ok config_map
  pub serves :
      reconcile_service env (calculate_server_name env.sha256_hex website) website ≡ ok service
  pub exposes :
      reconcile_ingress env (calculate_server_name env.sha256_hex website) website ≡ ok ingress
  pub deploys :
      reconcile_deployment env (calculate_server_name env.sha256_hex website) website config_map
      ≡ ok deployment

module _ (env : Env) (website : Website) where
  reconcile_objects-eq-ok :
      (p : String)
      → reconcile_objects env website ≡ ok p
      → (r : RollsOut env website) × (p ≡ phase_of r.deployment)
  unfolding reconcile_objects
  reconcile_objects-eq-ok p h =
      let (theme, e1, h1) =
        >>=-eq-ok (wrap_err (theme_error website.theme) (env.get_theme website.theme)) _ h in
      let (config_map, e2, h2) =
        >>=-eq-ok
          (wrap_err reconciling_config_map
            (reconcile_config_map env (calculate_server_name env.sha256_hex website) website theme))
          _ h1 in
      let (service, e3, h3) =
        >>=-eq-ok
          (wrap_err reconciling_service
            (reconcile_service env (calculate_server_name env.sha256_hex website) website))
          _ h2 in
      let (ingress, e4, h4) =
        >>=-eq-ok
          (wrap_err reconciling_ingress
            (reconcile_ingress env (calculate_server_name env.sha256_hex website) website))
          _ h3 in
      let (deployment, e5, h5) =
        >>=-eq-ok
          (reconcile_deployment env (calculate_server_name env.sha256_hex website) website
            config_map)
          _ h4 in
      (
        record {
          theme = theme;
          config_map = config_map;
          service = service;
          ingress = ingress;
          deployment = deployment;
          finds = wrap_err-eq-ok _ (env.get_theme website.theme) e1;
          configures = wrap_err-eq-ok _ _ e2;
          serves = wrap_err-eq-ok _ _ e3;
          exposes = wrap_err-eq-ok _ _ e4;
          deploys = e5;
        },
        cc,
      )

  RollsOut-reconcile_objects :
      (r : RollsOut env website) → reconcile_objects env website ≡ ok (phase_of r.deployment)
  unfolding reconcile_objects ◌>>=◌
  RollsOut-reconcile_objects r =
      rw r.finds (rw r.configures (rw r.serves (rw r.exposes (rw r.deploys refl))))

not_ready : phase_error ≢ phase_ready
not_ready = eq_false phase_error phase_ready refl

not_pending : phase_pending ≢ phase_ready
not_pending = eq_false phase_pending phase_ready refl

phase_of-ready : (d : Deployment) → (phase_of d ≡ phase_ready) ↔ (is_ready d ≡ true)
unfolding phase_of
phase_of-ready d = (go (is_ready d), λ h. rw h refl)
  where
    go : (b : Bool) → (if b then phase_ready else phase_pending) ≡ phase_ready → b ≡ true
    go true h = refl
    go false h = absurd (not_pending h)

-- The phase that a result leads to.
outcome : String → Result Failure String → String
unfolding final_phase step_of is_some
outcome old r = final_phase (step_of old r)

outcome-ready :
    (old : String) (r : Result Failure String) → outcome old r ≡ phase_ready → r ≡ ok phase_ready
unfolding outcome
outcome-ready old (ok p) h = ap ok h
outcome-ready old (err f) h = absurd (not_ready h)

-- The website that the calls see.
abbrev pub observed : Website → Website
observed website = record website {
  status = record website.status { observed_generation = website.generation };
}

new_status-outcome :
    (env : Env) (website : Website)
    → website.deletion_timestamp ≡ none
    → website.theme ≢ ""
    → (new_status env website).phase
      ≡ outcome website.status.phase (reconcile_objects env (observed website))
unfolding new_status reconcile_website outcome is_some
new_status-outcome env website h t = rw h (rw (is_neq website.theme "" t) refl)

-- A website that is not deleted and names a theme gets the phase Ready exactly if all calls for its
-- objects succeed and the deployment that the last one answers with is available and rolled out: its
-- latest generation is observed, the first condition Available is True, and the first condition
-- Progressing is True with the reason NewReplicaSetAvailable.
pub new_status-ready :
    (env : Env) (website : Website)
    → website.deletion_timestamp ≡ none
    → website.theme ≢ ""
    → ((new_status env website).phase ≡ phase_ready)
      ↔ ((r : RollsOut env (observed website)) × IsRolledOut r.deployment)
unfolding outcome
new_status-ready env website h t =
    let e = new_status-outcome env website h t in
    (
      λ ready.
          let (r, p) =
            reconcile_objects-eq-ok env (observed website) phase_ready
              (outcome-ready website.status.phase _ (sym e ∙ ready)) in
          (
            r,
            is_deployment_ready-IsRolledOut r.deployment ((phase_of-ready r.deployment).0 (sym p)),
          ),
      λ (r, ready).
          e
          ∙ rw (RollsOut-reconcile_objects env (observed website) r) (
              (phase_of-ready r.deployment).1 (IsRolledOut-is_deployment_ready r.deployment ready)),
    )
