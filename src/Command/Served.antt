-- ===== src/Command/Served.antt =====
-- cmd/sharder/app/options.go: what the options of the manager have that the configuration asks for.
use kubernetes_controller_sh.Base.{
  String, ◌==◌, eq_iff, ◌≡◌, ◌≢◌, sym, ap, ◌∙◌, Bool, true, eq_false, ◌⊎◌, inl, inr, Option, none,
  some,
}
use kubernetes_controller_sh.Base.Result.{Result, ok, wrap_err, >>=-eq-ok, if-eq}
use kubernetes_controller_sh.Api.Core.{Labels}
use kubernetes_controller_sh.Configuration.{SharderConfig, LeaderElectionConfiguration}
use kubernetes_controller_sh.Configuration.Defaults.{Recommended}
use kubernetes_controller_sh.Command.{
  Failure, loading_kubeconfig, parsing_leader_elect, Selectors, Env, ManagerOptions, MetricsOptions,
  Options, deref, with_leader_election, profiling, with_metrics, measured,
  apply_config_to_manager_options, apply_cache_options, overridden, apply_options_overrides,
  load_config, complete, new_manager_options,
}

ok-path : {A : Type 0} {a b : A} → ◌≡◌ {A = Result Failure A} (ok a) (ok b) → a ≡ b
ok-path h = cc

some-path : {A : Type 0} {a b : A} → some a ≡ some b → a ≡ b
some-path h = cc

-- What the last steps leave as it is.
pub Keeps : {S : Type 0} → ManagerOptions S → ManagerOptions S → Type 0
Keeps m n = (n.metrics ≡ m.metrics) × (n.lease_selector ≡ m.lease_selector)

overridden-Keeps :
    {S : Type 0} (env : Env) (text : Option String) (m n : ManagerOptions S)
    → overridden env text m ≡ ok n
    → Keeps m n
unfolding overridden Keeps
overridden-Keeps env none m n h =
    (ap (λ k. k.metrics) (sym (ok-path h)), ap (λ k. k.lease_selector) (sym (ok-path h)))
overridden-Keeps env (some text) m n h =
    let (elect, _, e) =
      >>=-eq-ok (wrap_err parsing_leader_elect (env.parse_bool text))
        (λ elect. ok (record m { leader_election = elect })) h in
    (ap (λ k. k.metrics) (sym (ok-path e)), ap (λ k. k.lease_selector) (sym (ok-path e)))

-- The metrics `n` that a configuration makes of `m`: the address "0" leaves them as they are, and any
-- other address is served securely.
pub Measures : SharderConfig → MetricsOptions → MetricsOptions → Type 0
Measures c m n =
    ((c.metrics.bind_address ≡ "0") × (n ≡ m))
    ⊎ ((c.metrics.bind_address ≢ "0")
        × (n.bind_address ≡ c.metrics.bind_address)
        × (n.secure_serving ≡ true)
        × (n.with_authentication ≡ true))

with_leader_election-metrics :
    {S : Type 0} (c : Option LeaderElectionConfiguration) (m n : ManagerOptions S)
    → with_leader_election c m ≡ ok n
    → n.metrics ≡ m.metrics
unfolding with_leader_election
with_leader_election-metrics none m n h = ap (λ k. k.metrics) (sym (ok-path h))
with_leader_election-metrics (some c) m n h =
    let (elect, _, e) = >>=-eq-ok (deref c.leader_elect) _ h in
    ap (λ k. k.metrics) (sym (ok-path e))

with_metrics-Measures :
    {S : Type 0} (c : SharderConfig) (m n : ManagerOptions S) (blocks : Bool)
    → with_metrics c m ≡ ok (n, blocks)
    → Measures c m.metrics n.metrics
unfolding with_metrics measured Measures
with_metrics-Measures c m n blocks h = elim (if-eq (c.metrics.bind_address == "0") _ _ h) [
  | inl (t, e) ↦ inl ((eq_iff _ "0").0 t, ap (λ k. k.0.metrics) (sym (ok-path e)))
  | inr (t, e) ↦
      let (_, _, d) = >>=-eq-ok (profiling c.debugging) _ e in
      let p = ap (λ k. k.0.metrics) (sym (ok-path d)) in
      inr (
        eq_false c.metrics.bind_address "0" t,
        ap (λ k. k.bind_address) p,
        ap (λ k. k.secure_serving) p,
        ap (λ k. k.with_authentication) p,
      )
]

apply-Measures :
    {S : Type 0} (c : SharderConfig) (m n : ManagerOptions S) (blocks : Bool)
    → apply_config_to_manager_options c m ≡ ok (n, blocks)
    → Measures c m.metrics n.metrics
unfolding apply_config_to_manager_options Measures
apply-Measures c m n blocks h =
    let (elected, e, rest) = >>=-eq-ok (with_leader_election c.leader_election m) _ h in
    let asked = record elected { health_probe_bind_address = c.health.bind_address } in
    let (o, e2, rest2) = >>=-eq-ok (with_metrics c asked) _ rest in
    let (timeout, _, e3) = >>=-eq-ok (deref c.graceful_shutdown_timeout) _ rest2 in
    let measures = with_metrics-Measures c asked o.0 o.1 e2 in
    rw (sym (with_leader_election-metrics c.leader_election m elected e))
      (rw (ap (λ k. k.0.metrics) (sym (ok-path e3))) measures)

module _ (s : Selectors) (r : Recommended) (env : Env) (config_file : String)
    (o : Options s.Selector) (done : complete s r env config_file ≡ ok o) where
  steps :
      (c : SharderConfig) × (applied : ManagerOptions s.Selector) × (blocks : Bool) × (c ≡ o.config)
      × (apply_config_to_manager_options c (new_manager_options s.Selector) ≡ ok (applied, blocks))
      × Keeps (apply_cache_options s applied) o.manager_options
  unfolding complete apply_options_overrides Keeps
  steps =
      let (c, _, rest) = >>=-eq-ok (load_config r env config_file) _ done in
      let (kube, _, rest2) = >>=-eq-ok (wrap_err loading_kubeconfig env.get_config) _ rest in
      let (applied, e, rest3) =
        >>=-eq-ok (apply_config_to_manager_options c (new_manager_options s.Selector)) _ rest2 in
      let (m, e2, e3) =
        >>=-eq-ok (apply_options_overrides env (apply_cache_options s (applied.0))) _ rest3 in
      let p = ok-path e3 in
      let kept =
        overridden-Keeps env (env.lookup_env "LEADER_ELECT") (apply_cache_options s applied.0) m
          e2 in
      let q = sym (ap (λ k. k.manager_options) p) in
      (
        c,
        applied.0,
        applied.1,
        ap (λ k. k.config) p,
        e,
        (ap (λ k. k.metrics) q ∙ kept.0, ap (λ k. k.lease_selector) q ∙ kept.1),
      )

  -- If the options are completed, the metrics are served securely on the configured address; only
  -- for the address "0" are the options of the metrics server those of an empty configuration,
  -- which has no address.
  pub complete-Measures :
      Measures o.config (new_manager_options s.Selector).metrics o.manager_options.metrics
  unfolding Keeps apply_cache_options
  complete-Measures =
      let (c, applied, blocks, p, e, (same, _)) = steps in
      rw (sym p) (rw same (apply-Measures c (new_manager_options s.Selector) applied blocks e))

  -- If a new selector matches everything, the selector of the lease cache does.
  pub complete-lease_selector :
      ((l : Labels) → s.matches s.new_selector l ≡ true)
      → (selector : s.Selector) (l : Labels) → o.manager_options.lease_selector ≡ some selector
      → s.matches selector l ≡ true
  unfolding Keeps apply_cache_options
  complete-lease_selector everything selector l h =
      let (c, applied, blocks, p, e, (_, same)) = steps in
      let found = some-path (sym same ∙ h) in rw (sym found) (everything l)
