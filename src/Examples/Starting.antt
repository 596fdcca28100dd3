-- ===== src/Examples/Starting.antt =====
-- The sharder and the operator start with the default configuration.
use kubernetes_controller_sh.Base.{
  ◌≡◌, ◌≢◌, refl, eq_false, sym, arith, ◌++◌, List, if◌then◌else◌, Bool, true, Option, none, some,
  [], ◌∷◌,
}
use kubernetes_controller_sh.Base.Int.{ℤ, pos, eq_ℤ, eq_ℤ_iff}
use kubernetes_controller_sh.Base.Result.{Result, ok, err, ◌>>=◌}
use kubernetes_controller_sh.Api.Client.{ApiError, not_found}
use kubernetes_controller_sh.Configuration.{SharderConfig}
use kubernetes_controller_sh.Configuration.Defaults.{
  Recommended, or_text, or_default, in_place, set_defaults_sharder_config,
  set_defaults_leader_election, set_defaults_metrics_endpoint, set_object_defaults_sharder_config,
}
use kubernetes_controller_sh.Configuration.Defaults.Idempotent.{
  or_text-≢, or_text-set, Fills, set_object_defaults_idem,
}
use kubernetes_controller_sh.Examples.Data.{at}
use kubernetes_controller_sh.Api.ControllerRing.{Requirement}
use kubernetes_controller_sh.Command.{
  Selectors, Env, Options, no_config, nil_pointer, complete, new_manager_options, load_config,
  apply_config_to_manager_options, with_leader_election, with_metrics, deref,
  apply_options_overrides, overridden,
}
use kubernetes_controller_sh.Command.Total.{Decodes, complete-nil_pointer}
use kubernetes_controller_sh.Command.Served.{Measures, complete-Measures}

abbrev or_duration : ℤ → ℤ → ℤ
or_duration d x = if eq_ℤ x (pos 0) then d else x

or_duration-≢ : (d x : ℤ) → d ≢ pos 0 → or_duration d x ≢ pos 0
or_duration-≢ d x h = ground (arith, eq_ℤ_iff x (pos 0))

or_duration-set : (d x : ℤ) → x ≢ pos 0 → or_duration d x ≡ x
or_duration-set d x h = ground (arith, eq_ℤ_iff x (pos 0))

-- Functions that fill the gaps.
abbrev pub recommended : Recommended
recommended = record {
  leader_election = λ c. record c {
    leader_elect = some (or_default true c.leader_elect);
    lease_duration = or_duration (at 15) c.lease_duration;
    renew_deadline = or_duration (at 10) c.renew_deadline;
    retry_period = or_duration (at 2) c.retry_period;
    resource_lock = or_text "leases" c.resource_lock;
  };
  debugging = λ c. record c { enable_profiling = some (or_default true c.enable_profiling) };
}

some-set : (o : Option Bool) → o ≢ none → some (or_default true o) ≡ o
unfolding or_default
some-set none h = absurd (h refl)
some-set (some b) h = refl

set : (b : Bool) → some b ≢ none
set b e = cc

recommended-Fills : Fills recommended
recommended-Fills = record {
  fills = λ c. record {
    elects = set (or_default true c.leader_elect);
    duration = or_duration-≢ (at 15) c.lease_duration (λ e. cc);
    deadline = or_duration-≢ (at 10) c.renew_deadline (λ e. cc);
    period = or_duration-≢ (at 2) c.retry_period (λ e. cc);
    lock = or_text-≢ "leases" c.resource_lock (eq_false "leases" "" refl);
  };
  keeps = λ c h.
      rw
        (
          some-set c.leader_elect h.elects,
          or_duration-set (at 15) c.lease_duration h.duration,
          or_duration-set (at 10) c.renew_deadline h.deadline,
          or_duration-set (at 2) c.retry_period h.period,
          or_text-set "leases" c.resource_lock h.lock,
        )
        refl;
  profiling = λ c. set (or_default true c.enable_profiling);
  profiling_kept = λ c h. rw (some-set c.enable_profiling h) refl;
}

set_object_defaults_idem_example :
    set_object_defaults_sharder_config recommended
      (set_object_defaults_sharder_config recommended no_config)
    ≡ set_object_defaults_sharder_config recommended no_config
set_object_defaults_idem_example = set_object_defaults_idem recommended recommended-Fills no_config

-- A configuration that asks for no metrics.
abbrev unmeasured : SharderConfig
unmeasured = record no_config { metrics = record { bind_address = "0" } }

abbrev selectors : Selectors
selectors = record {
  Selector = List Requirement;
  new_selector = [];
  add = λ s r. s ++ r ∷ [];
  matches = λ s l. true;
}

abbrev env : Env
env = record {
  read_file = λ name. ok "";
  decode_into = λ content. ok (set_object_defaults_sharder_config recommended unmeasured);
  get_config = ok (record { qps = 0; burst = pos 0 });
  lookup_env = λ name. none;
  parse_bool = λ text. err not_found;
}

ok-path : {A : Type 0} {a b : A} → ◌≡◌ {A = Result ApiError A} (ok a) (ok b) → a ≡ b
ok-path h = cc

decodes : Decodes recommended env
decodes content c h = (unmeasured, sym (ok-path h))

complete-nil_pointer_example : complete selectors recommended env "config.yaml" ≢ err nil_pointer
complete-nil_pointer_example =
    complete-nil_pointer selectors recommended env "config.yaml" recommended-Fills decodes

done : (o : Options (List Requirement)) × (complete selectors recommended env "config.yaml" ≡ ok o)
unfolding complete load_config eq_ℤ apply_config_to_manager_options with_leader_election
    with_metrics deref apply_options_overrides overridden ◌>>=◌ set_object_defaults_sharder_config
    set_defaults_sharder_config in_place set_defaults_leader_election set_defaults_metrics_endpoint
    or_text or_default
done = (_, refl)

complete-Measures_example :
    Measures done.0.config
      (new_manager_options (List Requirement)).metrics
      done.0.manager_options.metrics
complete-Measures_example = complete-Measures selectors recommended env "config.yaml" done.0 done.1
