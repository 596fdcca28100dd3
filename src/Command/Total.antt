-- ===== src/Command/Total.antt =====
-- cmd/sharder/app/options.go: the configuration, once its defaults are set, is complete.
use kubernetes_controller_sh.Base.{
  String, ◌==◌, ◌≡◌, ◌≢◌, refl, sym, ap, ◌∙◌, Bool, true, false, inl, inr, Option, none, some,
  if◌then◌else◌,
}
use kubernetes_controller_sh.Base.Result.{
  Result, ok, err, ◌>>=◌, wrap_err, >>=-eq-ok, wrap_err-eq-ok, if-eq,
}
use kubernetes_controller_sh.Api.Client.{ApiError}
use kubernetes_controller_sh.Configuration.{
  SharderConfig, LeaderElectionConfiguration, DebuggingConfiguration,
}
use kubernetes_controller_sh.Configuration.Defaults.{
  Recommended, no_debugging, or_default, set_object_defaults_sharder_config,
  set_defaults_sharder_config, set_defaults_debugging, in_place,
}
use kubernetes_controller_sh.Configuration.Defaults.Idempotent.{Fills, leader_election-IsFilled}
use kubernetes_controller_sh.Command.{
  Failure, nil_pointer, reading_config, decoding_config, loading_kubeconfig, parsing_leader_elect,
  Selectors, Env, ManagerOptions, deref, with_leader_election, profiling, with_metrics, measured,
  apply_config_to_manager_options, apply_options_overrides, apply_cache_options, overridden,
  load_config, complete, new_manager_options, no_config,
}

-- The decoder documents that it applies the defaults of the scheme.
abbrev pub Decodes : Recommended → Env → Type 0
Decodes r env =
    (content : String) (c : SharderConfig)
    → env.decode_into content ≡ ok c
    → (raw : SharderConfig) × (c ≡ set_object_defaults_sharder_config r raw)

Succeeds : {A : Type 0} → Result Failure A → Type 0
Succeeds {A} m = (a : A) × (m ≡ ok a)

>>=-Succeeds :
    {A B : Type 0} (m : Result Failure A) (f : A → Result Failure B)
    → Succeeds m
    → ((a : A) → Succeeds (f a))
    → Succeeds (m >>= f)
unfolding Succeeds ◌>>=◌
>>=-Succeeds m f (a, e) h = let (b, d) = h a in (b, rw e d)

if-Succeeds :
    {A : Type 0} (b : Bool) (x y : Result Failure A)
    → Succeeds x
    → Succeeds y
    → Succeeds (if b then x else y)
if-Succeeds true x y h g = h
if-Succeeds false x y h g = g

deref-Succeeds : {A : Type 0} (o : Option A) → o ≢ none → Succeeds (deref o)
unfolding Succeeds deref
deref-Succeeds none h = absurd (h refl)
deref-Succeeds (some a) h = (a, refl)

contention-set :
    (r : Recommended) (d : DebuggingConfiguration)
    → (set_defaults_debugging r d).enable_contention_profiling ≢ none
unfolding set_defaults_debugging
contention-set r d e = cc

profiling-Succeeds :
    (d : DebuggingConfiguration)
    → d.enable_profiling ≢ none
    → d.enable_contention_profiling ≢ none
    → Succeeds (profiling (some d))
unfolding profiling deref ◌>>=◌ Succeeds
profiling-Succeeds d h g =
    >>=-Succeeds (deref d.enable_profiling) _ (deref-Succeeds d.enable_profiling h) (λ enabled.
      if-Succeeds enabled _ _
        (>>=-Succeeds (deref d.enable_contention_profiling) _
          (deref-Succeeds d.enable_contention_profiling g) (λ contention. (_, refl)))
        (_, refl))

module _ {S : Type 0} where
  with_leader_election-Succeeds :
      (c : LeaderElectionConfiguration) (m : ManagerOptions S)
      → c.leader_elect ≢ none
      → Succeeds (with_leader_election (some c) m)
  unfolding with_leader_election Succeeds
  with_leader_election-Succeeds c m h =
      >>=-Succeeds (deref c.leader_elect) _ (deref-Succeeds c.leader_elect h) (λ a. (_, refl))

  with_metrics-Succeeds :
      (c : SharderConfig) (m : ManagerOptions S)
      → Succeeds (profiling c.debugging)
      → Succeeds (with_metrics c m)
  unfolding with_metrics measured Succeeds
  with_metrics-Succeeds c m p =
      if-Succeeds (c.metrics.bind_address == "0") _ _ (_, refl)
        (>>=-Succeeds (profiling c.debugging) _ p (λ _. (_, refl)))

  apply-Succeeds :
      (r : Recommended) (raw : SharderConfig) (m : ManagerOptions S)
      → Fills r
      → Succeeds (apply_config_to_manager_options (set_object_defaults_sharder_config r raw) m)
  unfolding apply_config_to_manager_options set_object_defaults_sharder_config
      set_defaults_sharder_config set_defaults_debugging in_place Succeeds
  apply-Succeeds r raw m f =
      let d = or_default no_debugging raw.debugging in
      >>=-Succeeds _ _ (with_leader_election-Succeeds _ m (leader_election-IsFilled r f _).elects)
        (λ elected.
          >>=-Succeeds _ _
            (with_metrics-Succeeds (set_object_defaults_sharder_config r raw) _ (
              profiling-Succeeds (set_defaults_debugging r d) (f.profiling d) (contention-set r d)))
            (λ _. (_, refl)))

Safe : {A : Type 0} → Result Failure A → Type 0
Safe m = m ≢ err nil_pointer

err-path : {A : Type 0} {e d : Failure} → ◌≡◌ {A = Result Failure A} (err e) (err d) → e ≡ d
err-path h = cc

>>=-Safe :
    {A B : Type 0} (m : Result Failure A) (f : A → Result Failure B)
    → Safe m
    → ((a : A) → m ≡ ok a → Safe (f a))
    → Safe (m >>= f)
unfolding Safe ◌>>=◌
>>=-Safe (ok a) f h g = g a refl
>>=-Safe (err e) f h g = λ d. h (ap err (err-path d))

if-Safe :
    {A : Type 0} (b : Bool) (x y : Result Failure A) → Safe x → Safe y → Safe (if b then x else y)
if-Safe true x y h g = h
if-Safe false x y h g = g

ok-Safe : {A : Type 0} (a : A) → Safe (ok a)
unfolding Safe
ok-Safe a = λ e. cc

Succeeds-Safe : {A : Type 0} (m : Result Failure A) → Succeeds m → Safe m
unfolding Safe Succeeds
Succeeds-Safe m (a, e) d = absurd (ok-Safe a (sym e ∙ d))

wrap_err-Safe :
    {A : Type 0} (w : ApiError → Failure) (m : Result ApiError A)
    → ((e : ApiError) → w e ≢ nil_pointer)
    → Safe (wrap_err w m)
unfolding Safe
wrap_err-Safe w (ok a) h = ok-Safe a
wrap_err-Safe w (err e) h = λ d. h e (err-path d)

load_config-Safe :
    (r : Recommended) (env : Env) (config_file : String) → Safe (load_config r env config_file)
unfolding load_config
load_config-Safe r env config_file = if-Safe (config_file == "") _ _ (ok-Safe _) (
    >>=-Safe (wrap_err reading_config (env.read_file config_file)) _
      (wrap_err-Safe reading_config (env.read_file config_file) (λ e d. cc))
      (λ content e. wrap_err-Safe decoding_config (env.decode_into content) (λ e d. cc)))

-- Every configuration that is loaded has its defaults.
pub load_config-eq-ok :
    (r : Recommended) (env : Env) (config_file : String) (c : SharderConfig)
    → Decodes r env
    → load_config r env config_file ≡ ok c
    → (raw : SharderConfig) × (c ≡ set_object_defaults_sharder_config r raw)
unfolding load_config
load_config-eq-ok r env config_file c d h = elim (if-eq (config_file == "") _ _ h) [
  | inl (_, e) ↦ (no_config, cc)
  | inr (_, e) ↦
      let (content, read, decoded) =
        >>=-eq-ok (wrap_err reading_config (env.read_file config_file))
          (λ content. wrap_err decoding_config (env.decode_into content)) e in
      d content c (wrap_err-eq-ok decoding_config (env.decode_into content) decoded)
]

overridden-Safe :
    {S : Type 0} (env : Env) (text : Option String) (m : ManagerOptions S)
    → Safe (overridden env text m)
unfolding overridden
overridden-Safe env none m = ok-Safe m
overridden-Safe env (some text) m =
    >>=-Safe (wrap_err parsing_leader_elect (env.parse_bool text)) _
      (wrap_err-Safe parsing_leader_elect (env.parse_bool text) (λ e d. cc)) (λ elect e. ok-Safe _)

overrides-Safe :
    {S : Type 0} (env : Env) (m : ManagerOptions S) → Safe (apply_options_overrides env m)
unfolding apply_options_overrides
overrides-Safe env m = overridden-Safe env (env.lookup_env "LEADER_ELECT") m

-- Completing the options never dereferences a nil pointer: a configuration has its defaults when it
-- is used. (The defaults of component-base fill what is not set, and the decoder applies the
-- defaults.)
pub complete-nil_pointer :
    (s : Selectors) (r : Recommended) (env : Env) (config_file : String)
    → Fills r
    → Decodes r env
    → complete s r env config_file ≢ err nil_pointer
unfolding complete Safe
complete-nil_pointer s r env config_file f d =
    >>=-Safe (load_config r env config_file) _ (load_config-Safe r env config_file) (λ c e.
      let (raw, defaulted) = load_config-eq-ok r env config_file c d e in
      let applied = Succeeds-Safe _ (apply-Succeeds r raw (new_manager_options s.Selector) f) in
      >>=-Safe _ _ (wrap_err-Safe loading_kubeconfig env.get_config (λ e d. cc)) (λ rest _.
        >>=-Safe (apply_config_to_manager_options c (new_manager_options s.Selector)) _
          (rw defaulted applied)
          (λ o _.
            >>=-Safe (apply_options_overrides env (apply_cache_options s o.0)) _
              (overrides-Safe env (apply_cache_options s o.0)) (λ m _. ok-Safe _))))
