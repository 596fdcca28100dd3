-- ===== src/Operator/Cached.antt =====
-- The objects of a website are in the cache of the shard that the website is assigned to:
-- webhosting-operator/cmd/webhosting-operator/main.go with website_controller.go.
use kubernetes_controller_sh.Base.{
  String, ◌≡◌, refl, sym, ap, ◌∙◌, ◌↔◌, List, ◌∷◌, In, ◌⊎◌, inl, inr, Bool, true, false, Option,
  none, some, [],
}
use kubernetes_controller_sh.Base.Int.{ℤ}
use kubernetes_controller_sh.Base.Map.{string_key, lookup}
use kubernetes_controller_sh.Base.Result.{
  Result, ok, wrap_err, >>=-eq-ok, >>-eq-ok, wrap_err-eq-ok, if-eq,
}
use kubernetes_controller_sh.Api.Core.{Labels, label_shard}
use kubernetes_controller_sh.Api.Client.{ApiError}
use kubernetes_controller_sh.Api.Labels.{find_label}
use kubernetes_controller_sh.Shard.LeaseLock.{LeaseLock, new_resource_lock}
use kubernetes_controller_sh.Shard.LeaseLock.Held.{MadeFrom, new_resource_lock-MadeFrom}
use mathlib.Core.Path.{subst}
use kubernetes_controller_sh.Configuration.Defaults.{Recommended}
use kubernetes_controller_sh.Command.{new_manager_options}
use kubernetes_controller_sh.Webhosting.{
  Website, webhosting_operator_name, get_labels_for_server, merge_maps,
}
use kubernetes_controller_sh.Webhosting.Merged.{or_else, lookup-merge_maps}
use kubernetes_controller_sh.Webhosting.Objects.{
  SetOwner, IngressConfiguration, mutate_config_map, mutate_service, mutate_ingress,
  mutate_deployment, apply_ingress_config_to_ingress,
}
use kubernetes_controller_sh.Operator.Options.{
  Env, Options, parsing_leader_elect, parsing_enable_sharding, creating_shard_lease,
  loading_kubeconfig, if_sharded, overridden, shard_selectors, leading, with_shard,
  apply_options_overrides, load_config, apply_config_to_options, apply_config_to_rest_config,
  complete,
}

ok-path : {E A : Type 0} {a b : A} → ◌≡◌ {A = Result E A} (ok a) (ok b) → a ≡ b
ok-path h = cc

-- Every change of an object of this kind leaves it with the label of the shard.
pub Carries : {A : Type 0} → (A → Labels) → String → (A → Result ApiError A) → Type 0
Carries {A} labels shard f =
    (old obj : A)
    → f old ≡ ok obj
    → find_label (labels obj) (label_shard webhosting_operator_name) ≡ some shard

module _ (set_owner : SetOwner) (server_name : String) (website : Website) (shard : String)
    (mine : find_label website.labels (label_shard webhosting_operator_name) ≡ some shard) where
  merged :
      (labels : Labels)
      → labels ≡ some (merge_maps website.labels (get_labels_for_server server_name website.name))
      → find_label labels (label_shard webhosting_operator_name) ≡ some shard
  unfolding find_label lookup get_labels_for_server or_else label_shard
  merged labels e =
      rw e (lookup-merge_maps website.labels _ (label_shard webhosting_operator_name) ∙ mine)

  -- For a website with the label of a shard of the operator, every change of its config map, its
  -- service, its ingress and its deployment leaves the object with that label, by which the cache
  -- of the shard selects.
  pub mutate-Carries :
      (index_html nginx_conf : String) (config : Option IngressConfiguration) (mode : ℤ)
      (checksum config_map : String)
      → Carries
          (λ k. k.labels)
          shard
          (mutate_config_map set_owner server_name website index_html nginx_conf)
        × Carries (λ k. k.labels) shard (mutate_service set_owner server_name website)
        × Carries (λ k. k.labels) shard (mutate_ingress set_owner server_name website config)
        × Carries
            (λ k. k.labels)
            shard
            (mutate_deployment set_owner server_name website mode checksum config_map)
  unfolding Carries mutate_config_map mutate_service mutate_ingress mutate_deployment
      apply_ingress_config_to_ingress
  mutate-Carries index_html nginx_conf config mode checksum config_map = (
    λ old obj h.
        let (_, _, d) = >>=-eq-ok (set_owner website old.owner_references) _ h in
        merged obj.labels (ap (λ k. k.labels) (sym (ok-path d))),
    λ old obj h.
        let (_, _, d) = >>=-eq-ok (set_owner website old.owner_references) _ h in
        merged obj.labels (ap (λ k. k.labels) (sym (ok-path d))),
    λ old obj h.
        let (_, _, d) = >>=-eq-ok (set_owner website old.owner_references) _ h in
        merged obj.labels (ap (λ k. k.labels) (sym (ok-path d))),
    λ old obj h.
        let (_, _, d) = >>=-eq-ok (set_owner website old.owner_references) _ h in
        merged obj.labels (ap (λ k. k.labels) (sym (ok-path d))),
  )

-- The kinds of the objects that the controller for websites reads.
abbrev pub cached_kinds : List String
cached_kinds = "Website" ∷ "Deployment" ∷ "ConfigMap" ∷ "Service" ∷ "Ingress" ∷ []

-- A selector of the cache for the kind fits the labels.
pub IsCached : List (String × String × String) → String → Labels → Type 0
IsCached selectors kind labels =
    (s : String × String × String) × In s selectors
    × (s.0 ≡ kind)
    × (find_label labels s.1 ≡ some s.2)

-- With sharding a leader is elected by the lock of the shard, which is made for the ring of the operator
-- and has the name of the host, and an object of a website is in the cache exactly if it has the label
-- of that shard.
pub IsSharded : Env → Options → Type 0
IsSharded env o =
    (o.enable_sharding ≡ true)
    × (o.manager_options.leader_election ≡ true)
    × ((lock : LeaseLock) × (o.lock ≡ some lock)
        × MadeFrom env.host
            (record {
              controller_ring_name = webhosting_operator_name;
              lease_namespace = "";
              shard_name = "";
            })
            lock
        × ((kind : String)
            → In kind cached_kinds
            → (labels : Labels)
            → IsCached o.by_object kind labels
              ↔ (find_label labels (label_shard webhosting_operator_name) ≡ some lock.name)))

pub IsUnsharded : Options → Type 0
IsUnsharded o = (o.enable_sharding ≡ false) × (o.lock ≡ none) × (o.by_object ≡ [])

leading-eq-ok : (b : Bool) {u : Unit {0}} → leading b ≡ ok u → b ≡ true
unfolding leading
leading-eq-ok true h = refl
leading-eq-ok false h = cc

selector_of :
    (ring_name shard_name : String) (s : String × String × String)
    → In s (shard_selectors ring_name shard_name)
    → (s.1 ≡ label_shard ring_name) × (s.2 ≡ shard_name)
unfolding shard_selectors
selector_of ring_name shard_name s (inl e) = (ap (λ x. x.1) e, ap (λ x. x.2) e)
selector_of ring_name shard_name s (inr (inl e)) = (ap (λ x. x.1) e, ap (λ x. x.2) e)
selector_of ring_name shard_name s (inr (inr (inl e))) = (ap (λ x. x.1) e, ap (λ x. x.2) e)
selector_of ring_name shard_name s (inr (inr (inr (inl e)))) = (ap (λ x. x.1) e, ap (λ x. x.2) e)
selector_of ring_name shard_name s (inr (inr (inr (inr (inl e))))) =
    (ap (λ x. x.1) e, ap (λ x. x.2) e)
selector_of ring_name shard_name s (inr (inr (inr (inr (inr m))))) = elim m [ ]

selector_for :
    (ring_name shard_name kind : String)
    → In kind cached_kinds
    → In (kind, label_shard ring_name, shard_name) (shard_selectors ring_name shard_name)
unfolding shard_selectors
selector_for ring_name shard_name kind (inl e) =
    inl (ap (λ k. (k, label_shard ring_name, shard_name)) e)
selector_for ring_name shard_name kind (inr (inl e)) =
    inr (inl (ap (λ k. (k, label_shard ring_name, shard_name)) e))
selector_for ring_name shard_name kind (inr (inr (inl e))) =
    inr (inr (inl (ap (λ k. (k, label_shard ring_name, shard_name)) e)))
selector_for ring_name shard_name kind (inr (inr (inr (inl e)))) =
    inr (inr (inr (inl (ap (λ k. (k, label_shard ring_name, shard_name)) e))))
selector_for ring_name shard_name kind (inr (inr (inr (inr (inl e))))) =
    inr (inr (inr (inr (inl (ap (λ k. (k, label_shard ring_name, shard_name)) e)))))
selector_for ring_name shard_name kind (inr (inr (inr (inr (inr m))))) = elim m [ ]

shard_selectors-IsCached :
    (ring_name shard_name kind : String) (labels : Labels)
    → In kind cached_kinds
    → IsCached (shard_selectors ring_name shard_name) kind labels
      ↔ (find_label labels (label_shard ring_name) ≡ some shard_name)
unfolding IsCached
shard_selectors-IsCached ring_name shard_name kind labels known = (
  λ (s, m, _, fits).
      let (label, value) = selector_of ring_name shard_name s m in
      sym (ap (λ l. find_label labels l) label) ∙ fits ∙ ap (λ v. some v) value,
  λ fits. (_, selector_for ring_name shard_name kind known, refl, fits),
)

with_shard-IsSharded :
    (env : Env) (o p : Options)
    → o.enable_sharding ≡ true
    → with_shard env o ≡ ok p
    → IsSharded env p
unfolding with_shard IsSharded
with_shard-IsSharded env o p e h =
    let (led, rest) = >>-eq-ok (leading o.manager_options.leader_election) _ h in
    let (lock, made, d) =
      >>=-eq-ok (wrap_err creating_shard_lease (new_resource_lock env.host _)) _ rest in
    let q = ok-path d in
    let of_ring = new_resource_lock-MadeFrom env.host _ lock (wrap_err-eq-ok _ _ made) in
    let selectors = sym (ap (λ k. k.by_object) q) in
    (
      sym (ap (λ k. k.enable_sharding) q) ∙ e,
      sym (ap (λ k. k.manager_options.leader_election) q) ∙ leading-eq-ok _ led,
      (
        lock,
        sym (ap (λ k. k.lock) q),
        of_ring,
        λ kind known labels.
            subst
              (λ b.
                IsCached b kind labels
                ↔ (find_label labels (label_shard webhosting_operator_name) ≡ some lock.name))
              (sym selectors)
              (subst
                (λ n.
                  IsCached (shard_selectors webhosting_operator_name lock.identity) kind labels
                  ↔ (find_label labels (label_shard webhosting_operator_name) ≡ some n))
                of_ring.identity_is_name
                (shard_selectors-IsCached webhosting_operator_name lock.identity kind labels
                  known)),
      ),
    )

if_sharded-Is :
    (env : Env) (o p : Options)
    → o.lock ≡ none
    → o.by_object ≡ []
    → if_sharded env o ≡ ok p
    → IsSharded env p ⊎ IsUnsharded p
unfolding if_sharded IsUnsharded
if_sharded-Is env o p l b h = elim (if-eq o.enable_sharding _ _ h) [
  | inl (t, e) ↦ inl (with_shard-IsSharded env o p t e)
  | inr (f, e) ↦
      let q = sym (ok-path e) in
      inr (ap (λ k. k.enable_sharding) q ∙ f, ap (λ k. k.lock) q ∙ l, ap (λ k. k.by_object) q ∙ b)
]

overrides :
    (env : Env) (o p : Options)
    → o.lock ≡ none
    → o.by_object ≡ []
    → apply_options_overrides env o ≡ ok p
    → IsSharded env p ⊎ IsUnsharded p
unfolding apply_options_overrides
overrides env o p l b h =
    let (elect, _, h1) =
      >>=-eq-ok
        (overridden env parsing_leader_elect (env.lookup_env "LEADER_ELECT")
          o.manager_options.leader_election)
        _ h in
    let (enable, _, h2) =
      >>=-eq-ok
        (overridden env parsing_enable_sharding (env.lookup_env "ENABLE_SHARDING")
          o.enable_sharding)
        _ h1 in
    if_sharded-Is env
      (record o {
        manager_options = record o.manager_options { leader_election = elect };
        enable_sharding = enable;
      })
      p l b h2

-- If the operator completes its options, then sharding is on, a leader is elected by a lock that is made for
-- the ring of the operator and has the name of the host, and the cache has an object of one of the five
-- kinds of a website exactly if the object has the label of the shard of that name; or sharding is off, and
-- there is neither a lock nor a selector.
pub complete-IsSharded :
    (r : Recommended) (env : Env) (config_file : String) (o : Options)
    → complete r env config_file ≡ ok o
    → IsSharded env o ⊎ IsUnsharded o
unfolding complete
complete-IsSharded r env config_file o h =
    let (config, _, h1) = >>=-eq-ok (load_config r env config_file) _ h in
    let (kube, _, h2) = >>=-eq-ok (wrap_err loading_kubeconfig env.get_config) _ h1 in
    let (manager_options, _, h3) =
      >>=-eq-ok (apply_config_to_options config (new_manager_options (Unit {0}))) _ h2 in
    overrides env
      (record {
        config = config;
        rest_config = apply_config_to_rest_config config.client_connection kube;
        manager_options = manager_options;
        enable_sharding = false;
        controller_ring_name = "";
        shard_name = "";
        lock = none;
        by_object = [];
      })
      o refl refl h3
