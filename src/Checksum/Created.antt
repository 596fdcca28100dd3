-- ===== src/Checksum/Created.antt =====
-- cmd/checksum-controller/reconciler.go: the config map that is created.
use kubernetes_controller_sh.Base.{
  String, ◌<>◌, ◌==◌, ◌≡◌, refl, sym, ap, ◌∙◌, Bool, true, false, Option, none, some, List, [], ◌∷◌,
  if◌then◌else◌,
}
use kubernetes_controller_sh.Base.Map.{Map, string_key, lookup, lookup-insert}
use kubernetes_controller_sh.Base.Result.{Result, ok, err}
use kubernetes_controller_sh.Api.Core.{Labels, OwnerReference}
use kubernetes_controller_sh.Api.Client.{ApiError}
use kubernetes_controller_sh.Api.Labels.{find_label}
use kubernetes_controller_sh.Checksum.{
  Secret, ConfigMap, Env, created, assign, checksums, wanted_config_map, with_owners, with_labels,
  with_secret, reconcile,
}

pub mapped : (String → String) → Option String → Option String
mapped f none = none
mapped f (some v) = some (f v)

lookup-checksums :
    (sum : String → String) (m : Map String String) (k : String)
    → lookup k (checksums sum m) ≡ mapped sum (lookup k m)
unfolding checksums lookup mapped
lookup-checksums sum [] k = refl
lookup-checksums sum ((j, d) ∷ rest) k =
    lookup-insert j k (sum d) (checksums sum rest) ∙ go (j == k) (lookup-checksums sum rest k)
  where
    go :
        (b : Bool) {x : Option String}
        → x ≡ mapped sum (lookup k rest)
        → (if b then some (sum d) else x) ≡ mapped sum (if b then some d else lookup k rest)
    go true e = refl
    go false e = e

some-path : {A : Type 0} {a b : A} → some a ≡ some b → a ≡ b
some-path h = cc

created-path : {a b : ConfigMap} {d e : Option ApiError} → created a d ≡ created b e → a ≡ b
created-path h = cc

-- What the config map of a secret shows.
pub record Shows (sum : String → String) (secret : Secret) (config_map : ConfigMap) : Type 0 where
  pub named : config_map.name ≡ "checksums-" <> secret.name
  pub placed : config_map.namespace ≡ secret.namespace
  pub sums : (k : String) → lookup k config_map.content ≡ mapped sum (lookup k secret.content)
  pub labelled :
      (k : String)
      → find_label config_map.labels k
        ≡ (if "secret" == k then some secret.name else find_label secret.labels k)

assign-Shows :
    (labels : Labels) (v : String) (m : Map String String) (k : String)
    → assign labels "secret" v ≡ some m
    → lookup k m ≡ (if "secret" == k then some v else find_label labels k)
unfolding assign find_label
assign-Shows none v m k h = cc
assign-Shows (some labels) v m k h =
    let e = some-path h in rw (sym e) (lookup-insert "secret" k v labels)

with_owners-created :
    (env : Env) (wanted config_map : ConfigMap) (owners : Result ApiError (List OwnerReference))
    (e : Option ApiError)
    → with_owners env wanted owners ≡ created config_map e
    → (config_map.name ≡ wanted.name)
      × (config_map.namespace ≡ wanted.namespace)
      × (config_map.content ≡ wanted.content)
      × (config_map.labels ≡ wanted.labels)
unfolding with_owners
with_owners-created env wanted config_map (err x) e h = cc
with_owners-created env wanted config_map (ok owners) e h =
    let p = sym (created-path h) in
    (ap (λ k. k.name) p, ap (λ k. k.namespace) p, ap (λ k. k.content) p, ap (λ k. k.labels) p)

with_labels-Shows :
    (env : Env) (secret : Secret) (config_map : ConfigMap) (labels : Option (Map String String))
    (e : Option ApiError)
    → assign secret.labels "secret" secret.name ≡ labels
    → with_labels env secret labels ≡ created config_map e
    → Shows env.sha256_hex secret config_map
unfolding with_labels wanted_config_map find_label
with_labels-Shows env secret config_map none e a h = cc
with_labels-Shows env secret config_map (some labels) e a h =
    let (named, placed, content, labelled) =
      with_owners-created env (wanted_config_map env secret labels) config_map
        (env.set_owner secret []) e h in
    record {
      named = named;
      placed = placed;
      sums = λ k. rw content (lookup-checksums env.sha256_hex secret.content k);
      labelled = λ k. rw labelled (assign-Shows secret.labels secret.name labels k a);
    }

-- A config map that is created has the name, the namespace and the labels of its secret, with the
-- name of the secret as one more label, and the sum of each of its values.
pub reconcile-Shows :
    (env : Env) (secret : Secret) (config_map : ConfigMap) (e : Option ApiError)
    → env.get ≡ ok secret
    → reconcile env ≡ created config_map e
    → Shows env.sha256_hex secret config_map
unfolding reconcile with_secret
reconcile-Shows env secret config_map e g h =
    with_labels-Shows env secret config_map _ e refl (sym (rw g refl) ∙ h)
