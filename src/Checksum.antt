-- ===== src/Checksum.antt =====
-- cmd/checksum-controller/reconciler.go: an example controller, which a shard runs.
pub mod Created
pub mod Safe
use kubernetes_controller_sh.Base.{
  String, ◌<>◌, Bool, true, false, Option, none, some, List, [], ◌∷◌, if◌then◌else◌,
}
use kubernetes_controller_sh.Base.Map.{Map, string_key, insert}
use kubernetes_controller_sh.Base.Result.{Result, ok, err}
use kubernetes_controller_sh.Api.Core.{Labels, OwnerReference}
use kubernetes_controller_sh.Api.Client.{ApiError, is_not_found}

-- The bytes of a value are a text.
pub record Secret : Type 0 where
  pub name : String
  pub namespace : String
  pub labels : Labels
  pub content : Map String String

pub record ConfigMap : Type 0 where
  pub name : String
  pub namespace : String
  pub labels : Labels
  pub owner_references : List OwnerReference
  pub content : Map String String

-- The client, the libraries, and the sum in hexadecimal digits.
pub record Env : Type 0 where
  pub get : Result ApiError Secret
  pub set_owner : Secret → List OwnerReference → Result ApiError (List OwnerReference)
  pub create : ConfigMap → Option ApiError
  pub is_already_exists : ApiError → Bool
  pub sha256_hex : String → String

-- `panicked` is the panic of a write to a nil map; `created` has the error that is returned.
pub data Outcome : Type 0 where
  gone panicked : Outcome
  retrieving_failed owning_failed : ApiError → Outcome
  created : ConfigMap → Option ApiError → Outcome

-- `labels[key] = v`
unfoldable pub assign : Labels → String → String → Option (Map String String)
assign none key v = none
assign (some m) key v = some (insert key v m)

-- The loop over the data: each key is there once.
unfoldable pub checksums : (String → String) → Map String String → Map String String
checksums sum [] = []
checksums sum ((k, d) ∷ rest) = insert k (sum d) (checksums sum rest)

-- `client.IgnoreAlreadyExists`
unfoldable pub ignore_already_exists : (ApiError → Bool) → Option ApiError → Option ApiError
ignore_already_exists is_exists none = none
ignore_already_exists is_exists (some e) = if is_exists e then none else some e

unfoldable pub with_owners : Env → ConfigMap → Result ApiError (List OwnerReference) → Outcome
unfolding ignore_already_exists
with_owners env config_map (err e) = owning_failed e
with_owners env config_map (ok owners) =
    let owned = record config_map { owner_references = owners } in
    created owned (ignore_already_exists env.is_already_exists (env.create owned))

-- The config map that is asked for, with the labels that it gets.
unfoldable pub wanted_config_map : Env → Secret → Map String String → ConfigMap
unfolding checksums
wanted_config_map env secret labels = record {
  name = "checksums-" <> secret.name;
  namespace = secret.namespace;
  labels = some labels;
  owner_references = [];
  content = checksums env.sha256_hex secret.content;
}

unfoldable pub with_labels : Env → Secret → Option (Map String String) → Outcome
unfolding wanted_config_map with_owners
with_labels env secret none = panicked
with_labels env secret (some labels) =
    with_owners env (wanted_config_map env secret labels) (env.set_owner secret [])

unfoldable pub with_secret : Env → Result ApiError Secret → Outcome
unfolding assign with_labels
with_secret env (err e) = if is_not_found e then gone else retrieving_failed e
with_secret env (ok secret) = with_labels env secret (assign secret.labels "secret" secret.name)

unfoldable pub reconcile : Env → Outcome
unfolding with_secret
reconcile env = with_secret env env.get

-- The predicate on updates, with `DeepEqual` of the data.
unfoldable pub secret_data_changed : {D : Type 0} → (D → D → Bool) → D → D → Bool
secret_data_changed deep_equal old new = deep_equal old new
