-- ===== src/Checksum/Safe.antt =====
-- cmd/checksum-controller/reconciler.go behind pkg/shard/controller: the labels of the secret.
use kubernetes_controller_sh.Base.{◌≡◌, ◌≢◌, refl, sym, ◌∙◌, none, some, String, List, []}
use kubernetes_controller_sh.Base.Map.{string_key, insert}
use kubernetes_controller_sh.Base.Result.{Result, ok, err}
use kubernetes_controller_sh.Api.Core.{Object, Labels, OwnerReference, label_shard}
use kubernetes_controller_sh.Api.Client.{ApiError}
use kubernetes_controller_sh.Api.Labels.{find_label}
use kubernetes_controller_sh.Shard.Controller
use kubernetes_controller_sh.Shard.Controller.{Identity, delegated}
use kubernetes_controller_sh.Shard.Responsible.{reconcile-delegated}
use kubernetes_controller_sh.Checksum.{
  Secret, ConfigMap, Env, panicked, assign, wanted_config_map, with_owners, with_labels,
  with_secret, reconcile,
}

with_owners-panicked :
    (env : Env) (wanted : ConfigMap) (owners : Result ApiError (List OwnerReference))
    → with_owners env wanted owners ≢ panicked
unfolding with_owners
with_owners-panicked env wanted (ok owners) h = cc
with_owners-panicked env wanted (err e) h = cc

assigned-panicked :
    (env : Env) (secret : Secret) (labels : Labels) (key shard : String)
    → find_label labels key ≡ some shard
    → with_labels env secret (assign labels "secret" secret.name) ≢ panicked
unfolding find_label assign with_labels
assigned-panicked env secret none key shard f h = cc
assigned-panicked env secret (some m) key shard f h =
    with_owners-panicked env (wanted_config_map env secret (insert "secret" secret.name m))
      (env.set_owner secret []) h

-- The example controller does not write to a nil map of labels where a shard delegates to it, since
-- an object that is delegated has a label. (The secret has the labels of the object that the shard
-- read.)
pub reconcile-panicked :
    (shard : Controller.Env) (r : Identity) (obj : Object) (env : Env) (secret : Secret)
    → shard.get ≡ ok obj
    → env.get ≡ ok secret
    → obj.meta.labels ≡ secret.labels
    → (Controller.reconcile shard r).1 ≡ delegated
    → reconcile env ≢ panicked
unfolding reconcile with_secret
reconcile-panicked shard r obj env secret g s same d h =
    let mine = ((reconcile-delegated shard r obj g).0 d).0 in
    assigned-panicked env secret secret.labels (label_shard r.controller_ring_name) r.shard_name
      (rw (sym same) mine) (sym (rw s refl) ∙ h)
