-- ===== src/Shard/LeaseLock/Held.antt =====
-- A lock that a shard holds: its name, its labels, and what its lease says of the shard.
use kubernetes_controller_sh.Base.{
  String, ◌==◌, eq_iff, ◌≡◌, ◌≢◌, refl, none, some, [], ◌∷◌, if◌then◌else◌, arith,
}
use kubernetes_controller_sh.Base.Map.{string_key}
use kubernetes_controller_sh.Base.Result.{Result, ok, err, >>=-eq-ok, >>-eq-ok}
use mathlib.Core.Path.{subst}
use kubernetes_controller_sh.Api.Core.{Lease, LeaseSpec, label_controller_ring}
use kubernetes_controller_sh.Api.Labels.{find_label, find_label-set_label}
use kubernetes_controller_sh.Api.Client.{ApiError}
use kubernetes_controller_sh.Shard.LeaseLock.{
  Options, LockError, LeaseLock, Host, required, wrapped, or_default, new_resource_lock,
  merge_labels, updated_lease, get_in_cluster_namespace,
}

-- What a lock is made of: the shard's name names the lease and is the identity, and the only label is
-- the ring's name, which is not empty.
pub record MadeFrom (host : Host) (options : Options) (ll : LeaseLock) : Type 0 where
  pub ring_named : options.controller_ring_name ≢ ""
  pub identity_is_name : ll.identity ≡ ll.name
  pub name_given : options.shard_name ≢ "" → ll.name ≡ options.shard_name
  pub name_default : options.shard_name ≡ "" → host.hostname ≡ ok ll.name
  pub namespace_given : options.lease_namespace ≢ "" → ll.namespace ≡ options.lease_namespace
  pub namespace_default :
      options.lease_namespace ≡ "" → get_in_cluster_namespace host ≡ ok ll.namespace
  pub labels_lem : ll.labels ≡ (label_controller_ring, options.controller_ring_name) ∷ []
  pub nothing_held : ll.lease ≡ none

required-eq-ok : (s : String) → required s ≡ ok tt → s ≢ ""
unfolding required
required-eq-ok s h = ground (arith, eq_iff s "")

or_default_given :
    (s v : String) (d : Result LockError String) → or_default s d ≡ ok v → s ≢ "" → v ≡ s
unfolding or_default
or_default_given s v d h ne = ground (arith, eq_iff s "")

or_default_empty :
    (s v : String) (d : Result LockError String) → or_default s d ≡ ok v → s ≡ "" → d ≡ ok v
unfolding or_default
or_default_empty s v d h e = ground (arith, eq_iff s "")

wrapped-eq-ok :
    {A : Type 0} (w : ApiError → LockError) (r : Result ApiError A) (a : A)
    → wrapped w r ≡ ok a
    → r ≡ ok a
unfolding wrapped
wrapped-eq-ok w (ok b) a h = cc
wrapped-eq-ok w (err e) a h = cc

ok_inj : (x y : LeaseLock) → ◌≡◌ {A = Result LockError LeaseLock} (ok x) (ok y) → x ≡ y
ok_inj x y h = cc

-- A lock that `NewResourceLock` returns names its lease, and identifies the shard, by the given
-- shard name or else by the host name, stands in the given namespace or else in that of the
-- namespace file, has the name of the ring as its only label, which is not empty, and holds no
-- lease yet.
pub new_resource_lock-MadeFrom :
    (host : Host) (options : Options) (ll : LeaseLock)
    → new_resource_lock host options ≡ ok ll
    → MadeFrom host options ll
unfolding new_resource_lock
new_resource_lock-MadeFrom host options ll h =
    let (_, h1) = >>-eq-ok _ _ h in
    let (e2, h2) = >>-eq-ok _ _ h1 in
    let (name, e3, h3) = >>=-eq-ok _ _ h2 in
    let (namespace, e4, h4) = >>=-eq-ok _ _ h3 in
    subst (MadeFrom host options) (ok_inj _ _ h4) (record {
      ring_named = required-eq-ok _ e2;
      identity_is_name = refl;
      name_given = or_default_given _ _ _ e3;
      name_default = λ e. wrapped-eq-ok _ _ _ (or_default_empty _ _ _ e3 e);
      namespace_given = or_default_given _ _ _ e4;
      namespace_default = or_default_empty _ _ _ e4;
      labels_lem = refl;
      nothing_held = refl;
    })

-- An update of a lock whose only label is that of its ring sets that label of the lease and keeps
-- all others.
pub updated_lease-labels :
    (ll : LeaseLock) (spec : LeaseSpec) (lease : Lease) (ring j : String)
    → ll.labels ≡ (label_controller_ring, ring) ∷ []
    → find_label (updated_lease ll spec lease).meta.labels j
      ≡ (if label_controller_ring == j then some ring else find_label lease.meta.labels j)
unfolding updated_lease merge_labels
updated_lease-labels ll spec lease ring j h =
    rw h (find_label-set_label lease.meta.labels label_controller_ring j ring)
