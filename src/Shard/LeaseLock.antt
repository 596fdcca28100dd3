-- ===== src/Shard/LeaseLock.antt =====
-- pkg/shard/lease/lease.go: the lock that a shard holds, a Lease with labels.
pub mod Held
use kubernetes_controller_sh.Base.{
  String, ◌<>◌, ◌==◌, eq_iff, eq_refl, ◌≡◌, ◌≢◌, refl, sym, ap, ◌∙◌, ◌⊎◌, inl, inr, Bool, true,
  false, Option, none, some, List, [], ◌∷◌, if◌then◌else◌, Bool-cases, arith,
}
use kubernetes_controller_sh.Base.Int.{ℤ}
use kubernetes_controller_sh.Base.Map.{Map, string_key, lookup}
use kubernetes_controller_sh.Base.Result.{
  Result, ok, err, ◌>>=◌, ◌>>◌, Result-cases, >>=-eq-ok, >>-eq-ok,
}
use kubernetes_controller_sh.Api.Core.{Lease, LeaseSpec, ObjectMeta, Labels, label_controller_ring}
use kubernetes_controller_sh.Api.Labels.{find_label, set_label, find_label-set_label}
use kubernetes_controller_sh.Api.Client.{ApiError}

pub record Options : Type 0 where
  pub controller_ring_name : String
  pub lease_namespace : String
  pub shard_name : String

pub data LockError : Type 0 where
  constructing_client getting_hostname : ApiError → LockError
  controller_ring_name_required : LockError
  not_in_cluster : LockError
  checking_namespace_file loading_namespace_file : ApiError → LockError
  lease_not_initialized : LockError
  request marshalling : ApiError → LockError

-- The lock without its client; `lease` is the field that the last request left.
pub record LeaseLock : Type 0 where
  pub namespace : String
  pub name : String
  pub identity : String
  pub labels : List (String × String)
  pub lease : Option Lease

-- The file system: whether the namespace file is there, and its content.
pub data Stat : Type 0 where
  exists not_exists : Stat
  stat_error : ApiError → Stat

-- What the operating system and the client constructor answer.
pub record Host : Type 0 where
  pub new_client : Result ApiError (Unit {0})
  pub hostname : Result ApiError String
  pub stat : Stat
  pub read_file : Result ApiError String

wrapped : {A : Type 0} → (ApiError → LockError) → Result ApiError A → Result LockError A
wrapped w (ok a) = ok a
wrapped w (err e) = err (w e)

in_cluster_namespace : Result ApiError String → Stat → Result LockError String
unfolding wrapped
in_cluster_namespace file not_exists = err not_in_cluster
in_cluster_namespace file (stat_error e) = err (checking_namespace_file e)
in_cluster_namespace file exists = wrapped loading_namespace_file file

unfoldable pub get_in_cluster_namespace : Host → Result LockError String
unfolding in_cluster_namespace
get_in_cluster_namespace host = in_cluster_namespace host.read_file host.stat

unfoldable pub required : String → Result LockError (Unit {0})
required name = if name == "" then err controller_ring_name_required else ok tt

-- An option that is empty is taken from the host.
or_default : String → Result LockError String → Result LockError String
or_default s default = if s == "" then default else ok s

unfoldable pub new_resource_lock : Host → Options → Result LockError LeaseLock
unfolding wrapped or_default
new_resource_lock host options = do
  wrapped constructing_client host.new_client
  required options.controller_ring_name
  shard_name ← or_default options.shard_name (wrapped getting_hostname host.hostname)
  lease_namespace ← or_default options.lease_namespace (get_in_cluster_namespace host)
  ok (record {
    namespace = lease_namespace;
    name = shard_name;
    identity = shard_name;
    labels = (label_controller_ring, options.controller_ring_name) ∷ [];
    lease = none;
  })

-- `mergeLabels`
unfoldable pub merge_labels : Labels → List (String × String) → Labels
merge_labels labels [] = labels
merge_labels labels ((k, v) ∷ rest) = merge_labels (set_label labels k v) rest

marshalled : {R : Type 0} → R → Result ApiError String → Result LockError (R × String)
marshalled answer (ok bytes) = ok (answer, bytes)
marshalled answer (err e) = err (marshalling e)

-- `Get`, with client-go's record of a spec, its marshalling, and the answer of the API server.
unfoldable pub get :
    {R : Type 0}
    → (LeaseSpec → R)
    → (R → Result ApiError String)
    → LeaseLock
    → Result ApiError Lease
    → Result LockError (R × String) × LeaseLock
unfolding marshalled
get of_spec marshal ll (err e) = (err (request e), ll)
get of_spec marshal ll (ok lease) =
    let r = of_spec lease.spec in (marshalled r (marshal r), record ll { lease = some lease })

-- The lease that `Create` asks for; the other fields of its metadata are unset.
unfoldable pub created_lease : LeaseLock → LeaseSpec → Lease
created_lease ll spec = record {
  meta = record {
    name = ll.name;
    namespace = ll.namespace;
    generate_name = "";
    resource_version = "";
    labels = some ll.labels;
    owner_references = [];
  };
  spec = spec;
}

-- `Create`: the client's two results are the new field and the error.
unfoldable pub create :
    LeaseLock → LeaseSpec → (Lease → Option Lease × Option ApiError) → Option ApiError × LeaseLock
create ll spec client_create =
    let answer = client_create (created_lease ll spec) in (answer.1, record ll { lease = answer.0 })

-- `Update` writes into the lease that it holds, before the request.
unfoldable pub updated_lease : LeaseLock → LeaseSpec → Lease → Lease
updated_lease ll spec lease = record {
  meta = record lease.meta { labels = merge_labels lease.meta.labels ll.labels };
  spec = spec;
}

sent : LeaseLock → Lease → Result ApiError Lease → Option LockError × LeaseLock
sent ll lease (err e) = (some (request e), record ll { lease = some lease })
sent ll lease (ok answer) = (none, record ll { lease = some answer })

held :
    LeaseLock
    → LeaseSpec
    → (Lease → Result ApiError Lease)
    → Option Lease
    → Option LockError × LeaseLock
unfolding sent
held ll spec client_update none = (some lease_not_initialized, ll)
held ll spec client_update (some lease) =
    let updated = updated_lease ll spec lease in sent ll updated (client_update updated)

unfoldable pub update :
    LeaseLock → LeaseSpec → (Lease → Result ApiError Lease) → Option LockError × LeaseLock
unfolding held
update ll spec client_update = held ll spec client_update ll.lease

unfoldable pub describe : LeaseLock → String
describe ll = ll.namespace <> "/" <> ll.name
