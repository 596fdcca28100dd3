-- ===== src/Sharding/Predicate.antt =====
-- pkg/sharding/predicate, and the lease predicates of the three controllers (pkg/controller/*/add.go).
pub mod Decides
use kubernetes_controller_sh.Base.{
  String, ◌==◌, ◌≡◌, Bool, true, false, Option, none, some, List, [], ◌∷◌, not, ◌&&◌, ◌||◌, eqb,
}
use kubernetes_controller_sh.Base.Int.{ℤ}
use kubernetes_controller_sh.Api.Core.{Lease, ObjectMeta, label_controller_ring}
use kubernetes_controller_sh.Api.Labels.{get_label}
use kubernetes_controller_sh.Leases.{ShardState, ordinal, is_available, to_state}

-- client.Object, as far as the type assertions tell objects apart.
pub data ClientObject : Type 0 where
  lease : Lease → ClientObject
  other : ObjectMeta → ClientObject

abbrev pub meta_of : ClientObject → ObjectMeta
meta_of (lease l) = l.meta
meta_of (other m) = m

-- The events of controller-runtime; a deletion says whether its final state is unknown.
pub data Event : Type 0 where
  create : ClientObject → Event
  update : ClientObject → ClientObject → Event
  delete : ClientObject → Bool → Event
  generic : ClientObject → Event

abbrev pub Predicate : Type 0
Predicate = Event → Bool

-- predicate.Funcs; a nil function lets its events pass.
pub record Funcs : Type 0 where
  pub create_func : Option (ClientObject → Bool)
  pub update_func : Option (ClientObject → ClientObject → Bool)
  pub delete_func : Option (ClientObject → Bool → Bool)
  pub generic_func : Option (ClientObject → Bool)

-- The package predicate of controller-runtime: `Funcs`, `NewPredicateFuncs`, `And`, `Or` and
-- `GenerationChangedPredicate`.
pub record PredicateLib : Type 0 where
  pub funcs : Funcs → Predicate
  pub new_predicate_funcs : (ClientObject → Bool) → Predicate
  pub all_of : List Predicate → Predicate
  pub any_of : List Predicate → Predicate
  pub generation_changed : Predicate

unfoldable pub is_shard_lease_object : ClientObject → Bool
is_shard_lease_object (lease l) = not (get_label l.meta.labels label_controller_ring == "")
is_shard_lease_object (other m) = false

unfoldable pub state_changed : ℤ → ClientObject → ClientObject → Bool
state_changed now (lease old) (lease new) =
    not (eqb (ordinal (to_state old now)) (ordinal (to_state new now)))
state_changed now _ _ = false

bool_eq : Bool → Bool → Bool
bool_eq true b = b
bool_eq false b = not b

unfoldable pub available_at : ℤ → ClientObject → Bool
available_at now (lease l) = is_available (to_state l now)
available_at now (other m) = false

unfoldable pub availability_differs : ℤ → ClientObject → ClientObject → Bool
unfolding bool_eq
availability_differs now (lease old) (lease new) =
    not (bool_eq (is_available (to_state old now)) (is_available (to_state new now)))
availability_differs now _ _ = false

-- On a missed deletion the final state is not known, and the event passes.
unfoldable pub deleted_available : ℤ → ClientObject → Bool → Bool
deleted_available now (lease l) state_unknown = state_unknown || is_available (to_state l now)
deleted_available now (other m) state_unknown = false

module _ (lib : PredicateLib) where
  unfoldable pub is_shard_lease : Predicate
  is_shard_lease = lib.new_predicate_funcs is_shard_lease_object

  unfoldable pub shard_lease_state_changed : ℤ → Predicate
  shard_lease_state_changed now = lib.funcs (record {
    create_func = none;
    update_func = some (state_changed now);
    delete_func = none;
    generic_func = none;
  })

  unfoldable pub shard_lease_availability_changed : ℤ → Predicate
  shard_lease_availability_changed now = lib.funcs (record {
    create_func = some (available_at now);
    update_func = some (availability_differs now);
    delete_func = some (deleted_available now);
    generic_func = none;
  })

  unfoldable pub controller_ring_created_or_updated : Predicate
  controller_ring_created_or_updated = lib.all_of (
      lib.generation_changed
      ∷ lib.funcs (record {
        create_func = some (λ _. true);
        update_func = some (λ _ _. true);
        delete_func = some (λ _ _. false);
        generic_func = none;
      })
      ∷ [])

  -- pkg/controller/controllerring/add.go
  unfoldable pub controllerring_lease_predicate : ℤ → Predicate
  unfolding is_shard_lease shard_lease_availability_changed
  controllerring_lease_predicate now = lib.all_of (
      is_shard_lease
      ∷ lib.any_of (
          lib.funcs (record {
            create_func = some (λ _. true);
            update_func = some (λ _ _. false);
            delete_func = some (λ _ _. true);
            generic_func = none;
          })
          ∷ shard_lease_availability_changed now
          ∷ [])
      ∷ [])

  -- pkg/controller/shardlease/add.go
  unfoldable pub shardlease_lease_predicate : ℤ → Predicate
  unfolding is_shard_lease shard_lease_state_changed
  shardlease_lease_predicate now = lib.all_of (
      is_shard_lease
      ∷ shard_lease_state_changed now
      ∷ lib.funcs (record {
        create_func = none;
        update_func = none;
        delete_func = some (λ _ _. false);
        generic_func = none;
      })
      ∷ [])

  -- pkg/controller/sharder/add.go
  unfoldable pub sharder_lease_predicate : ℤ → Predicate
  unfolding is_shard_lease shard_lease_availability_changed
  sharder_lease_predicate now =
      lib.all_of (is_shard_lease ∷ shard_lease_availability_changed now ∷ [])
