-- ===== src/Sharding/Predicate/Decides.antt =====
-- Which events reach the controllers, with the combinators of controller-runtime as documented.
use kubernetes_controller_sh.Base.{
  String, ◌==◌, eq_iff, ◌≡◌, ◌≢◌, refl, sym, ap, ◌∙◌, Bool, true, false, Option, none, some, List,
  [], ◌∷◌, ◌++◌, ◌&&◌, ◌||◌, Bool-cases, inl, inr, arith, if◌then◌else◌,
}
use kubernetes_controller_sh.Base.Int.{ℤ}
use kubernetes_controller_sh.Api.Core.{Lease, label_controller_ring}
use kubernetes_controller_sh.Api.Labels.{get_label}
use kubernetes_controller_sh.Consistenthash.{Hash}
use kubernetes_controller_sh.Leases.{
  is_available, to_state, to_shard, to_shards, available_shards, ids,
}
use kubernetes_controller_sh.Sharding.Ring.{from_leases}
use kubernetes_controller_sh.Sharding.Predicate.{
  ClientObject, lease, Event, create, update, delete, generic, Predicate, Funcs, PredicateLib,
  is_shard_lease_object, state_changed, available_at, availability_differs, deleted_available,
  controllerring_lease_predicate, shardlease_lease_predicate, sharder_lease_predicate,
}

abbrev pub subject : Event → ClientObject
subject (create o) = o
subject (update old new) = new
subject (delete o u) = o
subject (generic o) = o

abbrev call : {A : Type 0} → Option (A → Bool) → A → Bool
call none a = true
call (some f) a = f a

abbrev call₂ : {A B : Type 0} → Option (A → B → Bool) → A → B → Bool
call₂ none a b = true
call₂ (some f) a b = f a b

abbrev pub run_funcs : Funcs → Event → Bool
run_funcs f (create o) = call f.create_func o
run_funcs f (update old new) = call₂ f.update_func old new
run_funcs f (delete o u) = call₂ f.delete_func o u
run_funcs f (generic o) = call f.generic_func o

abbrev pub all_pass : List Predicate → Event → Bool
all_pass [] e = true
all_pass (p ∷ ps) e = p e && all_pass ps e

abbrev pub any_passes : List Predicate → Event → Bool
any_passes [] e = false
any_passes (p ∷ ps) e = p e || any_passes ps e

-- The documented behaviour of the package predicate.
pub record IsDocumented (lib : PredicateLib) : Type 0 where
  pub funcs_lem : (f : Funcs) (e : Event) → lib.funcs f e ≡ run_funcs f e
  pub new_predicate_funcs_lem :
      (p : ClientObject → Bool) (e : Event) → lib.new_predicate_funcs p e ≡ p (subject e)
  pub all_of_lem : (ps : List Predicate) (e : Event) → lib.all_of ps e ≡ all_pass ps e
  pub any_of_lem : (ps : List Predicate) (e : Event) → lib.any_of ps e ≡ any_passes ps e

-- A lease that carries the name of a ring.
abbrev pub IsRingLease : Lease → Type 0
IsRingLease l = get_label l.meta.labels label_controller_ring ≢ ""

IsRingLease-is_shard_lease_object :
    (l : Lease) → IsRingLease l → is_shard_lease_object (lease l) ≡ true
unfolding is_shard_lease_object
IsRingLease-is_shard_lease_object l h =
    elim (Bool-cases (get_label l.meta.labels label_controller_ring == "")) [
      | inl e ↦ absurd (h ((eq_iff _ "").0 e))
      | inr ne ↦ rw ne
    ]

and_true : (b : Bool) → (b && true) ≡ b
and_true true = refl
and_true false = refl

and_false : (b : Bool) → (b && false) ≡ false
and_false true = refl
and_false false = refl

or_false : (b : Bool) → (b || false) ≡ b
or_false true = refl
or_false false = refl

or_true : (b : Bool) → (b || true) ≡ true
or_true true = refl
or_true false = refl

ruleset bool_laws = (and_true, and_false, or_false, or_true)

module _ (lib : PredicateLib) (documented : IsDocumented lib) (now : ℤ) where
  -- The sharder controller sees an update of a shard lease exactly when the availability of the
  -- shard changes, a creation when the shard is available at once, and a deletion when the shard
  -- was available or its last state is not known. (The leases carry the name of a ring, and the
  -- package predicate does what it documents.)
  pub sharder_lease_predicate_lem :
      (l new : Lease) (state_unknown : Bool)
      → IsRingLease l
      → IsRingLease new
      → (sharder_lease_predicate lib now (update (lease l) (lease new))
          ≡ availability_differs now (lease l) (lease new))
        × (sharder_lease_predicate lib now (create (lease l)) ≡ is_available (to_state l now))
        × (sharder_lease_predicate lib now (delete (lease l) state_unknown)
            ≡ (state_unknown || is_available (to_state l now)))
  unfolding sharder_lease_predicate available_at deleted_available
  sharder_lease_predicate_lem l new u hl hn =
      let el = IsRingLease-is_shard_lease_object l hl in
      let en = IsRingLease-is_shard_lease_object new hn in
      (
        simp (
          documented.all_of_lem, documented.funcs_lem, documented.new_predicate_funcs_lem, en,
          bool_laws,
        ),
        simp (
          documented.all_of_lem, documented.funcs_lem, documented.new_predicate_funcs_lem, el,
          bool_laws,
        ),
        simp (
          documented.all_of_lem, documented.funcs_lem, documented.new_predicate_funcs_lem, el,
          bool_laws,
        ),
      )

  -- The controllerring controller sees every creation and deletion of a shard lease, and an update
  -- exactly when the availability of the shard changes. (The leases carry the name of a ring, and
  -- the package predicate does what it documents.)
  pub controllerring_lease_predicate_lem :
      (l new : Lease) (state_unknown : Bool)
      → IsRingLease l
      → IsRingLease new
      → (controllerring_lease_predicate lib now (update (lease l) (lease new))
          ≡ availability_differs now (lease l) (lease new))
        × (controllerring_lease_predicate lib now (create (lease l)) ≡ true)
        × (controllerring_lease_predicate lib now (delete (lease l) state_unknown) ≡ true)
  unfolding controllerring_lease_predicate
  controllerring_lease_predicate_lem l new u hl hn =
      let el = IsRingLease-is_shard_lease_object l hl in
      let en = IsRingLease-is_shard_lease_object new hn in
      (
        simp (
          documented.all_of_lem, documented.any_of_lem, documented.funcs_lem,
          documented.new_predicate_funcs_lem, en, bool_laws,
        ),
        simp (
          documented.all_of_lem, documented.any_of_lem, documented.funcs_lem,
          documented.new_predicate_funcs_lem, el, bool_laws,
        ),
        simp (
          documented.all_of_lem, documented.any_of_lem, documented.funcs_lem,
          documented.new_predicate_funcs_lem, el, bool_laws,
        ),
      )

  -- The shardlease controller sees an update of a shard lease exactly when the state of the shard
  -- changes, every creation, and no deletion. (The leases carry the name of a ring, and the package
  -- predicate does what it documents.)
  pub shardlease_lease_predicate_lem :
      (l new : Lease) (state_unknown : Bool)
      → IsRingLease l
      → IsRingLease new
      → (shardlease_lease_predicate lib now (update (lease l) (lease new))
          ≡ state_changed now (lease l) (lease new))
        × (shardlease_lease_predicate lib now (create (lease l)) ≡ true)
        × (shardlease_lease_predicate lib now (delete (lease l) state_unknown) ≡ false)
  unfolding shardlease_lease_predicate
  shardlease_lease_predicate_lem l new u hl hn =
      let el = IsRingLease-is_shard_lease_object l hl in
      let en = IsRingLease-is_shard_lease_object new hn in
      (
        simp (
          documented.all_of_lem, documented.funcs_lem, documented.new_predicate_funcs_lem, en,
          bool_laws,
        ),
        simp (
          documented.all_of_lem, documented.funcs_lem, documented.new_predicate_funcs_lem, el,
          bool_laws,
        ),
        simp (
          documented.all_of_lem, documented.funcs_lem, documented.new_predicate_funcs_lem, el,
          bool_laws,
        ),
      )

same_available :
    (now : ℤ) (old new : Lease)
    → availability_differs now (lease old) (lease new) ≡ false
    → is_available (to_state old now) ≡ is_available (to_state new now)
unfolding availability_differs
same_available now old new h = ground arith

-- The nodes of the ring.
abbrev members : List Lease → ℤ → List String
members leases now = ids (available_shards (to_shards leases now))

members-cons :
    (now : ℤ) (l : Lease) (ls : List Lease)
    → members (l ∷ ls) now
      ≡ (if is_available (to_state l now) then l.meta.name ∷ members ls now else members ls now)
unfolding to_shards available_shards ids to_shard to_state
members-cons now l ls = elim (Bool-cases (is_available (to_state l now))) [
  | inl avail ↦ rw avail
  | inr un ↦ rw un
]

-- Replacing a lease by one of the same name and availability leaves the members of the ring.
members_update :
    (now : ℤ) (pre post : List Lease) (old new : Lease)
    → old.meta.name ≡ new.meta.name
    → is_available (to_state old now) ≡ is_available (to_state new now)
    → members (pre ++ old ∷ post) now ≡ members (pre ++ new ∷ post) now
members_update now [] post old new same h =
    members-cons now old post ∙ (rw (h, same) refl) ∙ sym (members-cons now new post)
members_update now (x ∷ pre) post old new same h =
    members-cons now x (pre ++ old ∷ post)
    ∙ ap (λ ms. if is_available (to_state x now) then x.meta.name ∷ ms else ms)
        (members_update now pre post old new same h)
    ∙ sym (members-cons now x (pre ++ new ∷ post))

-- An update of a shard lease, with its name and the name of a ring kept, that the sharder
-- controller does not see leaves the ring as it is at that time. (The package predicate does what
-- it documents.)
pub unseen_update-from_leases :
    (lib : PredicateLib) (documented : IsDocumented lib) (now : ℤ) (h : Hash)
    (pre post : List Lease) (old new : Lease)
    → IsRingLease old
    → IsRingLease new
    → old.meta.name ≡ new.meta.name
    → sharder_lease_predicate lib now (update (lease old) (lease new)) ≡ false
    → (from_leases h (pre ++ old ∷ post) now).0 ≡ (from_leases h (pre ++ new ∷ post) now).0
unfolding from_leases
unseen_update-from_leases lib documented now h pre post old new ho hn same unseen =
    let e = (sharder_lease_predicate_lem lib documented now old new false ho hn).0 in
    rw (members_update now pre post old new same (same_available now old new (sym e ∙ unseen)))
