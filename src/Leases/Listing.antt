-- ===== src/Leases/Listing.antt =====
-- `AvailableShards`, `IDs` and `ByID`: which shards take part in the ring.
use kubernetes_controller_sh.Base.{
  String, ◌≡◌, refl, sym, ap, true, false, List, [], ◌∷◌, inl, inr, In, Bool-cases, ◌==◌, eq_iff,
}
use mathlib.Core.Path.{subst}
use kubernetes_controller_sh.Leases.{Shard, is_available, by_id, available_shards, ids}

-- The available shards are the shards of the list that are available.
pub In-available_shards :
    (s : Shard) (shards : List Shard)
    → In s (available_shards shards)
    → In s shards × (is_available s.state ≡ true)
unfolding available_shards
In-available_shards s [] m = elim m [ ]
In-available_shards s (x ∷ xs) m = elim (Bool-cases (is_available x.state)) [
  | inl avail ↦ elim (rw avail at m) as (λ _. In s (x ∷ xs) × (is_available s.state ≡ true)) [
    | inl e ↦ (inl e, rw e avail)
    | inr k ↦ let (a, b) = In-available_shards s xs k in (inr a, b)
  ]
  | inr un ↦ let (a, b) = In-available_shards s xs (rw un at m) in (inr a, b)
]

pub available_shards-In :
    (s : Shard) (shards : List Shard)
    → In s shards
    → is_available s.state ≡ true
    → In s (available_shards shards)
unfolding available_shards
available_shards-In s [] m a = elim m [ ]
available_shards-In s (x ∷ xs) (inl e) a = rw (← e) (rw a (inl refl))
available_shards-In s (x ∷ xs) (inr k) a = elim (Bool-cases (is_available x.state)) [
  | inl avail ↦ rw avail (inr (available_shards-In s xs k a))
  | inr un ↦ rw un (available_shards-In s xs k a)
]

pub In-ids :
    (id : String) (shards : List Shard)
    → In id (ids shards)
    → (s : Shard) × In s shards × (s.id ≡ id)
unfolding ids
In-ids id [] m = elim m [ ]
In-ids id (x ∷ xs) (inl e) = (x, inl refl, sym e)
In-ids id (x ∷ xs) (inr m) = let (s, a, b) = In-ids id xs m in (s, inr a, b)

pub ids-In : (s : Shard) (shards : List Shard) → In s shards → In s.id (ids shards)
unfolding ids
ids-In s [] m = elim m [ ]
ids-In s (x ∷ xs) (inl e) = inl (ap (λ t. t.id) e)
ids-In s (x ∷ xs) (inr m) = inr (ids-In s xs m)

by_id_head :
    (x : Shard) (xs : List Shard) (id : String) → (x.id == id) ≡ true → by_id (x ∷ xs) id ≡ x
unfolding by_id
by_id_head x xs id e = rw e

by_id_tail :
    (x : Shard) (xs : List Shard) (id : String)
    → (x.id == id) ≡ false
    → by_id (x ∷ xs) id ≡ by_id xs id
unfolding by_id
by_id_tail x xs id e = rw e

not-is_available-nil : (id : String) → is_available (by_id [] id).state ≡ false
unfolding by_id is_available
not-is_available-nil id = refl

-- Only a shard of the list is found to be available, and it is found under its own ID.
pub by_id_available :
    (shards : List Shard) (id : String)
    → is_available (by_id shards id).state ≡ true
    → In (by_id shards id) shards × ((by_id shards id).id ≡ id)
by_id_available [] id h = cc (not-is_available-nil id)
by_id_available (x ∷ xs) id h = elim (Bool-cases (x.id == id)) [
  | inl e ↦
      subst (λ t. In t (x ∷ xs) × (t.id ≡ id)) (sym (by_id_head x xs id e))
        (inl refl, (eq_iff x.id id).0 e)
  | inr ne ↦
      let (a, b) = by_id_available xs id (rw (by_id_tail x xs id ne) at h) in
      subst (λ t. In t (x ∷ xs) × (t.id ≡ id)) (sym (by_id_tail x xs id ne)) (inr a, b)
]
