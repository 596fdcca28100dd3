-- ===== src/Sharding/Ring.antt =====
-- pkg/sharding/ring/ring.go: the hash ring over the available shards.
use kubernetes_controller_sh.Base.{
  String, ◌≡◌, refl, none, List, [], ◌∷◌, In, ◌⊎◌, inl, inr, true, arith,
}
use kubernetes_controller_sh.Base.Int.{ℤ, pos}
use kubernetes_controller_sh.Api.Core.{Lease}
use kubernetes_controller_sh.Consistenthash.{Hash, Ring, new, hash_key}
use kubernetes_controller_sh.Consistenthash.Movement.{hash_key-In}
use kubernetes_controller_sh.Leases.{Shard, is_available, available_shards, ids, to_shards}
use kubernetes_controller_sh.Leases.Listing.{In-available_shards, In-ids}

unfoldable pub from_leases : Hash → List Lease → ℤ → Ring × List Shard
from_leases default_hash lease_list now =
    let shards = to_shards lease_list now in
    let available = ids (available_shards shards) in
    (new default_hash none (pos 0) available, shards)

ids-nil : (l : List Shard) → ids l ≡ [] → l ≡ []
unfolding ids
ids-nil [] e = refl
ids-nil (x ∷ xs) e = absurd (ground arith)

module _ (default_hash : Hash) (lease_list : List Lease) (now : ℤ) where
  -- The ring answers with an available shard of the list, or, where no shard is available, with the
  -- empty string.
  pub hash_key-from_leases :
      (key : String)
      → ((s : Shard) × In s (from_leases default_hash lease_list now).1
          × (is_available s.state ≡ true)
          × (s.id ≡ hash_key (from_leases default_hash lease_list now).0 key))
        ⊎ ((available_shards (from_leases default_hash lease_list now).1 ≡ [])
            × (hash_key (from_leases default_hash lease_list now).0 key ≡ ""))
  unfolding from_leases
  hash_key-from_leases key =
      elim (hash_key-In default_hash none (pos 0)
        (ids (available_shards (to_shards lease_list now))) key) [
          | inl m ↦
              let (s, a, e) = In-ids _ _ m in
              let (b, c) = In-available_shards s _ a in inl (s, b, c, e)
          | inr (e, f) ↦ inr (ids-nil _ e, f)
        ]
