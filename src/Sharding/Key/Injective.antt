-- ===== src/Sharding/Key/Injective.antt =====
-- Different objects have different keys.
use kubernetes_controller_sh.Base.{String, ◌≡◌}
use kubernetes_controller_sh.Base.Slash.{NoSlash, split_slash}
use kubernetes_controller_sh.Sharding.Key.{for_metadata}

-- The key tells the group, the kind, the namespace and the name, where the first three hold no slash.
pub for_metadata-injective :
    (g k ns n g' k' ns' n' : String)
    → NoSlash g × NoSlash k × NoSlash ns
    → NoSlash g' × NoSlash k' × NoSlash ns'
    → for_metadata g k ns n ≡ for_metadata g' k' ns' n'
    → (g ≡ g') × (k ≡ k') × (ns ≡ ns') × (n ≡ n')
unfolding for_metadata
for_metadata-injective g k ns n g' k' ns' n' p q e =
    let (eg, e1) = split_slash g g' _ _ p.0 q.0 e in
    let (ek, e2) = split_slash k k' _ _ p.1 q.1 e1 in
    let (ens, en) = split_slash ns ns' _ _ p.2 q.2 e2 in (eg, ek, ens, en)
