-- ===== src/Consistenthash.antt =====
-- pkg/sharding/consistenthash/ring.go: the ring of tokens.
pub mod Text
pub mod Sort
pub mod Search
pub mod Owner
pub mod Placement
pub mod Movement
pub mod Collision
use kubernetes_controller_sh.Base.{
  ℕ, zero, suc, ◌+◌, ◌/◌, ◌%◌, ◌<◌, String, ◌<>◌, ◌≡◌, refl, Bool, Option, none, some, List, [],
  ◌∷◌, ◌++◌, length, get_or, eqb, ltb, leb, if◌then◌else◌,
}
use kubernetes_controller_sh.Base.Int.{ℤ, pos, negsuc}
use kubernetes_controller_sh.Base.Map.{Map, nat_key, lookup, insert, or_empty}
use Text.{format_int}

-- A 64-bit digest of a string.
abbrev pub Hash : Type 0
Hash = String → ℕ

abbrev pub default_tokens_per_node : ℕ
default_tokens_per_node = 100

pub record Ring : Type 0 where
  pub hash : Hash
  pub tokens_per_node : ℕ
  pub tokens : List ℕ
  pub token_to_node : Map ℕ String

unfoldable pub is_empty : Ring → Bool
is_empty r = eqb (length r.tokens) 0

-- `slices.Sort`.
unfoldable pub insert_sorted : ℕ → List ℕ → List ℕ
insert_sorted t [] = t ∷ []
insert_sorted t (x ∷ xs) = if leb t x then t ∷ x ∷ xs else x ∷ insert_sorted t xs

unfoldable pub sort : List ℕ → List ℕ
unfolding insert_sorted
sort [] = []
sort (x ∷ xs) = insert_sorted x (sort xs)

-- The inner loop of `AddNodes`, from round `i` on with `left` rounds to go.
unfoldable pub add_tokens : String → ℕ → ℕ → Ring → Ring
add_tokens node i zero r = r
add_tokens node i (suc left) r =
    let t = r.hash (node <> format_int i) in
    add_tokens node (suc i) left
      (record r { tokens = r.tokens ++ t ∷ []; token_to_node = insert t node r.token_to_node })

-- The outer loop.
unfoldable pub add_each : List String → Ring → Ring
add_each [] r = r
add_each (node ∷ nodes) r = add_each nodes (add_tokens node 0 r.tokens_per_node r)

unfoldable pub add_nodes : List String → Ring → Ring
add_nodes nodes r = let r' = add_each nodes r in record r' { tokens = sort r'.tokens }

-- `tokensPerNode <= 0` stands for the default.
unfoldable pub tokens_or_default : ℤ → ℕ
tokens_or_default (pos zero) = default_tokens_per_node
tokens_or_default (pos (suc n)) = suc n
tokens_or_default (negsuc n) = default_tokens_per_node

-- A nil hash stands for the default.
unfoldable pub hash_or_default : Hash → Option Hash → Hash
hash_or_default default_hash none = default_hash
hash_or_default default_hash (some h) = h

unfoldable pub new : Hash → Option Hash → ℤ → List String → Ring
unfolding add_nodes tokens_or_default hash_or_default
new default_hash h tokens_per_node initial_nodes = add_nodes initial_nodes (record {
  hash = hash_or_default default_hash h;
  tokens_per_node = tokens_or_default tokens_per_node;
  tokens = [];
  token_to_node = [];
})

-- The loop of `slices.BinarySearch` between `i` and `j`, on fuel.
unfoldable pub search_loop : ℕ → List ℕ → ℕ → ℕ → ℕ → ℕ
search_loop zero xs target i j = i
search_loop (suc fuel) xs target i j =
    let h = (i + j) / 2 in
    let upper = search_loop fuel xs target (h + 1) j in
    let lower = search_loop fuel xs target i h in
    if ltb i j then (if ltb (get_or xs h 0) target then upper else lower) else i

unfoldable pub binary_search : List ℕ → ℕ → ℕ
unfolding search_loop
binary_search xs target = search_loop (length xs) xs target 0 (length xs)

-- The index that `Hash` reads: behind the last token the ring goes on at the first.
unfoldable pub next_index : List ℕ → ℕ → ℕ
unfolding binary_search
next_index tokens h = let i = binary_search tokens h in if eqb i (length tokens) then 0 else i

unfoldable pub hash_key : Ring → String → String
unfolding is_empty
hash_key r key =
    if is_empty r
    then ""
    else or_empty (lookup (get_or r.tokens (next_index r.tokens (r.hash key)) 0) r.token_to_node)
