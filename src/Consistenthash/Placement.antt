-- ===== src/Consistenthash/Placement.antt =====
-- Where `Hash` places a key, and how little that changes when the nodes change.
use kubernetes_controller_sh.Base.{
  ℕ, zero, suc, ◌<◌, String, ◌≡◌, refl, sym, ap, ◌∙◌, inl, some, List, [], ◌∷◌, length, get_or, In,
  arith,
}
use kubernetes_controller_sh.Base.Int.{ℤ, pos, negsuc}
use kubernetes_controller_sh.Base.Map.{nat_key, or_empty}
use kubernetes_controller_sh.Consistenthash.{
  Hash, add_each, add_nodes, sort, tokens_or_default, next_index, hash_key,
}
use kubernetes_controller_sh.Consistenthash.Sort.{sort-IsSorted, In-sort, sort-In}
use kubernetes_controller_sh.Consistenthash.Search.{
  IsNext, IsNext-In, IsNext-unique, IsNext-restrict, next_index-IsNext,
}
use kubernetes_controller_sh.Consistenthash.Owner.{
  ring_tokens, owner, bare, hash-add_each, tokens-bare, lookup-bare, owner_of_In, owner-sound,
}

-- The specification of consistent hashing: the key goes to the owner of the next token.
pub record Places (hash : Hash) (k : ℕ) (nodes : List String) (key node : String) : Type 0 where
  pub token : ℕ
  pub next : IsNext (ring_tokens hash k nodes) (hash key) token
  pub owned : owner hash k nodes token ≡ some node

pub Places-unique :
    (hash : Hash) (k : ℕ) (nodes : List String) (key m n : String)
    → Places hash k nodes key m
    → Places hash k nodes key n
    → m ≡ n
Places-unique hash k nodes key m n p q =
    let e = IsNext-unique _ _ p.token q.token p.next q.next in
    cc (p.owned, q.owned, ap (owner hash k nodes) e)

pub Places-In :
    (hash : Hash) (k : ℕ) (nodes : List String) (key n : String)
    → Places hash k nodes key n
    → In n nodes
Places-In hash k nodes key n p = (owner-sound hash k nodes p.token n p.owned).0

IsNext-sort : (xs : List ℕ) (h t : ℕ) → IsNext (sort xs) h t → IsNext xs h t
IsNext-sort xs h t n =
    IsNext-restrict xs (sort xs) h t (λ u m. sort-In u xs m) (In-sort t xs (IsNext-In _ h t n)) n

pub length-pos_of_In : {A : Type 0} (a : A) (xs : List A) → In a xs → 0 < length xs
length-pos_of_In a [] m = elim m [ ]
length-pos_of_In a (x ∷ xs) m = omega arith

pub tokens_or_default-pos : (k : ℤ) → 0 < tokens_or_default k
unfolding tokens_or_default
tokens_or_default-pos (pos zero) = omega arith
tokens_or_default-pos (pos (suc n)) = omega arith
tokens_or_default-pos (negsuc n) = omega arith

pub first_token :
    (hash : Hash) (k : ℕ) (n : String) (ns : List String)
    → 0 < k
    → (t : ℕ) × In t (ring_tokens hash k (n ∷ ns))
first_token hash zero n ns h = absurd (omega arith)
first_token hash (suc k) n ns h = (_, inl refl)

module _ (hash : Hash) (k : ℕ) (nodes : List String) (key : String) where
  -- The token that `Hash` finds.
  read_token : ℕ
  read_token =
      let tokens = sort (ring_tokens hash k nodes) in get_or tokens (next_index tokens (hash key)) 0

  hash_key-bare :
      0 < length (sort (ring_tokens hash k nodes))
      → hash_key (add_nodes nodes (bare hash k)) key ≡ or_empty (owner hash k nodes read_token)
  unfolding hash_key add_nodes read_token
  hash_key-bare p =
      rw (hash-add_each nodes (bare hash k), tokens-bare hash k nodes, lookup-bare hash k)
        (ground arith)

  -- A ring that has a token places every key by the specification.
  pub hash_key-Places-bare :
      (t : ℕ)
      → In t (ring_tokens hash k nodes)
      → Places hash k nodes key (hash_key (add_nodes nodes (bare hash k)) key)
  unfolding read_token
  hash_key-Places-bare t m =
      let p = length-pos_of_In t _ (sort-In t _ m) in
      let next = IsNext-sort _ _ _ (next_index-IsNext _ (hash key) (sort-IsSorted _) p) in
      let (n, e) = owner_of_In hash k nodes _ (IsNext-In _ _ _ next) in
      record {
        token = read_token;
        next = next;
        owned = e ∙ ap some (sym (hash_key-bare p ∙ ap or_empty e));
      }

  -- With no nodes there is nothing to place the key on.
  pub hash_key-none : nodes ≡ [] → hash_key (add_nodes nodes (bare hash k)) key ≡ ""
  unfolding hash_key add_nodes add_each sort
  hash_key-none e = rw e
