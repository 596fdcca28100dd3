-- ===== src/Examples/Placing.antt =====
-- The ring of consistent hashing with one token for each node, hashed by length.
use kubernetes_controller_sh.Base.{
  ℕ, String, ◌<>◌, ◌≡◌, refl, sym, ◌∙◌, inl, inr, none, List, [], ◌∷◌, In, arith,
}
use kubernetes_controller_sh.Base.Int.{pos}
use mathlib.Core.Path.{subst}
use kubernetes_controller_sh.Consistenthash.{
  new, hash_key, add_nodes, hash_or_default, tokens_or_default, is_empty, next_index, add_each,
  add_tokens, sort, insert_sorted, binary_search, search_loop,
}
use kubernetes_controller_sh.Base.Map.{lookup, insert}
use kubernetes_controller_sh.Consistenthash.Text.{format_int}
use kubernetes_controller_sh.Consistenthash.Owner.{node_tokens}
use kubernetes_controller_sh.Consistenthash.Placement.{Places}
use kubernetes_controller_sh.Consistenthash.Movement.{
  NoCollision, hash_key-Places, hash_key-restrict,
}
use kubernetes_controller_sh.Consistenthash.Collision.{hash_key-order}
use kubernetes_controller_sh.Examples.Data.{by_length}

abbrev nodes : List String
nodes = "a" ∷ "bbb" ∷ []

hash_key-Places_example :
    Places by_length 1 nodes "kkk" (hash_key (new by_length none (pos 1) nodes) "kkk")
unfolding hash_or_default tokens_or_default
hash_key-Places_example = hash_key-Places by_length none (pos 1) nodes "kkk" (omega arith)

hash_key-order_example :
    (hash_key
        (new by_length none (pos 0) ("shard" ∷ ("shard" <> "1") ∷ []))
        ("shard" <> format_int 12)
      ≡ "shard" <> "1")
    × (hash_key
          (new by_length none (pos 0) (("shard" <> "1") ∷ "shard" ∷ []))
          ("shard" <> format_int 12)
        ≡ "shard")
hash_key-order_example = hash_key-order by_length none "shard" 2 (omega arith)

placed : hash_key (new by_length none (pos 1) nodes) "kkk" ≡ "bbb"
unfolding hash_key new add_nodes hash_or_default tokens_or_default is_empty next_index add_each
    add_tokens sort insert_sorted binary_search search_loop lookup insert format_int
placed = refl

tokens_a : node_tokens by_length "a" 0 1 ≡ 2 ∷ []
unfolding node_tokens format_int
tokens_a = refl

tokens_bbb : node_tokens by_length "bbb" 0 1 ≡ 4 ∷ []
unfolding node_tokens format_int
tokens_bbb = refl

only : (t n : ℕ) (xs : List ℕ) → xs ≡ n ∷ [] → In t xs → t ≡ n
only t n xs e m = elim (subst (λ l. In t l) e m) [ inl h ↦ h | inr none_left ↦ absurd none_left ]

apart :
    (a b : String) (t : ℕ)
    → a ≡ "a"
    → b ≡ "bbb"
    → In t (node_tokens by_length a 0 1)
    → In t (node_tokens by_length b 0 1)
    → a ≡ b
apart a b t ea eb ma mb =
    let two = only t 2 _ tokens_a (subst (λ n. In t (node_tokens by_length n 0 1)) ea ma) in
    let four = only t 4 _ tokens_bbb (subst (λ n. In t (node_tokens by_length n 0 1)) eb mb) in
    absurd (omega (arith, two, four))

no_collision : NoCollision by_length 1 nodes
no_collision a b t (inl ea) (inl eb) ma mb = ea ∙ sym eb
no_collision a b t (inl ea) (inr (inl eb)) ma mb = apart a b t ea eb ma mb
no_collision a b t (inr (inl ea)) (inl eb) ma mb = sym (apart b a t eb ea mb ma)
no_collision a b t (inr (inl ea)) (inr (inl eb)) ma mb = ea ∙ sym eb
no_collision a b t (inl ea) (inr (inr m)) ma mb = absurd m
no_collision a b t (inr (inl ea)) (inr (inr m)) ma mb = absurd m
no_collision a b t (inr (inr m)) mb' ma mb = absurd m

hash_key-restrict_example :
    hash_key (new by_length none (pos 1) ("bbb" ∷ [])) "kkk"
    ≡ hash_key (new by_length none (pos 1) nodes) "kkk"
unfolding hash_or_default tokens_or_default
hash_key-restrict_example =
    hash_key-restrict by_length none (pos 1) ("bbb" ∷ []) nodes "kkk" (λ n m. inr m) no_collision
      (inl placed)
