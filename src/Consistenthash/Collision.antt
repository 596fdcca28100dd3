-- ===== src/Consistenthash/Collision.antt =====
-- The tokens of a node are numbered with no separator, so nodes can share tokens by their names alone.
use kubernetes_controller_sh.Base.{
  ℕ, zero, suc, ◌+◌, ◌≤◌, ◌<◌, String, ◌<>◌, <>_assoc, ◌≡◌, refl, sym, ap, ◌∙◌, inl, inr, Option,
  [], ◌∷◌, In, Bool-cases, arith, eqb,
}
use mathlib.Core.Path.{subst}
use kubernetes_controller_sh.Base.Int.{pos}
use kubernetes_controller_sh.Consistenthash.{
  Hash, new, hash_or_default, tokens_or_default, hash_key, default_tokens_per_node,
}
use kubernetes_controller_sh.Consistenthash.Text.{format_int, format_int_teen}
use kubernetes_controller_sh.Consistenthash.Owner.{node_tokens}
use kubernetes_controller_sh.Consistenthash.Movement.{hash_key_of_token}

In-numbered :
    (f : Hash) (node : String) (i left j : ℕ)
    → i ≤ j
    → j < i + left
    → In (f (node <> format_int j)) (node_tokens f node i left)
In-numbered f node i zero j lo hi = absurd (omega arith)
In-numbered f node i (suc left) j lo hi = elim (Bool-cases (eqb i j)) [
  | inl e ↦ inl (ap (λ x. f (node <> format_int x)) (ground arith))
  | inr ne ↦ inr (In-numbered f node (suc i) left j (ground arith) (omega arith))
]

default_tokens : tokens_or_default (pos 0) ≡ default_tokens_per_node
unfolding tokens_or_default
default_tokens = refl

teen_token :
    (node : String) (i : ℕ) → i < 10 → (node <> "1") <> format_int i ≡ node <> format_int (10 + i)
teen_token node i lt =
    <>_assoc node "1" (format_int i) ∙ ap (λ t. node <> t) (sym (format_int_teen i lt))

In-default :
    (f : Hash) (node : String) (j : ℕ)
    → j < 100
    → In (f (node <> format_int j)) (node_tokens f node 0 (tokens_or_default (pos 0)))
In-default f node j lt =
    In-numbered f node 0 (tokens_or_default (pos 0)) j (omega arith) (omega (arith, default_tokens))

-- With any hash and the default number of tokens, the key that is spelled like the name of a node
-- and a number from 10 to 19 goes to the node whose name has a digit 1 more, if that is added last,
-- and to the node itself, if that is added last: tokens 10 to 19 of the one are tokens 0 to 9 of
-- the other, since nothing stands between the name and the number.
pub hash_key-order :
    (default_hash : Hash) (h : Option Hash) (node : String) (i : ℕ)
    → i < 10
    → (hash_key
          (new default_hash h (pos 0) (node ∷ (node <> "1") ∷ []))
          (node <> format_int (10 + i))
        ≡ node <> "1")
      × (hash_key
            (new default_hash h (pos 0) ((node <> "1") ∷ node ∷ []))
            (node <> format_int (10 + i))
          ≡ node)
hash_key-order default_hash h node i lt =
    let f = hash_or_default default_hash h in
    let key = node <> format_int (10 + i) in
    (
      hash_key_of_token default_hash h (pos 0) (node ∷ []) (node <> "1") key (
          subst (λ text. In (f text) (node_tokens f (node <> "1") 0 (tokens_or_default (pos 0))))
            (teen_token node i lt) (In-default f (node <> "1") i (omega arith))),
      hash_key_of_token default_hash h (pos 0) ((node <> "1") ∷ []) node key
          (In-default f node (10 + i) (omega arith)),
    )
