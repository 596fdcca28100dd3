-- ===== src/Consistenthash/Owner.antt =====
-- What `AddNodes` leaves on the ring, told without the loops: the tokens of the nodes, each owned by
-- the last node that has it.
use kubernetes_controller_sh.Base.{
  ℕ, zero, suc, String, ◌<>◌, ◌≡◌, refl, sym, ◌∙◌, inl, inr, Bool, true, false, Option, none, some,
  List, [], ◌∷◌, ◌++◌, ◌||◌, In, In-append, In-append_left, In-append_right, eqb, Bool-cases,
  if◌then◌else◌, arith,
}
use mathlib.Core.Path.{subst}
use mathlib.Core.List.{append-nil, append_assoc}
use kubernetes_controller_sh.Base.Map.{nat_key, lookup, lookup-insert}
use kubernetes_controller_sh.Consistenthash.{Hash, Ring, add_tokens, add_each}
use kubernetes_controller_sh.Consistenthash.Text.{format_int}

abbrev pub has : ℕ → List ℕ → Bool
has t [] = false
has t (x ∷ xs) = eqb x t || has t xs

pub has→In : (t : ℕ) (xs : List ℕ) → has t xs ≡ true → In t xs
has→In t [] h = cc
has→In t (x ∷ xs) h = elim (Bool-cases (eqb x t)) [
  | inl e ↦ inl (ground arith)
  | inr ne ↦ inr (has→In t xs (ground arith))
]

pub In→has : (t : ℕ) (xs : List ℕ) → In t xs → has t xs ≡ true
In→has t [] m = elim m [ ]
In→has t (x ∷ xs) (inl e) = ground arith
In→has t (x ∷ xs) (inr m) = ground (arith, In→has t xs m)

-- The tokens of one node, from number `i` on.
abbrev pub node_tokens : Hash → String → ℕ → ℕ → List ℕ
node_tokens hash node i zero = []
node_tokens hash node i (suc left) =
    hash (node <> format_int i) ∷ node_tokens hash node (suc i) left

-- The tokens of all nodes.
abbrev pub ring_tokens : Hash → ℕ → List String → List ℕ
ring_tokens hash k [] = []
ring_tokens hash k (node ∷ nodes) = node_tokens hash node 0 k ++ ring_tokens hash k nodes

abbrev pub or_else : Option String → Option String → Option String
or_else (some n) o = some n
or_else none o = o

-- The last node that has the token.
abbrev pub owner : Hash → ℕ → List String → ℕ → Option String
owner hash k [] t = none
owner hash k (node ∷ nodes) t =
    or_else (owner hash k nodes t) (if has t (node_tokens hash node 0 k) then some node else none)

module _ (node : String) where
  pub hash-add_tokens : (i left : ℕ) (r : Ring) → (add_tokens node i left r).hash ≡ r.hash
  unfolding add_tokens
  hash-add_tokens i zero r = refl
  hash-add_tokens i (suc left) r = hash-add_tokens (suc i) left _

  pub tokens_per_node-add_tokens :
      (i left : ℕ) (r : Ring) → (add_tokens node i left r).tokens_per_node ≡ r.tokens_per_node
  unfolding add_tokens
  tokens_per_node-add_tokens i zero r = refl
  tokens_per_node-add_tokens i (suc left) r = tokens_per_node-add_tokens (suc i) left _

  tokens-add_tokens :
      (i left : ℕ) (r : Ring)
      → (add_tokens node i left r).tokens ≡ r.tokens ++ node_tokens r.hash node i left
  unfolding add_tokens
  tokens-add_tokens i zero r = sym (append-nil r.tokens)
  tokens-add_tokens i (suc left) r =
      tokens-add_tokens (suc i) left _
      ∙ append_assoc r.tokens (r.hash (node <> format_int i) ∷ [])
          (node_tokens r.hash node (suc i) left)

  lookup-add_tokens :
      (t i left : ℕ) (r : Ring)
      → lookup t (add_tokens node i left r).token_to_node
        ≡ (if has t (node_tokens r.hash node i left) then some node else lookup t r.token_to_node)
  unfolding add_tokens
  lookup-add_tokens t i zero r = refl
  lookup-add_tokens t i (suc left) r =
      lookup-add_tokens t (suc i) left _
      ∙ ground (arith, lookup-insert (r.hash (node <> format_int i)) t node r.token_to_node)

tokens-add_each :
    (nodes : List String) (r : Ring)
    → (add_each nodes r).tokens ≡ r.tokens ++ ring_tokens r.hash r.tokens_per_node nodes
unfolding add_each
tokens-add_each [] r = sym (append-nil r.tokens)
tokens-add_each (node ∷ nodes) r =
    tokens-add_each nodes (add_tokens node 0 r.tokens_per_node r)
    ∙ rw
        (
          hash-add_tokens node 0 r.tokens_per_node r,
          tokens_per_node-add_tokens node 0 r.tokens_per_node r,
          tokens-add_tokens node 0 r.tokens_per_node r,
        )
        (append_assoc r.tokens (node_tokens r.hash node 0 r.tokens_per_node)
          (ring_tokens r.hash r.tokens_per_node nodes))

or_else_assoc : (a b c : Option String) → or_else a (or_else b c) ≡ or_else (or_else a b) c
or_else_assoc (some n) b c = refl
or_else_assoc none b c = refl

if-or_else :
    (b : Bool) (n : String) (o : Option String)
    → (if b then some n else o) ≡ or_else (if b then some n else none) o
if-or_else true n o = refl
if-or_else false n o = refl

lookup-add_each :
    (t : ℕ) (nodes : List String) (r : Ring)
    → lookup t (add_each nodes r).token_to_node
      ≡ or_else (owner r.hash r.tokens_per_node nodes t) (lookup t r.token_to_node)
unfolding add_each
lookup-add_each t [] r = refl
lookup-add_each t (node ∷ nodes) r =
    lookup-add_each t nodes (add_tokens node 0 r.tokens_per_node r)
    ∙ rw
        (
          hash-add_tokens node 0 r.tokens_per_node r,
          tokens_per_node-add_tokens node 0 r.tokens_per_node r,
          lookup-add_tokens node t 0 r.tokens_per_node r,
          if-or_else (has t (node_tokens r.hash node 0 r.tokens_per_node)) node
              (lookup t r.token_to_node),
        )
        (or_else_assoc (owner r.hash r.tokens_per_node nodes t)
          (if has t (node_tokens r.hash node 0 r.tokens_per_node) then some node else none)
          (lookup t r.token_to_node))

pub hash-add_each : (nodes : List String) (r : Ring) → (add_each nodes r).hash ≡ r.hash
unfolding add_each
hash-add_each [] r = refl
hash-add_each (node ∷ nodes) r =
    hash-add_each nodes (add_tokens node 0 r.tokens_per_node r)
    ∙ hash-add_tokens node 0 r.tokens_per_node r

or_else-none : (o : Option String) → or_else o none ≡ o
or_else-none (some n) = refl
or_else-none none = refl

module _ (hash : Hash) (k : ℕ) where
  -- A ring before any node is added.
  abbrev pub bare : Ring
  bare = record { hash = hash; tokens_per_node = k; tokens = []; token_to_node = [] }

  pub tokens-bare : (nodes : List String) → (add_each nodes bare).tokens ≡ ring_tokens hash k nodes
  tokens-bare nodes = tokens-add_each nodes bare

  pub lookup-bare :
      (t : ℕ) (nodes : List String)
      → lookup t (add_each nodes bare).token_to_node ≡ owner hash k nodes t
  unfolding lookup
  lookup-bare t nodes = lookup-add_each t nodes bare ∙ or_else-none (owner hash k nodes t)

  pub ring_tokens-append :
      (xs ys : List String)
      → ring_tokens hash k (xs ++ ys) ≡ ring_tokens hash k xs ++ ring_tokens hash k ys
  ring_tokens-append [] ys = refl
  ring_tokens-append (x ∷ xs) ys =
      rw (ring_tokens-append xs ys) (
        sym (append_assoc (node_tokens hash x 0 k) (ring_tokens hash k xs) (ring_tokens hash k ys)))

  -- A node added last owns all its tokens, and no others change their owner.
  pub owner-append_last :
      (nodes : List String) (n : String) (t : ℕ)
      → owner hash k (nodes ++ n ∷ []) t
        ≡ (if has t (node_tokens hash n 0 k) then some n else owner hash k nodes t)
  owner-append_last [] n t = refl
  owner-append_last (x ∷ xs) n t = rw (owner-append_last xs n t) (ground arith)

  -- Every token has an owner, which is a node with that token.
  pub owner_of_In :
      (nodes : List String) (t : ℕ)
      → In t (ring_tokens hash k nodes)
      → (n : String) × (owner hash k nodes t ≡ some n)
  owner_of_In [] t m = elim m [ ]
  owner_of_In (x ∷ xs) t m = elim (In-append t (node_tokens hash x 0 k) (ring_tokens hash k xs) m) [
    | inl l ↦ found (owner hash k xs t) refl (In→has t _ l)
    | inr r ↦ let (n, e) = owner_of_In xs t r in (n, rw e)
  ]
    where
      found :
          (o : Option String)
          → owner hash k xs t ≡ o
          → has t (node_tokens hash x 0 k) ≡ true
          → (n : String) × (owner hash k (x ∷ xs) t ≡ some n)
      found (some n) e h = (n, rw e)
      found none e h = (x, rw (e, h))

  pub owner-sound :
      (nodes : List String) (t : ℕ) (n : String)
      → owner hash k nodes t ≡ some n
      → In n nodes × In t (node_tokens hash n 0 k)
  owner-sound [] t n e = cc
  owner-sound (x ∷ xs) t n e = go (owner hash k xs t) refl (owner-sound xs t n)
    where
      mine :
          (b : Bool)
          → has t (node_tokens hash x 0 k) ≡ b
          → (if b then some x else none) ≡ some n
          → In n (x ∷ xs) × In t (node_tokens hash n 0 k)
      mine true h q = (inl (cc), subst (λ y. In t (node_tokens hash y 0 k)) (cc) (has→In t _ h))
      mine false h q = cc

      go :
          (o : Option String)
          → owner hash k xs t ≡ o
          → (owner hash k xs t ≡ some n → In n xs × In t (node_tokens hash n 0 k))
          → In n (x ∷ xs) × In t (node_tokens hash n 0 k)
      go (some m) p rec = let (a, b) = rec (cc) in (inr a, b)
      go none p rec = mine (has t (node_tokens hash x 0 k)) refl (rw p at e)

  pub In-node_tokens :
      (nodes : List String) (t : ℕ) (n : String)
      → In n nodes
      → In t (node_tokens hash n 0 k)
      → In t (ring_tokens hash k nodes)
  In-node_tokens [] t n a b = elim a [ ]
  In-node_tokens (x ∷ xs) t n (inl e) b =
      In-append_left t (node_tokens hash x 0 k) (ring_tokens hash k xs) (rw e at b)
  In-node_tokens (x ∷ xs) t n (inr a) b =
      In-append_right t (node_tokens hash x 0 k) (ring_tokens hash k xs) (In-node_tokens xs t n a b)
