-- ===== src/Consistenthash/Movement.antt =====
-- How the placement of keys changes when nodes come and go.
use kubernetes_controller_sh.Base.{
  ℕ, ◌<◌, String, ◌≡◌, refl, sym, ap, ◌∙◌, ◌⊎◌, inl, inr, false, Option, some, List, [], ◌∷◌, ◌++◌,
  length, length-append, In, In-append, In-append_left, In-append_right, Bool-cases, arith,
}
use mathlib.Core.List.{append-nil}
use kubernetes_controller_sh.Base.Int.{ℤ}
use kubernetes_controller_sh.Consistenthash.{
  Hash, new, hash_or_default, tokens_or_default, hash_key,
}
use kubernetes_controller_sh.Consistenthash.Search.{ahead, IsNext-In, IsNext-restrict}
use kubernetes_controller_sh.Consistenthash.Owner.{
  node_tokens, ring_tokens, In→has, ring_tokens-append, owner-append_last, owner_of_In, owner-sound,
  In-node_tokens, has,
}
use kubernetes_controller_sh.Consistenthash.Placement.{
  length-pos_of_In, Places, Places-unique, Places-In, tokens_or_default-pos, first_token,
  hash_key-Places-bare, hash_key-none,
}

-- No two of the nodes share a token.
abbrev pub NoCollision : Hash → ℕ → List String → Type 0
NoCollision hash k nodes =
    (a b : String) (t : ℕ)
    → In a nodes
    → In b nodes
    → In t (node_tokens hash a 0 k)
    → In t (node_tokens hash b 0 k)
    → a ≡ b

module _ (default_hash : Hash) (h : Option Hash) (per_node : ℤ) where
  abbrev hash : Hash
  hash = hash_or_default default_hash h

  abbrev k : ℕ
  k = tokens_or_default per_node

  -- On a ring with nodes, `Hash` places every key on the owner of the next token, which is the last
  -- added node that has that token.
  pub hash_key-Places :
      (nodes : List String) (key : String)
      → 0 < length nodes
      → Places hash k nodes key (hash_key (new default_hash h per_node nodes) key)
  unfolding new
  hash_key-Places [] key p = absurd (omega arith)
  hash_key-Places (n ∷ ns) key p =
      let (t, m) = first_token hash k n ns (tokens_or_default-pos per_node) in
      hash_key-Places-bare hash k (n ∷ ns) key t m

  -- The ring answers with one of its nodes; with no nodes it answers with the empty string.
  pub hash_key-In :
      (nodes : List String) (key : String)
      → In (hash_key (new default_hash h per_node nodes) key) nodes
        ⊎ ((nodes ≡ []) × (hash_key (new default_hash h per_node nodes) key ≡ ""))
  unfolding new
  hash_key-In [] key = inr (refl, hash_key-none hash k [] key refl)
  hash_key-In (n ∷ ns) key =
      inl (Places-In hash k (n ∷ ns) key _ (hash_key-Places (n ∷ ns) key (omega arith)))

  -- A token of the longer ring that is none of the last node's is on the shorter ring.
  In-shorter :
      (nodes : List String) (n : String) (t : ℕ)
      → In t (ring_tokens hash k (nodes ++ n ∷ []))
      → has t (node_tokens hash n 0 k) ≡ false
      → In t (ring_tokens hash k nodes)
  In-shorter nodes n t m other =
      elim (In-append t (ring_tokens hash k nodes) (ring_tokens hash k (n ∷ []))
        (rw (ring_tokens-append hash k nodes (n ∷ [])) at m)) [
          | inl old ↦ old
          | inr new ↦ cc (
            other,
            In→has t (node_tokens hash n 0 k) (rw (append-nil (node_tokens hash n 0 k)) at new),
          )
        ]

  -- A node that is added last to a ring with nodes takes keys over, and moves no key between the
  -- nodes that were there.
  pub hash_key-append_last :
      (nodes : List String) (n key : String)
      → 0 < length nodes
      → (hash_key (new default_hash h per_node (nodes ++ n ∷ [])) key
          ≡ hash_key (new default_hash h per_node nodes) key)
        ⊎ (hash_key (new default_hash h per_node (nodes ++ n ∷ [])) key ≡ n)
  hash_key-append_last nodes n key p =
      let q = hash_key-Places (nodes ++ n ∷ []) key (omega (arith, length-append nodes (n ∷ []))) in
      let owned = owner-append_last hash k nodes n q.token in
      elim (Bool-cases (has q.token (node_tokens hash n 0 k))) [
        | inl mine ↦ inr (cc (q.owned, rw mine at owned))
        | inr other ↦ inl (
            Places-unique hash k nodes key _ _
              (record {
                token = q.token;
                next =
                    IsNext-restrict (ring_tokens hash k nodes) _ (hash key) q.token
                      (λ u m.
                        rw (ring_tokens-append hash k nodes (n ∷ [])) (In-append_left u _ _ m))
                      (In-shorter nodes n q.token (IsNext-In _ _ _ q.next) other) q.next;
                owned = sym (rw other at owned) ∙ q.owned;
              })
              (hash_key-Places nodes key p))
      ]

  -- A key that hashes to a token of the node added last is placed there, whoever else has the token.
  pub hash_key_of_token :
      (nodes : List String) (n key : String)
      → In (hash key) (node_tokens hash n 0 k)
      → hash_key (new default_hash h per_node (nodes ++ n ∷ [])) key ≡ n
  hash_key_of_token nodes n key m =
      Places-unique hash k (nodes ++ n ∷ []) key _ _
        (hash_key-Places (nodes ++ n ∷ []) key (omega (arith, length-append nodes (n ∷ []))))
        (record {
          token = hash key;
          next =
              ahead (In-node_tokens hash k _ (hash key) n (In-append_right n nodes _ (inl refl)) m)
                (omega arith) (λ u _ g. g);
          owned = owner-append_last hash k nodes n (hash key) ∙ rw (In→has (hash key) _ m);
        })

  In-more :
      (few many : List String)
      → ((n : String) → In n few → In n many)
      → (t : ℕ) → In t (ring_tokens hash k few)
      → In t (ring_tokens hash k many)
  In-more few many sub t m =
      let (n, e) = owner_of_In hash k few t m in
      let (a, b) = owner-sound hash k few t n e in In-node_tokens hash k many t n (sub n a) b

  -- Where no tokens collide, taking nodes away moves only the keys that were on those nodes, whatever
  -- the order of the nodes; read the other way, adding nodes moves keys only onto the added ones.
  pub hash_key-restrict :
      (few many : List String) (key : String)
      → ((n : String) → In n few → In n many)
      → NoCollision hash k many
      → In (hash_key (new default_hash h per_node many) key) few
      → hash_key (new default_hash h per_node few) key
        ≡ hash_key (new default_hash h per_node many) key
  hash_key-restrict few many key sub free m =
      let r = hash_key (new default_hash h per_node many) key in
      let q = hash_key-Places many key (length-pos_of_In r many (sub r m)) in
      let (inside, token) = owner-sound hash k many q.token r q.owned in
      let t = In-node_tokens hash k few q.token r m token in
      let (o, e) = owner_of_In hash k few q.token t in
      let (among, token') = owner-sound hash k few q.token o e in
      Places-unique hash k few key _ _ (hash_key-Places few key (length-pos_of_In r few m))
        (record {
          token = q.token;
          next = IsNext-restrict _ _ (hash key) q.token (In-more few many sub) t q.next;
          owned = e ∙ ap some (free o r q.token (sub o among) inside token' token);
        })
