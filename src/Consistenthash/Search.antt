-- ===== src/Consistenthash/Search.antt =====
-- `slices.BinarySearch` on the sorted tokens, and the index at which the ring is read.
use kubernetes_controller_sh.Base.{
  ℕ, zero, suc, ◌+◌, ◌-◌, ◌/◌, ◌≤◌, ◌<◌, ◌≡◌, inl, inr, false, List, length, get_or, In,
  index_of_In, In-get_or, eqb, ltb, Bool-cases, arith,
}
use kubernetes_controller_sh.Consistenthash.{search_loop, binary_search, next_index}
use kubernetes_controller_sh.Consistenthash.Sort.{IsSorted, get_or_mono}

-- `r` splits the list into tokens below the target and tokens not below it.
pub record Splits (xs : List ℕ) (target r : ℕ) : Type 0 where
  pub inside : r ≤ length xs
  pub below : (k : ℕ) → k < r → get_or xs k 0 < target
  pub above : (k : ℕ) → r ≤ k → k < length xs → target ≤ get_or xs k 0

record Inv (xs : List ℕ) (target i j : ℕ) : Type 0 where
  ordered : i ≤ j
  inside : j ≤ length xs
  below : (k : ℕ) → k < i → get_or xs k 0 < target
  above : (k : ℕ) → j ≤ k → k < length xs → target ≤ get_or xs k 0

module _ (xs : List ℕ) (target : ℕ) (sorted : IsSorted xs) where
  upper-Inv :
      (i j h : ℕ)
      → Inv xs target i j
      → i ≤ h
      → h < j
      → get_or xs h 0 < target
      → Inv xs target (h + 1) j
  upper-Inv i j h v lo hi lt = record {
    ordered = omega arith;
    inside = v.inside;
    below = λ k b. omega (arith, get_or_mono xs k h sorted (omega arith) (omega (arith, v.inside)));
    above = v.above;
  }

  lower-Inv :
      (i j h : ℕ) → Inv xs target i j → i ≤ h → h < j → target ≤ get_or xs h 0 → Inv xs target i h
  lower-Inv i j h v lo hi ge = record {
    ordered = lo;
    inside = omega (arith, v.inside);
    below = v.below;
    above = λ k a b. omega (arith, get_or_mono xs h k sorted a b);
  }

  search_loop-Splits :
      (fuel i j : ℕ)
      → j - i ≤ fuel
      → Inv xs target i j
      → Splits xs target (search_loop fuel xs target i j)
  unfolding search_loop
  search_loop-Splits zero i j f v = record {
    inside = omega (arith, v.inside, v.ordered);
    below = v.below;
    above = λ k a b. v.above k (omega (arith, v.ordered)) b;
  }
  search_loop-Splits (suc fuel) i j f v = elim (Bool-cases (ltb i j)) [
    | inl more ↦ elim (Bool-cases (ltb (get_or xs ((i + j) / 2) 0) target)) [
      | inl lt ↦ rw more (
          rw lt (
            search_loop-Splits fuel ((i + j) / 2 + 1) j (ground arith)
              (upper-Inv i j ((i + j) / 2) v (ground arith) (ground arith) (ground arith))))
      | inr ge ↦ rw more (
          rw ge (
            search_loop-Splits fuel i ((i + j) / 2) (ground arith)
              (lower-Inv i j ((i + j) / 2) v (ground arith) (ground arith) (ground arith))))
    ]
    | inr done ↦ rw done (record {
      inside = omega (arith, v.inside, v.ordered);
      below = v.below;
      above = λ k a b. v.above k (ground (arith, v.ordered)) b;
    })
  ]

  -- On sorted tokens the search ends at the index that splits them at the target.
  pub binary_search-Splits : Splits xs target (binary_search xs target)
  unfolding binary_search
  binary_search-Splits = search_loop-Splits (length xs) 0 (length xs) (omega arith) (record {
    ordered = omega arith;
    inside = omega arith;
    below = λ k h. absurd (omega arith);
    above = λ k a b. absurd (omega arith);
  })

-- `t` is the next token at or behind `h` on the ring, which goes round to the first token.
pub data IsNext (tokens : List ℕ) (h t : ℕ) : Type 0 where
  ahead : In t tokens → h ≤ t → ((u : ℕ) → In u tokens → h ≤ u → t ≤ u) → IsNext tokens h t
  around :
      In t tokens
      → ((u : ℕ) → In u tokens → u < h)
      → ((u : ℕ) → In u tokens → t ≤ u)
      → IsNext tokens h t

pub IsNext-In : (tokens : List ℕ) (h t : ℕ) → IsNext tokens h t → In t tokens
IsNext-In tokens h t (ahead m a b) = m
IsNext-In tokens h t (around m a b) = m

-- There is one next token.
pub IsNext-unique : (tokens : List ℕ) (h t u : ℕ) → IsNext tokens h t → IsNext tokens h u → t ≡ u
IsNext-unique tokens h t u (ahead m a b) (ahead n c d) = omega (arith, b u n c, d t m a)
IsNext-unique tokens h t u (ahead m a b) (around n c d) = absurd (omega (arith, c t m))
IsNext-unique tokens h t u (around m a b) (ahead n c d) = absurd (omega (arith, a u n))
IsNext-unique tokens h t u (around m a b) (around n c d) = omega (arith, b u n, d t m)

-- The next token among more tokens is the next among fewer, if it is one of those.
pub IsNext-restrict :
    (few many : List ℕ) (h t : ℕ)
    → ((u : ℕ) → In u few → In u many)
    → In t few
    → IsNext many h t
    → IsNext few h t
IsNext-restrict few many h t sub m (ahead n a b) = ahead m a (λ u k g. b u (sub u k) g)
IsNext-restrict few many h t sub m (around n a b) =
    around m (λ u k. a u (sub u k)) (λ u k. b u (sub u k))

module _ (tokens : List ℕ) (h : ℕ) where
  -- The index that `Hash` reads lies inside the list, whatever the order of the tokens.
  pub next_index-lt : IsSorted tokens → 0 < length tokens → next_index tokens h < length tokens
  unfolding next_index
  next_index-lt s p = ground (arith, (binary_search-Splits tokens h s).inside)

  -- What `Hash` reads there is the next token on the ring.
  pub next_index-IsNext :
      IsSorted tokens → 0 < length tokens → IsNext tokens h (get_or tokens (next_index tokens h) 0)
  unfolding next_index
  next_index-IsNext s p = elim (Bool-cases (eqb (binary_search tokens h) (length tokens))) [
    | inl past ↦ rw past (
        around (In-get_or tokens 0 0 p)
          (λ u m.
            let (k, lt, e) = index_of_In u tokens 0 m in omega (arith, e, v.below k (ground arith)))
          (λ u m.
            let (k, lt, e) = index_of_In u tokens 0 m in
            omega (arith, e, get_or_mono tokens 0 k s (omega arith) lt)))
    | inr found ↦ rw found (
        ahead (In-get_or tokens (binary_search tokens h) 0 (inside_lt found))
          (v.above (binary_search tokens h) (omega arith) (inside_lt found))
          (λ u m ge.
            let (k, lt, e) = index_of_In u tokens 0 m in
            elim (Bool-cases (ltb k (binary_search tokens h))) [
              | inl low ↦ absurd (omega (arith, e, v.below k (ground arith)))
              | inr high ↦
                  omega
                    (arith, e, get_or_mono tokens (binary_search tokens h) k s (ground arith) lt)
            ]))
  ]
    where
      v : Splits tokens h (binary_search tokens h)
      v = binary_search-Splits tokens h s

      inside_lt :
          eqb (binary_search tokens h) (length tokens) ≡ false
          → binary_search tokens h < length tokens
      inside_lt found = ground (arith, v.inside)
