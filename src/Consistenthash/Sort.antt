-- ===== src/Consistenthash/Sort.antt =====
-- `slices.Sort`: the sorted list holds the same tokens, in ascending order.
use kubernetes_controller_sh.Base.{
  ℕ, zero, suc, ◌≤◌, ◌<◌, ◌≡◌, ◌⊎◌, inl, inr, List, [], ◌∷◌, length, get_or, In, leb, Bool-cases,
  arith,
}
use kubernetes_controller_sh.Consistenthash.{insert_sorted, sort}

abbrev pub AllGe : ℕ → List ℕ → Type 0
AllGe t [] = Unit
AllGe t (x ∷ xs) = (t ≤ x) × AllGe t xs

abbrev pub IsSorted : List ℕ → Type 0
IsSorted [] = Unit
IsSorted (x ∷ xs) = AllGe x xs × IsSorted xs

AllGe-weaken : (t u : ℕ) (xs : List ℕ) → t ≤ u → AllGe u xs → AllGe t xs
AllGe-weaken t u [] h g = tt
AllGe-weaken t u (x ∷ xs) h g = (omega arith, AllGe-weaken t u xs h g.1)

AllGe-insert_sorted : (t u : ℕ) (xs : List ℕ) → t ≤ u → AllGe t xs → AllGe t (insert_sorted u xs)
unfolding insert_sorted
AllGe-insert_sorted t u [] h g = (h, tt)
AllGe-insert_sorted t u (x ∷ xs) h g = elim (Bool-cases (leb u x)) [
  | inl le ↦ rw le (h, g)
  | inr gt ↦ rw gt (g.0, AllGe-insert_sorted t u xs h g.1)
]

insert_sorted-IsSorted : (t : ℕ) (xs : List ℕ) → IsSorted xs → IsSorted (insert_sorted t xs)
unfolding insert_sorted
insert_sorted-IsSorted t [] s = (tt, tt)
insert_sorted-IsSorted t (x ∷ xs) s = elim (Bool-cases (leb t x)) [
  | inl le ↦ rw le ((ground arith, AllGe-weaken t x xs (ground arith) s.0), s)
  | inr gt ↦ rw gt (AllGe-insert_sorted x t xs (ground arith) s.0, insert_sorted-IsSorted t xs s.1)
]

pub sort-IsSorted : (xs : List ℕ) → IsSorted (sort xs)
unfolding sort
sort-IsSorted [] = tt
sort-IsSorted (x ∷ xs) = insert_sorted-IsSorted x (sort xs) (sort-IsSorted xs)

In-insert_sorted : (a t : ℕ) (xs : List ℕ) → In a (insert_sorted t xs) → (a ≡ t) ⊎ In a xs
unfolding insert_sorted
In-insert_sorted a t [] m = m
In-insert_sorted a t (x ∷ xs) m = elim (Bool-cases (leb t x)) [
  | inl le ↦ rw le at m
  | inr gt ↦ elim (rw gt at m) as (λ _. (a ≡ t) ⊎ In a (x ∷ xs)) [
    | inl e ↦ inr (inl e)
    | inr k ↦ elim (In-insert_sorted a t xs k) [ inl e ↦ inl e | inr q ↦ inr (inr q) ]
  ]
]

insert_sorted-In : (a t : ℕ) (xs : List ℕ) → (a ≡ t) ⊎ In a xs → In a (insert_sorted t xs)
unfolding insert_sorted
insert_sorted-In a t [] m = m
insert_sorted-In a t (x ∷ xs) m = elim (Bool-cases (leb t x)) [
  | inl le ↦ rw le m
  | inr gt ↦ rw gt (elim m [
    | inl e ↦ inr (insert_sorted-In a t xs (inl e))
    | inr q ↦ elim q [ inl e ↦ inl e | inr k ↦ inr (insert_sorted-In a t xs (inr k)) ]
  ])
]

pub In-sort : (a : ℕ) (xs : List ℕ) → In a (sort xs) → In a xs
unfolding sort
In-sort a [] m = m
In-sort a (x ∷ xs) m = elim (In-insert_sorted a x (sort xs) m) [
  | inl e ↦ inl e
  | inr k ↦ inr (In-sort a xs k)
]

pub sort-In : (a : ℕ) (xs : List ℕ) → In a xs → In a (sort xs)
unfolding sort
sort-In a [] m = m
sort-In a (x ∷ xs) (inl e) = insert_sorted-In a x (sort xs) (inl e)
sort-In a (x ∷ xs) (inr m) = insert_sorted-In a x (sort xs) (inr (sort-In a xs m))

AllGe-get_or : (t : ℕ) (xs : List ℕ) (i : ℕ) → AllGe t xs → i < length xs → t ≤ get_or xs i 0
AllGe-get_or t [] i g h = elim h [ ]
AllGe-get_or t (x ∷ xs) zero g h = g.0
AllGe-get_or t (x ∷ xs) (suc i) g h = AllGe-get_or t xs i g.1 (omega arith)

-- In a sorted list a later index holds no smaller token.
pub get_or_mono :
    (xs : List ℕ) (i j : ℕ) → IsSorted xs → i ≤ j → j < length xs → get_or xs i 0 ≤ get_or xs j 0
get_or_mono [] i j s le h = elim h [ ]
get_or_mono (x ∷ xs) zero zero s le h = omega arith
get_or_mono (x ∷ xs) zero (suc j) s le h = AllGe-get_or x xs j s.0 (omega arith)
get_or_mono (x ∷ xs) (suc i) zero s le h = absurd (omega arith)
get_or_mono (x ∷ xs) (suc i) (suc j) s le h = get_or_mono xs i j s.1 (omega arith) (omega arith)
