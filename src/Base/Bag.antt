-- ===== src/Base/Bag.antt =====
-- Lists up to order: multisets with a sum that does not compute, for rewriting.
use mathlib.Core.Path.{◌≡◌, sym, ap, ◌∙◌}
use mathlib.Core.Logic.{◌↔◌}
use mathlib.Core.List.{List, [], ◌++◌, Perm}
use mathlib.Mathlib.Data.Multiset.Defs.{Multiset, of_list, coe-eq-coe}
use mathlib.Mathlib.Data.Multiset.AddSub as AddSub
use mathlib.Mathlib.Data.Multiset.AddSub.{zero-add, add-zero, coe-add}

module _ {X : Type 0} where
  pub bag : List X → Multiset X
  bag xs = of_list xs

  infixr 60 ◌⊕◌
  pub ◌⊕◌ : Multiset X → Multiset X → Multiset X
  s ⊕ t = AddSub.add s t

  pub bag-eq_iff : (xs ys : List X) → (bag xs ≡ bag ys) ↔ Perm xs ys
  unfolding bag
  bag-eq_iff xs ys = coe-eq-coe {l₁ = xs} {l₂ = ys}

  pub bag-append : (xs ys : List X) → bag (xs ++ ys) ≡ bag xs ⊕ bag ys
  unfolding bag ◌⊕◌
  bag-append xs ys = sym (coe-add xs ys)

  pub ⊕_comm : (s t : Multiset X) → s ⊕ t ≡ t ⊕ s
  unfolding ◌⊕◌
  ⊕_comm s t = AddSub.add_comm s t

  pub ⊕_assoc : (s t u : Multiset X) → (s ⊕ t) ⊕ u ≡ s ⊕ (t ⊕ u)
  unfolding ◌⊕◌
  ⊕_assoc s t u = AddSub.add_assoc s t u

  pub ⊕_left_comm : (s t u : Multiset X) → s ⊕ (t ⊕ u) ≡ t ⊕ (s ⊕ u)
  ⊕_left_comm s t u = sym (⊕_assoc s t u) ∙ ap (λ v. v ⊕ u) (⊕_comm s t) ∙ ⊕_assoc t s u

  pub nil-⊕ : (s : Multiset X) → bag [] ⊕ s ≡ s
  unfolding bag ◌⊕◌
  nil-⊕ s = zero-add s

  pub ⊕-nil : (s : Multiset X) → s ⊕ bag [] ≡ s
  unfolding bag ◌⊕◌
  ⊕-nil s = add-zero s

pub ruleset bag_laws = (⊕_comm, ⊕_assoc, ⊕_left_comm, nil-⊕, ⊕-nil, bag-append)
