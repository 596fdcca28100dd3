-- ===== src/Sharder/Workers/Conservation.antt =====
-- No interleaving of the workers loses or repeats a work item.
use mathlib.Core.List.{Perm}
use mathlib.Mathlib.Data.Multiset.Defs.{Multiset}
use kubernetes_controller_sh.Base.Bag.{bag, ◌⊕◌, bag-eq_iff, bag-append, ⊕_assoc, nil-⊕, bag_laws}
use kubernetes_controller_sh.Base.{
  ℕ, ◌≡◌, refl, sym, ap, ◌∙◌, ◌⊎◌, inl, inr, true, List, [], ◌∷◌, ◌++◌,
}
use kubernetes_controller_sh.Sharder.Operation.{
  Operation, WorkItem, Patch, Client, OperationError, item_patch, patch_error, process,
}
use kubernetes_controller_sh.Sharder.Workers.{
  Pool, IsDone, Step, put, take, finish, cancel, stop, Reach, begin, next,
}

module _ {X : Type 0} where
  -- What the items of a list yield, whatever their order.
  abbrev yield_of : (WorkItem → List X) → List WorkItem → Multiset X
  yield_of g [] = bag []
  yield_of g (w ∷ ws) = bag (g w) ⊕ yield_of g ws

  yield_of-append :
      (g : WorkItem → List X) (xs ys : List WorkItem)
      → yield_of g (xs ++ ys) ≡ yield_of g xs ⊕ yield_of g ys
  yield_of-append g [] ys = sym (nil-⊕ (yield_of g ys))
  yield_of-append g (x ∷ xs) ys =
      ap (λ s. bag (g x) ⊕ s) (yield_of-append g xs ys)
      ∙ sym (⊕_assoc (bag (g x)) (yield_of g xs) (yield_of g ys))

  -- What has come out of the pool, together with what is still in it.
  abbrev account : (WorkItem → List X) → List X → Pool → Multiset X
  account g out p = bag out ⊕ (yield_of g p.taken ⊕ (yield_of g p.queue ⊕ yield_of g p.todo))

  put_account :
      (g : WorkItem → List X) (s t : Multiset X) (queue rest : List WorkItem) (w : WorkItem)
      → s ⊕ (t ⊕ (yield_of g (queue ++ w ∷ []) ⊕ yield_of g rest))
        ≡ s ⊕ (t ⊕ (yield_of g queue ⊕ yield_of g (w ∷ rest)))
  put_account g s t queue rest w = rw (yield_of-append g queue (w ∷ [])) (simp bag_laws)

  exchange : (s w t r d : Multiset X) → s ⊕ ((w ⊕ t) ⊕ (r ⊕ d)) ≡ s ⊕ (t ⊕ ((w ⊕ r) ⊕ d))
  exchange s w t r d = simp bag_laws

  take_account :
      (g : WorkItem → List X) (s d : Multiset X) (taken rest : List WorkItem) (w : WorkItem)
      → s ⊕ (yield_of g (w ∷ taken) ⊕ (yield_of g rest ⊕ d))
        ≡ s ⊕ (yield_of g taken ⊕ (yield_of g (w ∷ rest) ⊕ d))
  take_account g s d taken rest w = exchange s (bag (g w)) (yield_of g taken) (yield_of g rest) d

  finish_account :
      (g : WorkItem → List X) (out : List X) (d : Multiset X) (before after : List WorkItem)
      (w : WorkItem)
      → bag (out ++ g w) ⊕ (yield_of g (before ++ after) ⊕ d)
        ≡ bag out ⊕ (yield_of g (before ++ w ∷ after) ⊕ d)
  finish_account g out d before after w =
      rw
        (bag-append out (g w), yield_of-append g before after, yield_of-append g before (w ∷ after))
        (simp bag_laws)

module _ (concurrency : ℕ) (c : Client) (o : Operation) where
  patches_of : WorkItem → List Patch
  patches_of w = item_patch o w ∷ []

  errors_of : WorkItem → List OperationError
  errors_of w = patch_error w (c.patch (item_patch o w))

  Step-sent :
      {p q : Pool}
      → Step concurrency c o p q
      → account patches_of q.sent q ≡ account patches_of p.sent p
  unfolding patches_of
  Step-sent (put w p rest e room) = rw e (put_account patches_of _ _ p.queue rest w)
  Step-sent (take w p rest n e i) = rw e (take_account patches_of _ _ p.taken rest w)
  Step-sent (finish w p before after answer e a) =
      rw e (finish_account patches_of p.sent _ before after w)
  Step-sent (cancel p e) = refl
  Step-sent (stop p n e i) = refl

  Step-errors :
      {p q : Pool}
      → Step concurrency c o p q
      → (account errors_of q.errors q ≡ account errors_of p.errors p) ⊎ (q.cancelled ≡ true)
  unfolding errors_of
  Step-errors (put w p rest e room) = inl (rw e (put_account errors_of _ _ p.queue rest w))
  Step-errors (take w p rest n e i) = inl (rw e (take_account errors_of _ _ p.taken rest w))
  Step-errors (finish w p before after answer e (inl a)) =
      inl (rw (e, a) (finish_account errors_of p.errors _ before after w))
  Step-errors (finish w p before after answer e (inr over)) = inr over
  Step-errors (cancel p e) = inl refl
  Step-errors (stop p n e i) = inl refl

  -- A cancelled context stays so.
  Step-cancelled : {p q : Pool} → Step concurrency c o p q → p.cancelled ≡ true → q.cancelled ≡ true
  Step-cancelled (put w p rest e room) h = h
  Step-cancelled (take w p rest n e i) h = h
  Step-cancelled (finish w p before after answer e a) h = h
  Step-cancelled (cancel p e) h = refl
  Step-cancelled (stop p n e i) h = h

  -- What a run of `process` yields, in order.
  process-sent : (ws : List WorkItem) → bag (process c o ws).0 ≡ yield_of patches_of ws
  unfolding process patches_of
  process-sent [] = refl
  process-sent (w ∷ ws) =
      bag-append (item_patch o w ∷ []) (process c o ws).0
      ∙ ap (λ s. bag (item_patch o w ∷ []) ⊕ s) (process-sent ws)

  process-errors : (ws : List WorkItem) → bag (process c o ws).1 ≡ yield_of errors_of ws
  unfolding process errors_of
  process-errors [] = refl
  process-errors (w ∷ ws) =
      bag-append (patch_error w (c.patch (item_patch o w))) (process c o ws).1
      ∙ ap (λ s. bag (patch_error w (c.patch (item_patch o w))) ⊕ s) (process-errors ws)

  Reach-sent :
      (items : List WorkItem) {p : Pool}
      → Reach concurrency c o items p
      → account patches_of p.sent p ≡ bag (process c o items).0
  Reach-sent items begin = nil-⊕ _ ∙ nil-⊕ _ ∙ nil-⊕ _ ∙ sym (process-sent items)
  Reach-sent items (next r s) = Step-sent s ∙ Reach-sent items r

  Reach-errors :
      (items : List WorkItem) {p : Pool}
      → Reach concurrency c o items p
      → (account errors_of p.errors p ≡ bag (process c o items).1) ⊎ (p.cancelled ≡ true)
  Reach-errors items begin = inl (nil-⊕ _ ∙ nil-⊕ _ ∙ nil-⊕ _ ∙ sym (process-errors items))
  Reach-errors items (next r s) = elim (Reach-errors items r) [
    | inr over ↦ inr (Step-cancelled s over)
    | inl before ↦ elim (Step-errors s) [ inl same ↦ inl (same ∙ before) | inr over ↦ inr over ]
  ]

  done_account :
      {X : Type 0} (g : WorkItem → List X) (out : List X) (p : Pool)
      → IsDone p
      → account g out p ≡ bag out
  done_account g out p (t, q, k) = rw (t, q, k) (simp bag_laws)

  -- In whatever order the producer and the workers take their steps, when nothing is left to do they have
  -- sent the patches that processing the items one after the other does, in some order: each item was
  -- processed once. They have also reported the same errors, in some order, unless the context was
  -- cancelled.
  pub Reach-process :
      (items : List WorkItem) {p : Pool}
      → Reach concurrency c o items p
      → IsDone p
      → Perm p.sent (process c o items).0
        × (Perm p.errors (process c o items).1 ⊎ (p.cancelled ≡ true))
  Reach-process items {p} r done = (
    (bag-eq_iff _ _).0 (sym (done_account patches_of p.sent p done) ∙ Reach-sent items r),
    elim (Reach-errors items r) [
      | inl same ↦ inl ((bag-eq_iff _ _).0 (sym (done_account errors_of p.errors p done) ∙ same))
      | inr over ↦ inr over
    ],
  )
