-- ===== src/Sharder/Workers/Deadlock.antt =====
-- What a cancelled context does to a resync whose queue is full: the producer waits for a worker, and
-- the workers have stopped.
use mathlib.Core.List.{append-nil, append_assoc}
use kubernetes_controller_sh.Base.{
  ℕ, zero, suc, ◌+◌, ◌≤◌, ◌≡◌, refl, sym, ap, ◌∙◌, true, false, List, [], ◌∷◌, ◌++◌, length,
  length-append, arith,
}
use mathlib.Core.Path.{subst}
use kubernetes_controller_sh.Sharder.Operation.{Operation, WorkItem, Client}
use kubernetes_controller_sh.Sharder.Workers.{
  Pool, Step, put, take, finish, cancel, stop, Reach, begin, next,
}

-- A pool in which only the producer has worked so far.
abbrev filled : ℕ → List WorkItem → List WorkItem → Pool
filled idle queue todo = record {
  todo = todo;
  queue = queue;
  taken = [];
  idle = idle;
  sent = [];
  errors = [];
  cancelled = false;
}

abbrev abandoned : ℕ → List WorkItem → List WorkItem → Pool
abandoned idle queue todo = record (filled idle queue todo) { cancelled = true }

module _ (concurrency : ℕ) (c : Client) (o : Operation) (items : List WorkItem) where
  fill :
      (queue front rest : List WorkItem)
      → length queue + length front ≤ concurrency
      → Reach concurrency c o items (filled concurrency queue (front ++ rest))
      → Reach concurrency c o items (filled concurrency (queue ++ front) rest)
  fill queue [] rest h r =
      subst (λ q. Reach concurrency c o items (filled concurrency q rest)) (sym (append-nil queue))
        r
  fill queue (w ∷ front) rest h r =
      subst (λ q. Reach concurrency c o items (filled concurrency q rest))
        (append_assoc queue (w ∷ []) front)
        (fill (queue ++ w ∷ []) front rest (omega (arith, h, length-append queue (w ∷ []))) (
          next r (
            put w (filled concurrency queue (w ∷ front ++ rest)) (front ++ rest) refl
              (omega (arith, h)))))

  stop_all :
      (idle : ℕ) (queue todo : List WorkItem)
      → Reach concurrency c o items (abandoned idle queue todo)
      → Reach concurrency c o items (abandoned zero queue todo)
  stop_all zero queue todo r = r
  stop_all (suc n) queue todo r =
      stop_all n queue todo (next r (stop (abandoned (suc n) queue todo) n refl refl))

-- No worker is left, and the queue is full.
stuck :
    (concurrency : ℕ) (c : Client) (o : Operation) (p q : Pool)
    → length p.queue ≡ concurrency
    → p.taken ≡ []
    → p.idle ≡ zero
    → p.cancelled ≡ true
    → Step concurrency c o p q
    → ⊥
stuck concurrency c o p q full none_taken none_idle over (put w p' rest e room) =
    absurd (omega (arith, full, room))
stuck concurrency c o p q full none_taken none_idle over (take w p' rest n e i) =
    absurd (omega (arith, none_idle, i))
stuck concurrency c o p q full none_taken none_idle over (finish w p' before after answer e a) =
    absurd (omega (arith, ap length (sym none_taken ∙ e), length-append before (w ∷ after)))
stuck concurrency c o p q full none_taken none_idle over (cancel p' e) = absurd (cc (over, e))
stuck concurrency c o p q full none_taken none_idle over (stop p' n e i) =
    absurd (omega (arith, none_idle, i))

-- If there are more work items than the queue holds, a cancellation can leave the resync in a state
-- with items left to put into the queue in which no step is possible: it never returns.
pub cancelled_deadlock :
    (concurrency : ℕ) (c : Client) (o : Operation) (front rest : List WorkItem) (w : WorkItem)
    → length front ≡ concurrency
    → (p : Pool) × Reach concurrency c o (front ++ w ∷ rest) p
      × (p.todo ≡ w ∷ rest)
      × ((q : Pool) → Step concurrency c o p q → ⊥)
cancelled_deadlock concurrency c o front rest w full =
    let items = front ++ w ∷ rest in
    let r = fill concurrency c o items [] front (w ∷ rest) (omega (arith, full)) begin in
    let s = next r (cancel (filled concurrency front (w ∷ rest)) refl) in
    (
      abandoned zero front (w ∷ rest),
      stop_all concurrency c o items concurrency front (w ∷ rest) s,
      refl,
      λ q step. stuck concurrency c o _ q full refl refl refl step,
    )
