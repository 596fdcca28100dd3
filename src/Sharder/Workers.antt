-- ===== src/Sharder/Workers.antt =====
-- pkg/controller/sharder/reconciler.go, `ResyncControllerRing`: the producer of work items, the
-- buffered queue and the workers, interleaved in any order.
pub mod Conservation
pub mod Progress
pub mod Deadlock
use kubernetes_controller_sh.Base.{
  ℕ, suc, ◌<◌, ◌≡◌, ◌⊎◌, Bool, true, false, Option, List, [], ◌∷◌, ◌++◌, length, arith,
}
use kubernetes_controller_sh.Api.Client.{ApiError}
use kubernetes_controller_sh.Sharder.Operation.{
  Operation, WorkItem, Patch, Client, OperationError, item_patch, patch_error,
}

-- The items not yet put into the queue, the queue, the items that the workers have taken, the workers
-- that wait for an item, and what was sent and reported.
pub record Pool : Type 0 where
  pub todo : List WorkItem
  pub queue : List WorkItem
  pub taken : List WorkItem
  pub idle : ℕ
  pub sent : List Patch
  pub errors : List OperationError
  pub cancelled : Bool

-- `Concurrency` is the size of the queue and the number of workers.
abbrev pub start : ℕ → List WorkItem → Pool
start concurrency items = record {
  todo = items;
  queue = [];
  taken = [];
  idle = concurrency;
  sent = [];
  errors = [];
  cancelled = false;
}

pub data Step (concurrency : ℕ) (c : Client) (o : Operation) : Pool → Pool → Type 0 where
  -- `work <- w`, which blocks while the queue is full.
  put :
      (w : WorkItem) (p : Pool) (rest : List WorkItem)
      → p.todo ≡ w ∷ rest
      → length p.queue < concurrency
      → Step concurrency c o p (record p { todo = rest; queue = p.queue ++ w ∷ [] })
  -- `w, ok := <-work`
  take :
      (w : WorkItem) (p : Pool) (rest : List WorkItem) (n : ℕ)
      → p.queue ≡ w ∷ rest
      → p.idle ≡ suc n
      → Step concurrency c o p (record p { queue = rest; taken = w ∷ p.taken; idle = n })
  -- A worker sends the patch of its item and reports the error, if there is one. With a cancelled
  -- context a patch can get any answer.
  finish :
      (w : WorkItem) (p : Pool) (before after : List WorkItem) (answer : Option ApiError)
      → p.taken ≡ before ++ w ∷ after
      → (answer ≡ c.patch (item_patch o w)) ⊎ (p.cancelled ≡ true)
      → Step concurrency c o p (record p {
        taken = before ++ after;
        idle = suc p.idle;
        sent = p.sent ++ item_patch o w ∷ [];
        errors = p.errors ++ patch_error w answer;
      })
  -- The context is cancelled.
  cancel : (p : Pool) → p.cancelled ≡ false → Step concurrency c o p (record p { cancelled = true })
  -- `<-ctx.Done()`: the worker stops.
  stop :
      (p : Pool) (n : ℕ)
      → p.cancelled ≡ true
      → p.idle ≡ suc n
      → Step concurrency c o p (record p { idle = n })

pub data Reach (concurrency : ℕ) (c : Client) (o : Operation) (items : List WorkItem)
    : Pool → Type 0 where
  begin : Reach concurrency c o items (start concurrency items)
  next :
      {p q : Pool}
      → Reach concurrency c o items p
      → Step concurrency c o p q
      → Reach concurrency c o items q

-- Nothing is left to do.
abbrev pub IsDone : Pool → Type 0
IsDone p = (p.todo ≡ []) × (p.queue ≡ []) × (p.taken ≡ [])
