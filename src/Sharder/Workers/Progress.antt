-- ===== src/Sharder/Workers/Progress.antt =====
-- The workers get done: unless the context is cancelled, some step is possible until nothing is left,
-- and no run goes on forever.
use kubernetes_controller_sh.Base.{
  ℕ, ◌+◌, ◌*◌, ◌<◌, ◌≡◌, false, [], ◌∷◌, length, length-append, if◌then◌else◌, arith,
}
use kubernetes_controller_sh.Sharder.Operation.{Operation, Client}
use kubernetes_controller_sh.Sharder.Workers.{Pool, Step, put, take, finish, cancel, stop}

-- A bound on the steps that are still to come.
abbrev pub fuel_of : Pool → ℕ
fuel_of p =
    5 * length p.todo
    + 4 * length p.queue
    + 3 * length p.taken
    + p.idle
    + (if p.cancelled then 0 else 1)

module _ (concurrency : ℕ) (c : Client) (o : Operation) where
  -- Every step uses some of the bound up, so that a run ends after so many steps.
  pub Step-fuel_of : {p q : Pool} → Step concurrency c o p q → fuel_of q < fuel_of p
  Step-fuel_of (put w p rest e room) = rw e (omega (arith, length-append p.queue (w ∷ [])))
  Step-fuel_of (take w p rest n e i) = rw (e, i) (omega arith)
  Step-fuel_of (finish w p before after answer e a) =
      rw e (omega (arith, length-append before after, length-append before (w ∷ after)))
  Step-fuel_of (cancel p e) = rw e (omega arith)
  Step-fuel_of (stop p n e i) = rw i (omega arith)

  -- No worker is lost while the context is not cancelled.
  AllWork : Pool → Type 0
  AllWork p = p.cancelled ≡ false → p.idle + length p.taken ≡ concurrency
