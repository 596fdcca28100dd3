-- ===== src/Examples/Working.antt =====
-- Two workers for two work items.
use kubernetes_controller_sh.Base.{◌≡◌, true, inl, ◌⊎◌, refl, List, [], ◌∷◌, arith}
use mathlib.Core.List.{Perm}
use kubernetes_controller_sh.Sharder.Operation.{WorkItem, item_patch, patch_error, process}
use kubernetes_controller_sh.Sharder.Workers.{
  Pool, start, Step, put, take, finish, Reach, begin, next,
}
use kubernetes_controller_sh.Sharder.Workers.Conservation.{Reach-process}
use kubernetes_controller_sh.Sharder.Workers.Deadlock.{cancelled_deadlock}
use kubernetes_controller_sh.Examples.Resync.{operation, item, client}

abbrev items : List WorkItem
items = item ∷ []

abbrev queued : Pool
queued = record (start 2 items) { todo = []; queue = items }

abbrev working : Pool
working = record queued { queue = []; taken = items; idle = 1 }

reached : Reach 2 client operation items working
reached =
    next (next begin (put item (start 2 items) [] refl (omega arith)))
      (take item queued [] 1 refl refl)

abbrev worked : Pool
worked = record working {
  taken = [];
  idle = 2;
  sent = item_patch operation item ∷ [];
  errors = patch_error item (client.patch (item_patch operation item));
}

Reach-process_example :
    Perm worked.sent (process client operation items).0
    × (Perm worked.errors (process client operation items).1 ⊎ (worked.cancelled ≡ true))
Reach-process_example =
    Reach-process 2 client operation items {p = worked}
      (next reached (finish item working [] [] _ refl (inl refl))) (refl, refl, refl)

cancelled_deadlock_example :
    (p : Pool) × Reach 2 client operation (item ∷ item ∷ item ∷ []) p
    × (p.todo ≡ item ∷ [])
    × ((q : Pool) → Step 2 client operation p q → ⊥)
cancelled_deadlock_example = cancelled_deadlock 2 client operation (item ∷ item ∷ []) [] item refl
