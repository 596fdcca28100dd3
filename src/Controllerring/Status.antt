-- ===== src/Controllerring/Status.antt =====
-- When the status of a ring is written.
use kubernetes_controller_sh.Base.{◌≡◌, refl, true, none, List, []}
use kubernetes_controller_sh.Base.Result.{ok}
use kubernetes_controller_sh.Api.Core.{Lease}
use kubernetes_controller_sh.Api.ControllerRing.{ControllerRing, ControllerRingStatus, Condition}
use kubernetes_controller_sh.Controllerring.{
  Env, ready_condition, with_condition, optionally_update_status, failed_update,
  update_status_success, with_counts, with_leases,
}

-- What the library does to a list of conditions is done once.
abbrev pub IsIdempotent : Env → Type 0
IsIdempotent env =
    (conditions : List Condition) (c : Condition)
    → env.set_status_condition (env.set_status_condition conditions c) c
      ≡ env.set_status_condition conditions c

abbrev pub IsReflexive : Env → Type 0
IsReflexive env = (s : ControllerRingStatus) → env.semantic_equal s s ≡ true

-- The ring that a successful reconciliation leaves.
abbrev pub settled : Env → ControllerRing → List Lease → ControllerRing
settled env ring leases =
    let counted = with_counts ring leases env.now in
    with_condition env counted (
      ready_condition counted "True" "ReconciliationSucceeded"
        "ControllerRing was successfully reconciled")

-- Reconciling the ring that a successful reconciliation left, with the same shards, does not write
-- the status again. (Setting a condition twice is setting it once, and a status is equal to
-- itself.)
pub with_leases-settled :
    (env : Env) (ring : ControllerRing) (leases : List Lease)
    → IsIdempotent env
    → IsReflexive env
    → with_leases env (settled env ring leases) (ok leases) ≡ (none, [])
unfolding with_leases update_status_success optionally_update_status with_counts with_condition
    ready_condition failed_update
with_leases-settled env ring leases idempotent reflexive =
    rw
      (
        idempotent ring.status.conditions (
            ready_condition ring "True" "ReconciliationSucceeded"
              "ControllerRing was successfully reconciled"),
        reflexive (settled env ring leases).status,
      )
      refl
