-- ===== src/Shardlease/Calls.antt =====
-- Which writes the reconciler makes, and in which state of the shard.
use kubernetes_controller_sh.Base.{String, ◌==◌, ◌≡◌, ◌⊎◌, some, if◌then◌else◌}
use kubernetes_controller_sh.Base.Result.{Result, ok}
use kubernetes_controller_sh.Api.Core.{Lease, label_state, identity_shard_lease_controller}
use kubernetes_controller_sh.Api.Labels.{find_label}
use kubernetes_controller_sh.Leases.{ShardState, orphaned, uncertain, to_string}
use kubernetes_controller_sh.Shardlease.{
  Call, patch_call, update_call, delete_call, Env, with_state_label,
}

-- The lease that the calls after the labelling work on: the lease that was read, or what the server
-- answered to the patch of its state label.
abbrev pub IsCurrent : Env → Lease → ShardState → Lease → Type 0
IsCurrent env lease state l = (l ≡ lease) ⊎ (env.patch lease (with_state_label lease state) ≡ ok l)

-- What a lease is that the controller has acquired: it is held by the controller, from now on, and
-- everything but its spec is as before.
pub record IsAcquired (env : Env) (l acquired : Lease) : Type 0 where
  pub holder : acquired.spec.holder_identity ≡ some identity_shard_lease_controller
  pub acquired_now : acquired.spec.acquire_time ≡ some (env.micro_time env.now)
  pub renewed_now : acquired.spec.renew_time ≡ some (env.micro_time env.now)
  pub same_object : acquired.meta ≡ l.meta

-- A write that a state of the shard allows for the lease that was read: the lease is deleted only when
-- the shard is orphaned, and acquired only when it is uncertain; the state label is written in any
-- state, and nothing else with it.
abbrev pub Allows : Env → Lease → ShardState → Call → Type 0
Allows env lease state (patch_call before after) =
    (before ≡ lease)
    × (after.spec ≡ lease.spec)
    × ((k : String)
        → find_label after.meta.labels k
          ≡ (if label_state == k then some (to_string state) else find_label lease.meta.labels k))
Allows env lease state (update_call acquired) =
    (state ≡ uncertain) × ((l : Lease) × IsCurrent env lease state l × IsAcquired env l acquired)
Allows env lease state (delete_call l) = (state ≡ orphaned) × IsCurrent env lease state l
