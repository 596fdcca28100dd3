-- ===== src/Shardlease/Acquired.antt =====
-- What becomes of a lease that the controller has acquired.
use kubernetes_controller_sh.Base.{
  ◌≡◌, ◌≢◌, refl, ap, ◌∙◌, String, eq_iff, true, some, if◌then◌else◌, arith, ◌+◌, ◌*◌, ◌≤◌, ℕ,
}
use kubernetes_controller_sh.Base.Int.{ℤ, pos, ◌+ℤ◌, ◌-ℤ◌, ◌*ℤ◌, leb_ℤ}
use kubernetes_controller_sh.Api.Core.{Lease, identity_shard_lease_controller}
use kubernetes_controller_sh.Leases.{
  orphaned, dead, to_shard, to_state, to_times, times_of, times_at, lease_ttl, released,
}
use kubernetes_controller_sh.Leases.Duration.{seconds, time_add, IsNear}
use kubernetes_controller_sh.Leases.Timeline.{state_at, to_state-state_at}
use kubernetes_controller_sh.Shardlease.{acquire, rounded_seconds, int32}

seconds_pos : (n : ℕ) → seconds (pos n) ≡ pos (n * 1_000_000_000)
unfolding seconds ◌*ℤ◌
seconds_pos n = ground arith

rounded_seconds-seconds : (n : ℕ) → rounded_seconds (seconds (pos n)) ≡ pos n
unfolding rounded_seconds
rounded_seconds-seconds n = rw (seconds_pos n) (ground arith)

int32_small : (n : ℕ) → n ≤ 2_147_483_647 → int32 (pos n) ≡ pos n
unfolding int32
int32_small n h = ground arith

pos_add : (n m : ℕ) → pos n +ℤ pos m ≡ pos (n + m)
unfolding ◌+ℤ◌
pos_add n m = ground arith

seconds-IsNear : (n : ℕ) → n ≤ 2_147_483_647 → IsNear (seconds (pos n))
seconds-IsNear n h = rw (seconds_pos n) (omega arith)

acquired-released :
    (name : String)
    → name ≢ identity_shard_lease_controller
    → released (some identity_shard_lease_controller) name ≡ true
unfolding released
acquired-released name ne = ground (arith, eq_iff identity_shard_lease_controller name)

module _ (lease : Lease) (a r : ℤ) (n : ℕ) (now : ℤ) (micro_time : ℤ → ℤ) where
  acquired_seconds :
      lease.spec.acquire_time ≡ some a
      → lease.spec.renew_time ≡ some r
      → lease.spec.lease_duration_seconds ≡ some (pos n)
      → n ≤ 1_073_741_823
      → (acquire micro_time lease (to_shard lease now) now).spec.lease_duration_seconds
        ≡ some (pos (n + n))
  unfolding acquire to_shard to_times times_of times_at
  acquired_seconds ha hr hs small =
      rw (ha, hr, hs, rounded_seconds-seconds n, pos_add n n)
        (ap some (int32_small (n + n) (omega arith)))

  -- A lease that the controller acquires for a shard makes the shard dead for two of its lease
  -- durations and a minute from the time that is stored, and orphaned from then on, unless the lease is written again. (The
  -- times of the lease are set, its duration is at most 2^30 - 1 seconds, it is not named like the
  -- identity of the controller, and the clock and the new expiration lie at most 73 years apart.)
  pub to_state-acquire :
      (later : ℤ)
      → lease.spec.acquire_time ≡ some a
      → lease.spec.renew_time ≡ some r
      → lease.spec.lease_duration_seconds ≡ some (pos n)
      → n ≤ 1_073_741_823
      → lease.meta.name ≢ identity_shard_lease_controller
      → IsNear (time_add (micro_time now) (seconds (pos (n + n))) -ℤ later)
      → to_state (acquire micro_time lease (to_shard lease now) now) later ≡ (
          if leb_ℤ (time_add (micro_time now) (seconds (pos (n + n))) +ℤ lease_ttl) later
          then orphaned
          else dead)
  unfolding acquire
  to_state-acquire later ha hr hs small ne p =
      let acquired = acquire micro_time lease (to_shard lease now) now in
      to_state-state_at acquired later (micro_time now) (micro_time now) (pos (n + n)) refl refl
        (acquired_seconds ha hr hs small) p (seconds-IsNear (n + n) (omega arith))
      ∙ ap
          (λ b.
            state_at b (time_add (micro_time now) (seconds (pos (n + n)))) (seconds (pos (n + n)))
              later)
          (acquired-released lease.meta.name ne)
