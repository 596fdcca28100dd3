-- ===== src/Examples/Timing.antt =====
-- A shard whose lease is renewed at 100 s for 15 s, and its controller.
use kubernetes_controller_sh.Base.{
  ◌≡◌, ◌≢◌, refl, ◌↔◌, true, none, some, [], arith, if◌then◌else◌, eq_iff,
}
use kubernetes_controller_sh.Base.Int.{ℤ, pos, ◌+ℤ◌, ◌-ℤ◌, ◌≤ℤ◌, ltb_ℤ, leb_ℤ, ◌*ℤ◌}
use kubernetes_controller_sh.Base.Result.{ok}
use kubernetes_controller_sh.Api.Core.{Lease, identity_shard_lease_controller}
use kubernetes_controller_sh.Leases.{
  uncertain, dead, orphaned, to_state, to_shard, released, lease_ttl, to_state_of, to_times,
  times_of, times_at,
}
use kubernetes_controller_sh.Leases.Duration.{seconds, time_add, time_sub, add, IsNear}
use kubernetes_controller_sh.Leases.Timeline.{state_at, to_state-state_at}
use kubernetes_controller_sh.Shardlease.{Env, requeue_after, act, acquire, with_state_label}
use kubernetes_controller_sh.Shardlease.Requeue.{act-requeue_after}
use kubernetes_controller_sh.Shardlease.Acquired.{to_state-acquire}
use kubernetes_controller_sh.Examples.Data.{lease_of, at}

abbrev held : Lease
held = lease_of "shard" (some "shard")

-- All instants here lie within two minutes of each other.
expiry : time_add (at 100) (seconds (pos 15)) ≡ at 115
unfolding time_add seconds ◌+ℤ◌ ◌*ℤ◌
expiry = refl

gap_112 : IsNear (time_add (at 100) (seconds (pos 15)) -ℤ at 112)
unfolding time_add seconds ◌+ℤ◌ ◌*ℤ◌ ◌-ℤ◌
gap_112 = (omega arith, omega arith)

gap_120 : IsNear (time_add (at 100) (seconds (pos 15)) -ℤ at 120)
unfolding time_add seconds ◌+ℤ◌ ◌*ℤ◌ ◌-ℤ◌
gap_120 = (omega arith, omega arith)

gap_15 : IsNear (seconds (pos 15))
unfolding seconds ◌*ℤ◌
gap_15 = (omega arith, omega arith)

to_state-state_at_example :
    to_state held (at 120)
    ≡ state_at
        (released (some "shard") "shard")
        (time_add (at 100) (seconds (pos 15)))
        (seconds (pos 15))
        (at 120)
to_state-state_at_example =
    to_state-state_at held (at 120) (at 100) (at 100) (pos 15) refl refl refl gap_120 gap_15

abbrev untimed : Lease
untimed = record held { spec = record held.spec { renew_time = none } }

-- A client that answers every call.
abbrev answering : Lease → ℤ → Env
answering lease now = record {
  get_lease = λ name. ok lease;
  get_ring = λ name. ok tt;
  patch = λ before after. ok after;
  update = λ l. none;
  delete = λ l. none;
  now = now;
  micro_time = λ t. t;
}

not_negative : pos 0 ≤ℤ seconds (pos 15)
unfolding seconds ◌*ℤ◌
not_negative = omega arith

requeued :
    act (answering held (at 112)) held (to_shard held (at 112)) (to_state held (at 112))
    ≡ (ok (requeue_after (pos 3_000_000_000)), [])
unfolding act to_shard to_state to_state_of to_times times_of times_at released time_add time_sub
    add seconds ◌+ℤ◌ ◌*ℤ◌ ◌-ℤ◌
requeued = refl

act-requeue_after_example :
    (to_state held (at 120) ≡ to_state held (at 112))
    ↔ (ltb_ℤ (at 120) (at 112 +ℤ pos 3_000_000_000) ≡ true)
act-requeue_after_example =
    act-requeue_after (answering held (at 112)) held (at 100) (at 100) (pos 15) (pos 3_000_000_000)
      (at 120) refl refl refl gap_112 gap_120 gap_15 not_negative (omega arith) requeued

other_name : "shard" ≢ identity_shard_lease_controller
other_name e = absurd (cc ((eq_iff "shard" identity_shard_lease_controller).1 e))

gap_new : IsNear (time_add (at 140) (seconds (pos 30)) -ℤ at 200)
unfolding time_add seconds ◌+ℤ◌ ◌*ℤ◌ ◌-ℤ◌
gap_new = (omega arith, omega arith)

to_state-acquire_example :
    to_state (acquire (λ t. t) held (to_shard held (at 140)) (at 140)) (at 200) ≡ (
      if leb_ℤ (time_add (at 140) (seconds (pos 30)) +ℤ lease_ttl) (at 200) then orphaned else dead)
to_state-acquire_example =
    to_state-acquire held (at 100) (at 100) 15 (at 140) (λ t. t) (at 200) refl refl refl
      (omega arith) other_name gap_new

abbrev taken : Lease
taken = acquire (λ t. t) (with_state_label held uncertain) (to_shard held (at 140)) (at 140)
