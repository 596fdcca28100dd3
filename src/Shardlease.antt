-- ===== src/Shardlease.antt =====
-- pkg/controller/shardlease/reconciler.go: the life of a shard's Lease.
pub mod Calls
pub mod Requeue
pub mod Acquired
use kubernetes_controller_sh.Base.{
  ℕ, zero, suc, ◌+◌, ◌/◌, ◌%◌, String, ◌==◌, ◌≡◌, Bool, true, false, Option, none, some, List, [],
  ◌∷◌, if◌then◌else◌, eqb, leb,
}
use kubernetes_controller_sh.Base.Int.{ℤ, pos, negsuc, ◌+ℤ◌, ◌-ℤ◌, ltb_ℤ}
use kubernetes_controller_sh.Base.Result.{Result, ok, err}
use kubernetes_controller_sh.Api.Core.{
  Lease, LeaseSpec, ObjectMeta, label_controller_ring, label_state, identity_shard_lease_controller,
}
use kubernetes_controller_sh.Api.Labels.{get_label, set_label}
use kubernetes_controller_sh.Api.Client.{ApiError, is_not_found}
use kubernetes_controller_sh.Leases.{
  ShardState, unknown, orphaned, dead, uncertain, expired, ready, ordinal, to_string,
  state_from_string, Shard, to_shard,
}

-- The writes of the reconciler: the merge patch of a lease, its update, its deletion.
pub data Call : Type 0 where
  patch_call : Lease → Lease → Call
  update_call : Lease → Call
  delete_call : Lease → Call

-- The client and the clock. A patch answers with the object that the API server then has.
pub record Env : Type 0 where
  pub get_lease : String → Result ApiError Lease
  pub get_ring : String → Result ApiError (Unit {0})
  pub patch : Lease → Lease → Result ApiError Lease
  pub update : Lease → Option ApiError
  pub delete : Lease → Option ApiError
  pub now : ℤ
  -- A time as the API server stores it in a MicroTime.
  pub micro_time : ℤ → ℤ

pub data ReconcileError : Type 0 where
  retrieving_object checking_ring updating_label acquiring deleting : ApiError → ReconcileError

pub data Outcome : Type 0 where
  done : Outcome
  requeue_after : ℤ → Outcome

abbrev pub Reply : Type 0
Reply = Result ReconcileError Outcome × List Call

-- `int32(d.Round(time.Second).Seconds())`, for a duration of whole seconds of an int32.
unfoldable pub rounded_seconds : ℤ → ℤ
rounded_seconds (pos n) = pos ((n + 500_000_000) / 1_000_000_000)
rounded_seconds (negsuc n) = pos 0 -ℤ pos ((suc n + 500_000_000) / 1_000_000_000)

-- Arithmetic of int32 wraps; the sums here leave the range by less than its size.
unfoldable pub int32 : ℤ → ℤ
int32 x =
    if ltb_ℤ (pos 2_147_483_647) x
    then x -ℤ pos 4_294_967_296
    else if ltb_ℤ x (negsuc 2_147_483_647)
    then x +ℤ pos 4_294_967_296
    else x

transitions_or_zero : Option ℤ → ℤ
transitions_or_zero none = pos 0
transitions_or_zero (some n) = n

-- The lease that the controller writes to acquire it, as it is stored.
unfoldable pub acquire : (ℤ → ℤ) → Lease → Shard → ℤ → Lease
unfolding transitions_or_zero
acquire micro_time lease shard now =
    let s = rounded_seconds shard.times.lease_duration in
    record lease {
      spec = record {
        holder_identity = some identity_shard_lease_controller;
        lease_duration_seconds = some (int32 (s +ℤ s));
        acquire_time = some (micro_time now);
        renew_time = some (micro_time now);
        lease_transitions =
            some (int32 (transitions_or_zero lease.spec.lease_transitions +ℤ pos 1));
      };
    }

-- `SetMetaDataLabel(&lease.ObjectMeta, LabelState, state)`
unfoldable pub with_state_label : Lease → ShardState → Lease
with_state_label lease state = record lease {
  meta = record lease.meta { labels = set_label lease.meta.labels label_state (to_string state) };
}

unfoldable pub acquired_reply : Option ApiError → Lease → ℤ → Reply
acquired_reply none lease requeue = (ok (requeue_after requeue), update_call lease ∷ [])
acquired_reply (some e) lease requeue = (err (acquiring e), update_call lease ∷ [])

unfoldable pub deleted_reply : Option ApiError → Lease → Reply
deleted_reply none lease = (ok done, delete_call lease ∷ [])
deleted_reply (some e) lease = (err (deleting e), delete_call lease ∷ [])

-- The `switch` on the state.
unfoldable pub act : Env → Lease → Shard → ShardState → Reply
unfolding acquired_reply deleted_reply
act env lease shard ready = (ok (requeue_after shard.times.to_expired), [])
act env lease shard expired = (ok (requeue_after shard.times.to_uncertain), [])
act env lease shard uncertain =
    let acquired = acquire env.micro_time lease shard env.now in
    acquired_reply (env.update acquired) acquired shard.times.lease_duration
act env lease shard dead = (ok (requeue_after shard.times.to_orphaned), [])
act env lease shard orphaned = deleted_reply (env.delete lease) lease
act env lease shard unknown = (ok done, [])

unfoldable pub after_patch : Env → Lease → Lease → Shard → Result ApiError Lease → Reply
after_patch env before after shard (err e) = (err (updating_label e), patch_call before after ∷ [])
after_patch env before after shard (ok lease) =
    let reply = act env lease shard shard.state in (reply.0, patch_call before after ∷ reply.1)

unfoldable pub previous_state : Lease → ShardState
previous_state lease = state_from_string (get_label lease.meta.labels label_state)

unfoldable pub maintain : Env → Lease → Shard → Reply
unfolding after_patch previous_state with_state_label
maintain env lease shard =
    if eqb (ordinal (previous_state lease)) (ordinal shard.state)
    then act env lease shard shard.state
    else (let after = with_state_label lease shard.state in
        after_patch env lease after shard (env.patch lease after))

unfoldable pub with_ring : Env → Lease → Result ApiError (Unit {0}) → Reply
with_ring env lease (err e) = (if is_not_found e then ok done else err (checking_ring e), [])
with_ring env lease (ok u) = maintain env lease (to_shard lease env.now)

unfoldable pub with_lease : Env → Result ApiError Lease → Reply
with_lease env (err e) = (if is_not_found e then ok done else err (retrieving_object e), [])
with_lease env (ok lease) =
    let ring_name = get_label lease.meta.labels label_controller_ring in
    if ring_name == "" then (ok done, []) else with_ring env lease (env.get_ring ring_name)

unfoldable pub reconcile : Env → String → Reply
reconcile env name = with_lease env (env.get_lease name)
