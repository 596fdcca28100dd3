-- ===== src/Shardlease/Requeue.antt =====
-- When the reconciler looks at a shard again.
use kubernetes_controller_sh.Base.{
  ◌≡◌, refl, sym, ap, ◌↔◌, ◌⊎◌, inl, inr, Bool, true, Option, none, some, [], ◌∷◌, arith,
}
use kubernetes_controller_sh.Base.Int.{
  ℤ, pos, ◌+ℤ◌, ◌-ℤ◌, ◌≤ℤ◌, ltb_ℤ, +ℤ_parts, -ℤ_parts, eq_of_parts,
}
use kubernetes_controller_sh.Base.Result.{ok, err}
use kubernetes_controller_sh.Api.Client.{ApiError}
use mathlib.Core.Path.{subst}
use kubernetes_controller_sh.Api.Core.{Lease}
use kubernetes_controller_sh.Leases.{
  ShardState, unknown, orphaned, dead, uncertain, expired, ready, Shard, Times, to_shard, to_state,
  to_times, times_of, times_at, lease_ttl, released,
}
use kubernetes_controller_sh.Leases.Duration.{seconds, time_add, IsNear, time_sub_exact, add_exact}
use kubernetes_controller_sh.Leases.Timeline.{state_at, to_state-state_at}
use kubernetes_controller_sh.Shardlease.{
  Env, done, Reply, requeue_after, act, acquired_reply, deleted_reply,
}

-- The duration after which a state is looked at again, where nothing is written.
abbrev Waits : ShardState → Times → ℤ → Type 0
Waits ready times t = t ≡ times.to_expired
Waits expired times t = t ≡ times.to_uncertain
Waits dead times t = t ≡ times.to_orphaned
Waits _ times t = ⊥

-- The duration of a reply without a write.
abbrev wait_of : Reply → Option ℤ
wait_of (ok (requeue_after t), []) = some t
wait_of (ok (requeue_after t), c ∷ cs) = none
wait_of (ok done, cs) = none
wait_of (err e, cs) = none

acquired_reply-wait :
    (o : Option ApiError) (l : Lease) (t : ℤ) → wait_of (acquired_reply o l t) ≡ none
unfolding acquired_reply
acquired_reply-wait none l t = refl
acquired_reply-wait (some e) l t = refl

deleted_reply-wait : (o : Option ApiError) (l : Lease) → wait_of (deleted_reply o l) ≡ none
unfolding deleted_reply
deleted_reply-wait none l = refl
deleted_reply-wait (some e) l = refl

act-Waits :
    (env : Env) (lease : Lease) (shard : Shard) (s : ShardState) (t : ℤ)
    → act env lease shard s ≡ (ok (requeue_after t), [])
    → Waits s shard.times t
unfolding act
act-Waits env lease shard ready t h = cc (ap wait_of h)
act-Waits env lease shard expired t h = cc (ap wait_of h)
act-Waits env lease shard dead t h = cc (ap wait_of h)
act-Waits env lease shard uncertain t h = cc (ap wait_of h, acquired_reply-wait _ _ _)
act-Waits env lease shard orphaned t h = cc (ap wait_of h, deleted_reply-wait _ _)
act-Waits env lease shard unknown t h = cc (ap wait_of h)

-- The instant at which a state ends.
abbrev ends : ShardState → ℤ → ℤ → ℤ
ends dead e d = e +ℤ lease_ttl
ends expired e d = e +ℤ d
ends _ e d = e

wait_ends :
    (s : ShardState) (e d now t : ℤ)
    → IsNear (e -ℤ now)
    → IsNear d
    → Waits s (times_at e d now) t
    → now +ℤ t ≡ ends s e d
unfolding times_at
wait_ends ready e d now t p q w =
    rw (w, time_sub_exact e now p)
      (omega (arith, eq_of_parts, +ℤ_parts now (e -ℤ now), -ℤ_parts e now))
wait_ends expired e d now t p q w =
    rw (w, time_sub_exact e now p, add_exact (e -ℤ now) d p q)
      (eq_of_parts _ _ (
        omega (
          arith,
          +ℤ_parts now (e -ℤ now +ℤ d),
          +ℤ_parts (e -ℤ now) d,
          -ℤ_parts e now,
          +ℤ_parts e d,
        )))
wait_ends dead e d now t p q w =
    rw (w, time_sub_exact e now p, add_exact (e -ℤ now) lease_ttl p (omega arith))
      (eq_of_parts _ _ (
        omega (
          arith,
          +ℤ_parts now (e -ℤ now +ℤ lease_ttl),
          +ℤ_parts (e -ℤ now) lease_ttl,
          -ℤ_parts e now,
          +ℤ_parts e lease_ttl,
        )))
wait_ends uncertain e d now t p q w = absurd w
wait_ends orphaned e d now t p q w = absurd w
wait_ends unknown e d now t p q w = absurd w

state_at-ends :
    (s : ShardState) (b : Bool) (e d now later : ℤ)
    → pos 0 ≤ℤ d
    → now ≤ℤ later
    → state_at b e d now ≡ s
    → (s ≡ ready) ⊎ ((s ≡ expired) ⊎ (s ≡ dead))
    → (state_at b e d later ≡ s) ↔ (ltb_ℤ later (ends s e d) ≡ true)
state_at-ends ready b e d now later nonneg h st w = ground (arith, +ℤ_parts e d)
state_at-ends expired b e d now later nonneg h st w = ground (arith, +ℤ_parts e d)
state_at-ends dead b e d now later nonneg h st w = ground (arith, +ℤ_parts e d)
state_at-ends _ b e d now later nonneg h st w = absurd (ground arith)

Waits-cases :
    (s : ShardState) (times : Times) (t : ℤ)
    → Waits s times t
    → (s ≡ ready) ⊎ ((s ≡ expired) ⊎ (s ≡ dead))
Waits-cases ready times t w = inl refl
Waits-cases expired times t w = inr (inl refl)
Waits-cases dead times t w = inr (inr refl)
Waits-cases uncertain times t w = absurd w
Waits-cases orphaned times t w = absurd w
Waits-cases unknown times t w = absurd w

module _ (env : Env) (lease : Lease) (a r s : ℤ) where
  times-to_shard :
      lease.spec.acquire_time ≡ some a
      → lease.spec.renew_time ≡ some r
      → lease.spec.lease_duration_seconds ≡ some s
      → (to_shard lease env.now).times ≡ times_at (time_add r (seconds s)) (seconds s) env.now
  unfolding to_shard to_times times_of
  times-to_shard ha hr hs = rw (ha, hr, hs) refl

  -- If the reconciler only asks to be called again after a duration, then that is when the state of the
  -- shard changes next: until then the state is the one it found, and from then on it is another, unless
  -- the lease is written. (All times of the lease are set, its duration is not negative, and the clock
  -- and the expiration lie at most 73 years apart.)
  pub act-requeue_after :
      (t later : ℤ)
      → lease.spec.acquire_time ≡ some a
      → lease.spec.renew_time ≡ some r
      → lease.spec.lease_duration_seconds ≡ some s
      → IsNear (time_add r (seconds s) -ℤ env.now)
      → IsNear (time_add r (seconds s) -ℤ later)
      → IsNear (seconds s)
      → pos 0 ≤ℤ seconds s
      → env.now ≤ℤ later
      → act env lease (to_shard lease env.now) (to_state lease env.now) ≡ (ok (requeue_after t), [])
      → (to_state lease later ≡ to_state lease env.now) ↔ (ltb_ℤ later (env.now +ℤ t) ≡ true)
  act-requeue_after t later ha hr hs p p' q nonneg h replied =
      let e = time_add r (seconds s) in
      let b = released lease.spec.holder_identity lease.meta.name in
      let found = to_state-state_at lease env.now a r s ha hr hs p q in
      let w =
        subst (λ times. Waits (to_state lease env.now) times t) (times-to_shard ha hr hs)
          (act-Waits env lease (to_shard lease env.now) (to_state lease env.now) t replied) in
      rw
        (
          wait_ends (to_state lease env.now) e (seconds s) env.now t p q w,
          to_state-state_at lease later a r s ha hr hs p' q,
        )
        (state_at-ends (to_state lease env.now) b e (seconds s) env.now later nonneg h (sym found)
          (Waits-cases _ _ _ w))
