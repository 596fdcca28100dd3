-- ===== src/Leases/Timeline.antt =====
-- The state of a shard over time, told by instants instead of by the durations that `ToTimes` computes.
use kubernetes_controller_sh.Base.{
  ◌≤◌, ◌≡◌, refl, ◌∙◌, Bool, Option, none, some, if◌then◌else◌, arith, ◌⊎◌,
}
use kubernetes_controller_sh.Base.Int.{ℤ, pos, ◌+ℤ◌, ◌-ℤ◌, ◌≤ℤ◌, leb_ℤ, +ℤ_parts, -ℤ_parts}
use kubernetes_controller_sh.Api.Core.{Lease}
use kubernetes_controller_sh.Leases.{
  ShardState, orphaned, dead, uncertain, expired, ready, ordinal, times_at, times_of, to_times,
  released, to_state_of, to_state, lease_ttl, default_lease_duration, to_string, state_from_string,
}
use kubernetes_controller_sh.Leases.Duration.{
  seconds, time_add, time_sub, add, IsNear, time_sub_exact, add_exact,
}

-- Comparing a remaining duration with 0 is comparing an instant with the clock.
reached :
    (e d now : ℤ)
    → IsNear (e -ℤ now)
    → IsNear d
    → leb_ℤ (add (time_sub e now) d) (pos 0) ≡ leb_ℤ (e +ℤ d) now
reached e d now p q = rw (time_sub_exact e now p) (
    rw (add_exact (e -ℤ now) d p q)
      (ground (arith, +ℤ_parts (e -ℤ now) d, -ℤ_parts e now, +ℤ_parts e d)))

reached_now : (e now : ℤ) → IsNear (e -ℤ now) → leb_ℤ (time_sub e now) (pos 0) ≡ leb_ℤ e now
reached_now e now p = rw (time_sub_exact e now p) (ground (arith, -ℤ_parts e now))

-- The instants at which a shard's state changes, for a lease that expires at `e` and lasts `d`.
abbrev pub state_at : Bool → ℤ → ℤ → ℤ → ShardState
state_at was_released e d now =
    if was_released
    then (if leb_ℤ (e +ℤ lease_ttl) now then orphaned else dead)
    else if leb_ℤ (e +ℤ d) now
    then uncertain
    else if leb_ℤ e now
    then expired
    else ready

to_state_of-state_at :
    (lease : Lease) (e d now : ℤ)
    → IsNear (e -ℤ now)
    → IsNear d
    → to_state_of lease (times_at e d now)
      ≡ state_at (released lease.spec.holder_identity lease.meta.name) e d now
unfolding to_state_of times_at
to_state_of-state_at lease e d now p q =
    rw (reached e lease_ttl now p (omega arith))
      (rw (reached e d now p q) (rw (reached_now e now p) refl))

-- A lease with all its times set is orphaned from a minute after its expiration on and dead before,
-- if it is released or held by another; else it is uncertain from one lease duration after its
-- expiration on, expired from its expiration on, and ready before. (The duration, and the
-- difference of the clock and the expiration, are at most 73 years.)
pub to_state-state_at :
    (lease : Lease) (now a r s : ℤ)
    → lease.spec.acquire_time ≡ some a
    → lease.spec.renew_time ≡ some r
    → lease.spec.lease_duration_seconds ≡ some s
    → IsNear (time_add r (seconds s) -ℤ now)
    → IsNear (seconds s)
    → to_state lease now
      ≡ state_at
          (released lease.spec.holder_identity lease.meta.name)
          (time_add r (seconds s))
          (seconds s)
          now
unfolding to_state to_times times_of
to_state-state_at lease now a r s ha hr hs p q =
    rw (ha, hr, hs) (to_state_of-state_at lease (time_add r (seconds s)) (seconds s) now p q)

times_of_incomplete :
    (a r s : Option ℤ) (now : ℤ)
    → (a ≡ none) ⊎ ((r ≡ none) ⊎ (s ≡ none))
    → times_of a r s now ≡ times_at now default_lease_duration now
unfolding times_of
times_of_incomplete none r s now h = refl
times_of_incomplete (some a) none s now h = refl
times_of_incomplete (some a) (some r) none now h = refl
times_of_incomplete (some a) (some r) (some s) now h = absurd (ground arith)

default-IsNear : IsNear default_lease_duration
unfolding seconds
default-IsNear = omega arith

state_at_now :
    (b : Bool) (now : ℤ) → state_at b now default_lease_duration now ≡ (if b then dead else expired)
unfolding seconds
state_at_now b now = ground (arith, +ℤ_parts now lease_ttl, +ℤ_parts now default_lease_duration)

-- A lease that misses one of its times counts as just expired, at any time: it is dead if it is
-- released or held by another, and expired otherwise.
pub to_state_incomplete :
    (lease : Lease) (now : ℤ)
    → (lease.spec.acquire_time ≡ none)
      ⊎ ((lease.spec.renew_time ≡ none) ⊎ (lease.spec.lease_duration_seconds ≡ none))
    → to_state lease now
      ≡ (if released lease.spec.holder_identity lease.meta.name then dead else expired)
unfolding to_state to_times
to_state_incomplete lease now h = rw (times_of_incomplete _ _ _ now h) (
    to_state_of-state_at lease now default_lease_duration now (omega (arith, -ℤ_parts now now))
      default-IsNear
    ∙ state_at_now (released lease.spec.holder_identity lease.meta.name) now)

state_at_mono :
    (b : Bool) (e d now later : ℤ)
    → now ≤ℤ later
    → ordinal (state_at b e d later) ≤ ordinal (state_at b e d now)
state_at_mono b e d now later h = ground (arith, +ℤ_parts e d, +ℤ_parts e lease_ttl)

-- Until its lease is written again, the state of a shard with all its times set only gets worse.
-- (The duration is at most 73 years, and so are the differences of both instants to the
-- expiration.)
pub to_state_mono :
    (lease : Lease) (now later a r s : ℤ)
    → lease.spec.acquire_time ≡ some a
    → lease.spec.renew_time ≡ some r
    → lease.spec.lease_duration_seconds ≡ some s
    → IsNear (time_add r (seconds s) -ℤ now)
    → IsNear (time_add r (seconds s) -ℤ later)
    → IsNear (seconds s)
    → now ≤ℤ later
    → ordinal (to_state lease later) ≤ ordinal (to_state lease now)
to_state_mono lease now later a r s ha hr hs p p' q h =
    rw (to_state-state_at lease now a r s ha hr hs p q) (
      rw (to_state-state_at lease later a r s ha hr hs p' q) (
        state_at_mono (released lease.spec.holder_identity lease.meta.name) (time_add r (seconds s))
          (seconds s) now later h))

-- `StateFromString` reads back what `String` prints.
pub state_from_string-to_string : (s : ShardState) → state_from_string (to_string s) ≡ s
unfolding state_from_string to_string
state_from_string-to_string orphaned = refl
state_from_string-to_string dead = refl
state_from_string-to_string _ = refl
