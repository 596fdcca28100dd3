-- ===== src/Leases.antt =====
-- pkg/sharding/leases: the state of a shard, read off its Lease and the clock.
pub mod Duration
pub mod Timeline
pub mod Listing
use kubernetes_controller_sh.Base.{
  ℕ, zero, suc, String, ◌≡◌, refl, Bool, true, false, Option, none, some, List, [], ◌∷◌, map,
  if◌then◌else◌, ◌==◌, not, ◌||◌, leb,
}
use kubernetes_controller_sh.Base.Int.{ℤ, pos, ◌+ℤ◌, ◌-ℤ◌, leb_ℤ}
use kubernetes_controller_sh.Api.Core.{Lease}
use Duration.{second, minute, seconds, time_add, time_sub, add}

abbrev pub default_lease_duration : ℤ
default_lease_duration = seconds (pos 15)

abbrev pub lease_ttl : ℤ
lease_ttl = minute

pub data ShardState : Type 0 where
  unknown orphaned dead uncertain expired ready : ShardState

pub ShardState-discrete : Discrete ShardState
ShardState-discrete = hlevel

-- The value of the constant, counted by iota.
abbrev pub ordinal : ShardState → ℕ
ordinal unknown = 0
ordinal orphaned = 1
ordinal dead = 2
ordinal uncertain = 3
ordinal expired = 4
ordinal ready = 5

abbrev pub known_shard_states : List ShardState
known_shard_states = orphaned ∷ dead ∷ uncertain ∷ expired ∷ ready ∷ []

-- `ShardState.String`.
unfoldable pub to_string : ShardState → String
to_string orphaned = "orphaned"
to_string dead = "dead"
to_string uncertain = "uncertain"
to_string expired = "expired"
to_string ready = "ready"
to_string unknown = "unknown"

unfoldable pub state_from_string : String → ShardState
state_from_string state =
    if state == "orphaned"
    then orphaned
    else if state == "dead"
    then dead
    else if state == "uncertain"
    then uncertain
    else if state == "expired"
    then expired
    else if state == "ready"
    then ready
    else unknown

unfoldable pub is_available : ShardState → Bool
is_available s = leb (ordinal uncertain) (ordinal s)

pub record Times : Type 0 where
  pub expiration : ℤ
  pub lease_duration : ℤ
  pub to_expired : ℤ
  pub to_uncertain : ℤ
  pub to_orphaned : ℤ

-- The second half of `ToTimes`, from the expiration and the duration on.
unfoldable pub times_at : ℤ → ℤ → ℤ → Times
times_at expiration lease_duration now =
    let to_expired = time_sub expiration now in
    record {
      expiration = expiration;
      lease_duration = lease_duration;
      to_expired = to_expired;
      to_uncertain = add to_expired lease_duration;
      to_orphaned = add to_expired lease_ttl;
    }

-- The `if` of `ToTimes` on the three optional fields.
unfoldable pub times_of : Option ℤ → Option ℤ → Option ℤ → ℤ → Times
unfolding times_at
times_of (some acquire_time) (some renew_time) (some duration_seconds) now =
    let lease_duration = seconds duration_seconds in
    times_at (time_add renew_time lease_duration) lease_duration now
times_of _ _ _ now = times_at now default_lease_duration now

unfoldable pub to_times : Lease → ℤ → Times
unfolding times_of
to_times lease now =
    times_of lease.spec.acquire_time lease.spec.renew_time lease.spec.lease_duration_seconds now

-- `holder == nil || *holder == "" || *holder != lease.Name`
unfoldable pub released : Option String → String → Bool
released none name = true
released (some holder) name = holder == "" || not (holder == name)

unfoldable pub to_state_of : Lease → Times → ShardState
unfolding released
to_state_of lease t =
    if released lease.spec.holder_identity lease.meta.name
    then (if leb_ℤ t.to_orphaned (pos 0) then orphaned else dead)
    else if leb_ℤ t.to_uncertain (pos 0)
    then uncertain
    else if leb_ℤ t.to_expired (pos 0)
    then expired
    else ready

unfoldable pub to_state : Lease → ℤ → ShardState
unfolding to_state_of
to_state lease now = to_state_of lease (to_times lease now)

pub record Shard : Type 0 where
  pub id : String
  pub state : ShardState
  pub times : Times

abbrev zero_times : Times
zero_times = record {
  expiration = pos 0;
  lease_duration = pos 0;
  to_expired = pos 0;
  to_uncertain = pos 0;
  to_orphaned = pos 0;
}

-- `Shard{}`; the zero state is `Unknown`.
abbrev pub zero_shard : Shard
zero_shard = record { id = ""; state = unknown; times = zero_times }

unfoldable pub by_id : List Shard → String → Shard
by_id [] id = zero_shard
by_id (shard ∷ shards) id = if shard.id == id then shard else by_id shards id

unfoldable pub available_shards : List Shard → List Shard
available_shards [] = []
available_shards (shard ∷ shards) =
    let rest = available_shards shards in if is_available shard.state then shard ∷ rest else rest

unfoldable pub ids : List Shard → List String
ids shards = map (λ shard. shard.id) shards

unfoldable pub to_shard : Lease → ℤ → Shard
unfolding to_state_of
to_shard lease now =
    let times = to_times lease now in
    record { id = lease.meta.name; state = to_state_of lease times; times = times }

unfoldable pub to_shards : List Lease → ℤ → List Shard
to_shards leases now = map (λ lease. to_shard lease now) leases
