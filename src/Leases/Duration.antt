-- ===== src/Leases/Duration.antt =====
-- Go's time.Time and time.Duration. A time is a number of nanoseconds; a duration is an int64 of
-- nanoseconds, so subtracting times saturates and adding durations wraps.
use kubernetes_controller_sh.Base.{◌≡◌, if◌then◌else◌, arith}
use kubernetes_controller_sh.Base.Int.{ℤ, pos, negsuc, ◌+ℤ◌, ◌-ℤ◌, ◌*ℤ◌, ◌≤ℤ◌, ltb_ℤ}

abbrev pub second : ℤ
second = pos 1_000_000_000

abbrev pub minute : ℤ
minute = pos 60_000_000_000

abbrev pub max_duration : ℤ
max_duration = pos 9_223_372_036_854_775_807

abbrev pub min_duration : ℤ
min_duration = negsuc 9_223_372_036_854_775_807

abbrev two_64 : ℤ
two_64 = pos 18_446_744_073_709_551_616

-- `time.Duration(s) * time.Second` of an int32, which fits an int64.
unfoldable pub seconds : ℤ → ℤ
unfolding ◌*ℤ◌
seconds s = s *ℤ second

-- `t.Add(d)`
unfoldable pub time_add : ℤ → ℤ → ℤ
time_add t d = t +ℤ d

-- `t.Sub(u)`
unfoldable pub time_sub : ℤ → ℤ → ℤ
time_sub t u =
    let d = t -ℤ u in
    if ltb_ℤ max_duration d then max_duration else if ltb_ℤ d min_duration then min_duration else d

-- `d + e`
unfoldable pub add : ℤ → ℤ → ℤ
add d e =
    let s = d +ℤ e in
    if ltb_ℤ max_duration s then s -ℤ two_64 else if ltb_ℤ s min_duration then s +ℤ two_64 else s

-- Instants and durations of at most about 73 years on either side leave room for one addition.
abbrev pub limit : ℤ
limit = pos 2_305_843_009_213_693_952

abbrev pub minus_limit : ℤ
minus_limit = negsuc 2_305_843_009_213_693_951

abbrev pub IsNear : ℤ → Type 0
IsNear t = (minus_limit ≤ℤ t) × (t ≤ℤ limit)

pub time_sub_exact : (t u : ℤ) → IsNear (t -ℤ u) → time_sub t u ≡ t -ℤ u
unfolding time_sub
time_sub_exact t u h = ground arith

pub add_exact : (d e : ℤ) → IsNear d → IsNear e → add d e ≡ d +ℤ e
unfolding add ◌+ℤ◌
add_exact d e p q = ground arith
