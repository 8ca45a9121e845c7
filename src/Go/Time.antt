-- ===== src/Go/Time.antt =====
-- time.Time as the nanoseconds since the zero time, 1 January of year 1, midnight UTC. Arithmetic
-- on calendar days in UTC is arithmetic on multiples of a day.
use portfoliodb.Common.{ℕ, ◌+◌, ◌-◌, ◌*◌, ◌/◌, ◌^◌, ◌<◌, ◌≤◌, Bool, ltb, if◌then◌else◌, arith}
use portfoliodb.Common.Int.{ℤ, pos, negsuc, ◌-ℤ◌, ltb_ℤ}
use portfoliodb.Go.Int64.{max_int64}

abbrev pub Time : Type 0
Time = ℕ

abbrev pub day_ns : ℕ
day_ns = 86_400 * 1_000_000_000

-- The calendar day in UTC, as a count of days.
abbrev pub utc_day : Time → ℕ
utc_day t = t / day_ns

-- Midnight UTC of that day.
abbrev pub midnight : Time → Time
midnight t = utc_day t * day_ns

abbrev pub before : Time → Time → Bool
before a b = ltb a b

abbrev pub after : Time → Time → Bool
after a b = ltb b a

-- A time lies in the day that its midnight opens.
pub midnight-le : (t : Time) → (midnight t ≤ t) × (t < midnight t + day_ns)
midnight-le t = omega arith

-- `a.Sub(b)`, which stops at the ends of int64.
unfoldable pub sub_time : Time → Time → ℤ
sub_time a b =
    let d = pos a -ℤ pos b in
    if ltb_ℤ max_int64 d
    then max_int64
    else (if ltb_ℤ d (negsuc (2 ^ 63 - 1)) then negsuc (2 ^ 63 - 1) else d)
