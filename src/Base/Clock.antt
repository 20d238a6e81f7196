-- ===== src/Base/Clock.antt =====
-- `time.Time` as a number of nanoseconds since the zero time of Go (year 1); instants before it do
-- not occur. `UTC()` changes the location of an instant only, so it is the identity here.
use Prim.Native.Nat.{ℕ, ◌-◌, min}
use mathlib.Core.Bool.{Bool}
use unified.Base.Tests.{ltb, ◌==◌}

abbrev pub Time : Type 0
Time = ℕ

-- `t.IsZero()`
abbrev pub is_zero : Time → Bool
is_zero t = t == 0

-- `t.Before(u)`
abbrev pub before : Time → Time → Bool
before t u = ltb t u

-- `t.After(u)`
abbrev pub after : Time → Time → Bool
after t u = ltb u t

-- The largest `time.Duration`.
abbrev pub max_duration : ℕ
max_duration = 9223372036854775807

-- `t.Sub(u)` where `u` is not after `t`: it stops at the largest duration.
abbrev pub time_sub : Time → Time → ℕ
time_sub t u = min (t - u) max_duration
