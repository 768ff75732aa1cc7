-- ===== src/Prelude/Clock.antt =====
-- `time.Time` as the nanoseconds since the zero time, and `time.Duration` as signed nanoseconds.
-- Times before year 1 are left out.
use Prim.Native.Nat.{ℕ, ◌-◌, ◌^◌}
use mathlib.Core.Bool.{Bool}
use slurmlite.Prelude.Tests.{leb, ◌==◌, if◌then◌else◌}
use slurmlite.Prelude.Int.{ℤ, pos, negsuc}

abbrev pub Time : Type 0
Time = ℕ

abbrev pub Duration : Type 0
Duration = ℤ

-- `Time{}`, and `IsZero`.
abbrev pub zero_time : Time
zero_time = 0

abbrev pub is_zero : Time → Bool
is_zero t = t == 0

abbrev pub max_duration : ℕ
max_duration = 2 ^ 63 - 1

-- `t.Sub(u)`, which saturates at the ends of the range of a duration.
unfoldable pub sub_time : Time → Time → Duration
sub_time t u =
    if leb u t
    then pos (if leb (t - u) max_duration then t - u else max_duration)
    else negsuc (if leb (u - t - 1) max_duration then u - t - 1 else max_duration)
