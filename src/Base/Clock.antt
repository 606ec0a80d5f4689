-- ===== src/Base/Clock.antt =====
-- Go's `time`: an instant is its nanoseconds since an epoch, a duration is an `int64` of
-- nanoseconds. What needs floating point or the calendar is a parameter, `Format`.
use Prim.Native.Nat.{◌-◌, ◌^◌}
use Prim.Native.String.{String}
use mathlib.Core.Bool.{Bool}
use hsm_doctor.Base.Tests.{if◌then◌else◌}
use hsm_doctor.Base.Int.{ℤ, pos, negsuc, ◌-ℤ◌, ◌*ℤ◌, wrap64, ltb_ℤ}

abbrev pub Time : Type 0
Time = ℤ

abbrev pub Duration : Type 0
Duration = ℤ

abbrev max_duration : ℤ
max_duration = pos (2 ^ 63 - 1)

abbrev min_duration : ℤ
min_duration = negsuc (2 ^ 63 - 1)

-- `t.Sub(u)` stops at the ends of the range.
unfoldable pub sub : Time → Time → Duration
sub t u =
    let d = t -ℤ u in
    if ltb_ℤ max_duration d then max_duration else if ltb_ℤ d min_duration then min_duration else d

-- `t.Before(u)`, and `u.After(t)`
abbrev pub before : Time → Time → Bool
before t u = ltb_ℤ t u

abbrev pub hour : Duration
hour = pos 3600000000000

-- `time.Duration(n) * 24 * time.Hour` wraps round.
unfoldable pub days : ℤ → Duration
days n = wrap64 (wrap64 (n *ℤ pos 24) *ℤ hour)

-- The standard library's floating point and formatting that the program uses.
pub record Format : Type 0 where
  -- `t.Format("2006-01-02")`
  pub date : Time → String
  -- `%q`
  pub quote : String → String
  -- `int(d.Hours() / 24)`
  pub whole_days : Duration → ℤ
  -- `float64(part) / float64(whole) * 100 >= float64(limit)`
  pub pct_at_least : Duration → Duration → ℤ → Bool
  -- `%.0f` of the same share
  pub pct_text : Duration → Duration → String
  -- `d.Round(time.Millisecond)` under `%s`
  pub round_ms : Duration → String
