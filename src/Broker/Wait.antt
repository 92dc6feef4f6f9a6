-- ===== src/Broker/Wait.antt =====
-- internal/broker/jobs.go: `parseWait`. A duration is a number of nanoseconds.
use corv_client.Prelude.{
  ℕ, ◌*◌, ◌≤◌, Bytes, Option, none, some, arith, ltb, if◌then◌else◌, is_empty,
}
use corv_client.Prelude.Int.{ℤ, pos, negsuc}
use corv_client.Go.Strings.{trim_space}
use corv_client.Go.Numbers.{parse_uint63}

abbrev pub second : ℕ
second = 1000000000

abbrev pub default_wait : ℕ
default_wait = 60 * second

abbrev pub max_wait : ℕ
max_wait = 120 * second

abbrev pub at_most_max : ℕ → ℕ
at_most_max d = if ltb max_wait d then max_wait else d

-- What follows a number that is no bare count of seconds.
abbrev pub go_duration : Option ℤ → ℕ → ℕ
go_duration none fallback = fallback
go_duration (some (negsuc n)) fallback = fallback
go_duration (some (pos d)) fallback = at_most_max d

abbrev pub bare_seconds : Option ℕ → ℕ → ℕ
bare_seconds none other = other
bare_seconds (some seconds) other =
    if ltb 120 seconds then max_wait else at_most_max (seconds * second)

-- `time.ParseDuration` of the standard library is the parameter: `none` where it fails.
module _ (parse_duration : Bytes → Option ℤ) where
  unfoldable pub parse_wait : Bytes → ℕ → ℕ
  parse_wait raw fallback =
      let s = trim_space raw in
      if is_empty s
      then fallback
      else bare_seconds (parse_uint63 s) (go_duration (parse_duration s) fallback)

  -- A request never waits longer than `maxWait`, if the fallback does not, whatever the text is and
  -- whatever `ParseDuration` makes of it.
  pub parse_wait-le-max_wait :
      (raw : Bytes) (fallback : ℕ) → fallback ≤ max_wait → parse_wait raw fallback ≤ max_wait
  unfolding parse_wait
  parse_wait-le-max_wait raw fallback h = ground arith
