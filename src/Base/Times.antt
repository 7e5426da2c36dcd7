-- ===== src/Base/Times.antt =====
-- Instants and durations. An instant is the number of nanoseconds since the zero value of Go's
-- `time.Time` (the first of January of the year 1, UTC), so `IsZero` is `== 0`; no instant before
-- that is represented. A duration is a number of nanoseconds.
use Prim.Native.Nat.{ℕ, ◌-◌, min}
use mathlib.Core.Bool.{Bool}
use codex_folio.Base.Tests.{ltb, eqb}

abbrev pub Time : Type 0
Time = ℕ

abbrev pub Duration : Type 0
Duration = ℕ

abbrev pub second : Duration
second = 1_000_000_000

abbrev pub minute : Duration
minute = 60_000_000_000

abbrev pub hour : Duration
hour = 3_600_000_000_000

abbrev pub is_zero : Time → Bool
is_zero t = eqb t 0

abbrev pub before : Time → Time → Bool
before a b = ltb a b

abbrev pub after : Time → Time → Bool
after a b = ltb b a

-- The largest `time.Duration`; a difference of instants saturates there.
abbrev pub max_duration : Duration
max_duration = 9_223_372_036_854_775_807

-- `b.Sub(a)` for `a` not after `b`.
abbrev pub since : Time → Time → Duration
since a b = min (b - a) max_duration
