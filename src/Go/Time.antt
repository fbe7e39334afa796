-- ===== src/Go/Time.antt =====
-- `time.Time` as the nanoseconds since January 1, year 1, 00:00:00 UTC, the zero time. The program
-- meets no earlier time: it reads its times from a database column and from a timestamp that
-- `CheckValid` has accepted, and the latter begin with the zero time.
use arxveil.Prelude.{ℕ, Bool, nat_eq, ◌==◌}

abbrev pub Time : Type 0
Time = ℕ

-- `IsZero`
abbrev pub is_zero : Time → Bool
is_zero t = t == 0
