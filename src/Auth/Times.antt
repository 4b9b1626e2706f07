-- ===== src/Auth/Times.antt =====
-- time.Time as the nanoseconds since the zero time (January 1 of year 1), so that IsZero is a
-- comparison with 0, and time.Duration as nanoseconds. A clock never reads an earlier instant.
use repo_man.Base.{ℕ, ◌*◌, Bool, ◌==◌}

abbrev pub second : ℕ
second = 1_000_000_000

abbrev pub millisecond : ℕ
millisecond = 1_000_000

abbrev pub minute : ℕ
minute = 60 * second

abbrev pub hour : ℕ
hour = 60 * minute

-- t.IsZero()
abbrev pub is_zero : ℕ → Bool
is_zero t = t == 0
