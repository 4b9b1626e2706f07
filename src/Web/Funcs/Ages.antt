-- ===== src/Web/Funcs/Ages.antt =====
-- internal/web/funcs.go: ago. A time is in nanoseconds, and 0 is the zero time.
use repo_man.Auth.Times.{minute, hour}
use repo_man.Base.{ℕ, ◌-◌, ◌*◌, ◌/◌, ◌≤◌, ◌<◌, arith, ltb, if◌then◌else◌, ◌==◌}

pub data Age : Type 0 where
  never just_now : Age
  minutes hours days months years : ℕ → Age

-- The switch on the time since then.
unfoldable pub since : ℕ → Age
since d =
    if ltb d minute
    then just_now
    else if ltb d hour
    then minutes (d / minute)
    else if ltb d (24 * hour)
    then hours (d / hour)
    else if ltb d (30 * (24 * hour))
    then days (d / (24 * hour))
    else if ltb d (365 * (24 * hour))
    then months (d / (30 * (24 * hour)))
    else years (d / (365 * (24 * hour)))

unfoldable pub ago : ℕ → ℕ → Age
unfolding since
ago now t = if t == 0 then never else if ltb now t then just_now else since (now - t)

-- The number of an age within its unit.
abbrev pub IsCompact : Age → Type 0
IsCompact never = Unit
IsCompact just_now = Unit
IsCompact (minutes n) = (1 ≤ n) × (n < 60)
IsCompact (hours n) = (1 ≤ n) × (n < 24)
IsCompact (days n) = (1 ≤ n) × (n < 30)
IsCompact (months n) = (1 ≤ n) × (n ≤ 12)
IsCompact (years n) = 1 ≤ n

since-IsCompact : (d : ℕ) → IsCompact (since d)
unfolding since
since-IsCompact d = ground arith

-- An age is at least one of its unit and less than the next unit, up to twelve months.
pub ago-IsCompact : (now t : ℕ) → IsCompact (ago now t)
unfolding ago
ago-IsCompact now t = ground (arith, since-IsCompact (now - t))
