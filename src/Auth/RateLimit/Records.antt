-- ===== src/Auth/RateLimit/Records.antt =====
-- ratelimit.go: what a failure does to the record of its IP.
use repo_man.Auth.RateLimit.{
  IpRecord, empty_record, fail, refresh, strike, max_failures, failure_window, coalesce_window,
}
use repo_man.Base.{ℕ, ◌+◌, ◌≤◌, ◌<◌, ◌≡◌, ◌≢◌, arith}

-- The state that a record can be in: an unused one is empty, a used one counts at least one
-- failure, and it is locked exactly from max_failures on.
pub record IsWell (r : IpRecord) : Type 0 where
  pub unused : r.window_start ≡ 0 → (r.count ≡ 0) × (r.last_failure ≡ 0) × (r.locked_until ≡ 0)
  pub lasting : r.last_failure ≡ 0 → r.window_start ≡ 0
  pub ordered : r.window_start ≤ r.last_failure
  pub locks : r.locked_until ≢ 0 → max_failures ≤ r.count
  pub counts : max_failures ≤ r.count → r.locked_until ≢ 0

pub empty-IsWell : IsWell empty_record
empty-IsWell = omega arith

pub refresh-IsWell : (now : ℕ) (r : IpRecord) → IsWell r → IsWell (refresh now r)
unfolding refresh
refresh-IsWell now r w = ground arith

pub strike-IsWell :
    (now : ℕ) (r : IpRecord) → 0 < now → r.last_failure ≤ now → IsWell r → IsWell (strike now r)
unfolding strike
strike-IsWell now r pos le w = ground arith

-- A failure while the lock is off, in a live window, and clear of the last one by the coalescing
-- window, counts one more.
pub fail_counts :
    (now : ℕ) (r : IpRecord)
    → IsWell r
    → 0 < r.window_start
    → r.count + 1 < max_failures
    → now ≤ r.window_start + failure_window
    → r.last_failure + coalesce_window ≤ now
    → fail now r ≡ record r { count = r.count + 1; last_failure = now; last_seen = now }
unfolding fail
fail_counts now r w ws c live far = ground arith
