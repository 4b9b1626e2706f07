-- ===== src/Auth/RateLimit.antt =====
-- internal/auth/ratelimit.go: failed logins per client IP.
pub mod Bounds
pub mod Records
pub mod Lockout
pub mod Sweep
pub mod History
use repo_man.Auth.Oldest.{evict_oldest}
use repo_man.Auth.Times.{minute, millisecond, is_zero}
use repo_man.Base.{
  ℕ, ◌+◌, ◌-◌, ◌*◌, Bool, true, false, not, ◌&&◌, ◌||◌, none, some, Str, Dict, lookup, insert,
  delete, retain, ltb, leb, length, if◌then◌else◌,
}

abbrev pub max_failures : ℕ
max_failures = 5

abbrev pub failure_window : ℕ
failure_window = 15 * minute

abbrev pub lockout_duration : ℕ
lockout_duration = 15 * minute

abbrev pub coalesce_window : ℕ
coalesce_window = 500 * millisecond

abbrev pub max_tracked_ips : ℕ
max_tracked_ips = 10_000

pub record IpRecord : Type 0 where
  pub count : ℕ
  pub window_start : ℕ
  pub last_failure : ℕ
  pub locked_until : ℕ
  pub last_seen : ℕ

abbrev pub empty_record : IpRecord
empty_record = record {
  count = 0;
  window_start = 0;
  last_failure = 0;
  locked_until = 0;
  last_seen = 0;
}

-- rateLimiter.byIP
abbrev pub RateLimiter : Type 0
RateLimiter = Dict IpRecord

-- The map that `locked` leaves, how long the lock still holds, and whether it holds.
unfoldable pub locked : ℕ → Str → RateLimiter → RateLimiter × ℕ × Bool
locked now ip l = elim (lookup ip l) [
  | none ↦ (l, 0, false)
  | some rec ↦
      let l' = insert ip (record rec { last_seen = now }) l in
      if is_zero rec.locked_until || not (ltb now rec.locked_until)
      then (l', 0, false)
      else (l', rec.locked_until - now, true)
]

-- The reset of an aged window or an expired lock in recordFailure.
unfoldable pub refresh : ℕ → IpRecord → IpRecord
refresh now rec =
    let expired_window =
      not (is_zero rec.window_start) && ltb failure_window (now - rec.window_start) in
    let expired_lock = not (is_zero rec.locked_until) && not (ltb now rec.locked_until) in
    if expired_window || expired_lock
    then record rec { count = 0; window_start = 0; locked_until = 0; last_failure = 0 }
    else rec

-- The count of one failure, coalesced with the last one or not.
unfoldable pub strike : ℕ → IpRecord → IpRecord
strike now rec =
    if not (is_zero rec.last_failure) && ltb (now - rec.last_failure) coalesce_window
    then rec
    else record rec {
      last_failure = now;
      window_start = if is_zero rec.window_start then now else rec.window_start;
      count = rec.count + 1;
      locked_until =
          if leb max_failures (rec.count + 1) then now + lockout_duration else rec.locked_until;
    }

-- What recordFailure does to the record of the IP.
unfoldable pub fail : ℕ → IpRecord → IpRecord
unfolding refresh strike
fail now rec = strike now (refresh now (record rec { last_seen = now }))

unfoldable pub evict_lru : RateLimiter → RateLimiter
unfolding evict_oldest
evict_lru l = evict_oldest (λ rec. rec.last_seen) l

unfoldable pub record_failure : ℕ → Str → RateLimiter → RateLimiter
unfolding evict_lru fail
record_failure now ip l = elim (lookup ip l) [
  | none ↦
      insert ip (fail now empty_record) (if leb max_tracked_ips (length l) then evict_lru l else l)
  | some rec ↦ insert ip (fail now rec) l
]

unfoldable pub record_success : Str → RateLimiter → RateLimiter
record_success ip l = delete ip l

-- What gc keeps: a lock that holds, or a window that is live.
unfoldable pub is_live : ℕ → IpRecord → Bool
is_live now rec =
    let still_locked = not (is_zero rec.locked_until) && ltb now rec.locked_until in
    let window_live =
      not (is_zero rec.window_start) && leb (now - rec.window_start) failure_window in
    still_locked || window_live

unfoldable pub gc : ℕ → RateLimiter → RateLimiter
unfolding is_live
gc now l = retain (is_live now) l

-- One call of the limiter, and a history of calls.
pub data Call : Type 0 where
  asks_locked : ℕ → Str → Call
  fails : ℕ → Str → Call
  succeeds : Str → Call
  sweeps : ℕ → Call

unfoldable pub step : Call → RateLimiter → RateLimiter
step (asks_locked now ip) l = (locked now ip l).0
step (fails now ip) l = record_failure now ip l
step (succeeds ip) l = record_success ip l
step (sweeps now) l = gc now l
