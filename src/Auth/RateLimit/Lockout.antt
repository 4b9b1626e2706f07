-- ===== src/Auth/RateLimit/Lockout.antt =====
-- ratelimit.go: which sequences of failures lock an IP out, and for how long.
use repo_man.Auth.RateLimit.{
  RateLimiter, IpRecord, empty_record, fail, locked, record_failure, max_failures, failure_window,
  lockout_duration, coalesce_window,
}
use repo_man.Base.{
  ℕ, suc, ◌+◌, ◌-◌, ◌≤◌, ◌<◌, ◌≡◌, refl, ◌∙◌, List, [], ◌∷◌, true, false, none, some, arith, Str,
  lookup, length, lookup-insert, eqb_refl, All,
}

-- Failures of one IP, at the given times.
unfoldable pub failures : Str → List ℕ → RateLimiter → RateLimiter
failures ip [] l = l
failures ip (t ∷ ts) l = failures ip ts (record_failure t ip l)

unfoldable pub fail_all : List ℕ → IpRecord → IpRecord
fail_all [] r = r
fail_all (t ∷ ts) r = fail_all ts (fail t r)

-- Each time is clear of the one before it, and within the window that opened at `start`.
abbrev pub Spaced : ℕ → ℕ → List ℕ → Type 0
Spaced start prev [] = Unit
Spaced start prev (t ∷ ts) =
    (prev + coalesce_window ≤ t) × (t ≤ start + failure_window) × Spaced start t ts

abbrev pub last : ℕ → List ℕ → ℕ
last t [] = t
last t (u ∷ us) = last u us

pub record_failure_old :
    (t : ℕ) (ip : Str) (l : RateLimiter) (r : IpRecord)
    → lookup ip l ≡ some r
    → lookup ip (record_failure t ip l) ≡ some (fail t r)
unfolding record_failure
record_failure_old t ip l r e = rw (e, record_failure) (rw lookup-insert (rw eqb_refl refl))

pub record_failure_new :
    (t : ℕ) (ip : Str) (l : RateLimiter)
    → lookup ip l ≡ none
    → lookup ip (record_failure t ip l) ≡ some (fail t empty_record)
unfolding record_failure
record_failure_new t ip l e = rw (e, record_failure) (rw lookup-insert (rw eqb_refl refl))

failures_old :
    (ip : Str) (ts : List ℕ) (l : RateLimiter) (r : IpRecord)
    → lookup ip l ≡ some r
    → lookup ip (failures ip ts l) ≡ some (fail_all ts r)
unfolding failures fail_all
failures_old ip [] l r e = e
failures_old ip (t ∷ ts) l r e =
    failures_old ip ts (record_failure t ip l) (fail t r) (record_failure_old t ip l r e)

failures_new :
    (ip : Str) (t : ℕ) (ts : List ℕ) (l : RateLimiter)
    → lookup ip l ≡ none
    → lookup ip (failures ip (t ∷ ts) l) ≡ some (fail_all ts (fail t empty_record))
unfolding failures
failures_new ip t ts l e =
    failures_old ip ts (record_failure t ip l) (fail t empty_record) (record_failure_new t ip l e)

pub locked-lookup :
    (now : ℕ) (ip : Str) (l : RateLimiter) (r : IpRecord)
    → lookup ip l ≡ some r
    → ((locked now ip l).1 ≡ r.locked_until - now)
      × ((now < r.locked_until → (locked now ip l).2 ≡ true)
          × (r.locked_until ≤ now → (locked now ip l).2 ≡ false))
unfolding locked
locked-lookup now ip l r e = rw (e, locked) (ground arith, (λ h. ground arith, λ h. ground arith))

pub locked_absent :
    (now : ℕ) (ip : Str) (l : RateLimiter)
    → lookup ip l ≡ none
    → ((locked now ip l).1 ≡ 0) × ((locked now ip l).2 ≡ false)
unfolding locked
locked_absent now ip l e = rw (e, locked) (refl, refl)

-- The record after k spaced failures, as long as the lock stays off.
pub record Open (start prev k : ℕ) (r : IpRecord) : Type 0 where
  pub opened : r.window_start ≡ start
  pub latest : r.last_failure ≡ prev
  pub counted : r.count ≡ k
  pub off : r.locked_until ≡ 0

pub fail-Open :
    (start prev k t : ℕ) (r : IpRecord)
    → 0 < start
    → start ≤ prev
    → k + 1 < max_failures
    → prev + coalesce_window ≤ t
    → t ≤ start + failure_window
    → Open start prev k r
    → Open start t (suc k) (fail t r)
unfolding fail
fail-Open start prev k t r pos le c far live o = ground arith

-- The failure that reaches max_failures.
fail_trips :
    (start prev t : ℕ) (r : IpRecord)
    → 0 < start
    → start ≤ prev
    → prev + coalesce_window ≤ t
    → t ≤ start + failure_window
    → Open start prev 4 r
    → (fail t r).locked_until ≡ t + lockout_duration
unfolding fail
fail_trips start prev t r pos le far live o = ground arith

-- A question whether the IP is locked, before a failure, leaves what the failure leaves.
pub record_failure-locked :
    (t : ℕ) (ip : Str) (l : RateLimiter) (r : IpRecord)
    → lookup ip l ≡ some r
    → lookup ip (record_failure t ip (locked t ip l).0) ≡ some (fail t r)
record_failure-locked t ip l r e =
    record_failure_old t ip (locked t ip l).0 (record r { last_seen = t }) seen ∙ same
  where
    seen : lookup ip (locked t ip l).0 ≡ some (record r { last_seen = t })
    seen =
        unfold locked in
        rw (e, locked)
          (ground (arith, lookup-insert ip ip (record r { last_seen = t }) l, eqb_refl ip))

    same : some (fail t (record r { last_seen = t })) ≡ some (fail t r)
    same = unfold fail in refl

pub locked-none : (t : ℕ) (ip : Str) (l : RateLimiter) → lookup ip l ≡ none → (locked t ip l).0 ≡ l
unfolding locked
locked-none t ip l e = rw (e, locked)

pub fail_all_trips :
    (start prev k : ℕ) (ts : List ℕ) (r : IpRecord)
    → 0 < start
    → start ≤ prev
    → Spaced start prev ts
    → k < max_failures
    → k + length ts ≡ max_failures
    → Open start prev k r
    → (fail_all ts r).locked_until ≡ last prev ts + lockout_duration
unfolding fail_all
fail_all_trips start prev k [] r pos le s kk c o = absurd (omega arith)
fail_all_trips start prev k (t ∷ []) r pos le s kk c o =
    fail_trips start prev t r pos le s.0 s.1 (ground arith)
fail_all_trips start prev k (t ∷ u ∷ ts) r pos le s kk c o =
    fail_all_trips start t (suc k) (u ∷ ts) (fail t r) pos (omega arith) s.2 (omega arith)
      (omega arith) (fail-Open start prev k t r pos le (omega arith) s.0 s.1 o)

pub first-Open : (t : ℕ) → 0 < t → Open t t 1 (fail t empty_record)
unfolding fail
first-Open t h = ground arith

-- An IP without a record that fails five times, each failure at least the coalescing window after
-- the one before and all within one failure window, is locked out until the lockout duration after
-- the last of them, and no longer: the time left is reported, and the lock is off from then on.
pub locked_after_five :
    (ip : Str) (l : RateLimiter) (t : ℕ) (ts : List ℕ) (now : ℕ)
    → lookup ip l ≡ none
    → 0 < t
    → Spaced t t ts
    → length ts ≡ 4
    → ((locked now ip (failures ip (t ∷ ts) l)).1 ≡ last t ts + lockout_duration - now)
      × (now < last t ts + lockout_duration → (locked now ip (failures ip (t ∷ ts) l)).2 ≡ true)
      × (last t ts + lockout_duration ≤ now → (locked now ip (failures ip (t ∷ ts) l)).2 ≡ false)
locked_after_five ip l t ts now e pos s n =
    let r = fail_all ts (fail t empty_record) in
    let u : r.locked_until ≡ last t ts + lockout_duration =
      fail_all_trips t t 1 ts (fail t empty_record) pos (omega arith) s (omega arith) (omega arith)
        (first-Open t pos) in
    let q = locked-lookup now ip (failures ip (t ∷ ts) l) r (failures_new ip t ts l e) in
    (omega (arith, q.0, u), λ h. q.1.0 (omega (arith, u)), λ h. q.1.1 (omega (arith, u)))

-- Every failure counts one at most.
record Few (k : ℕ) (r : IpRecord) : Type 0 where
  few : r.count ≤ k
  free : r.locked_until ≡ 0

fail-Few : (k t : ℕ) (r : IpRecord) → k + 1 < max_failures → Few k r → Few (suc k) (fail t r)
unfolding fail
fail-Few k t r c f = ground arith

fail_all-Few :
    (k : ℕ) (ts : List ℕ) (r : IpRecord)
    → k + length ts < max_failures
    → Few k r
    → (fail_all ts r).locked_until ≡ 0
unfolding fail_all
fail_all-Few k [] r c f = f.free
fail_all-Few k (t ∷ ts) r c f =
    fail_all-Few (suc k) ts (fail t r) (omega arith) (fail-Few k t r (omega arith) f)

-- An IP without a record is not locked at any time after fewer than max_failures failures,
-- whatever their times.
pub unlocked_after_few :
    (ip : Str) (l : RateLimiter) (t : ℕ) (ts : List ℕ) (now : ℕ)
    → lookup ip l ≡ none
    → length (t ∷ ts) < max_failures
    → (locked now ip (failures ip (t ∷ ts) l)).2 ≡ false
unlocked_after_few ip l t ts now e n =
    let r = fail_all ts (fail t empty_record) in
    let u : r.locked_until ≡ 0 =
      fail_all-Few 1 ts (fail t empty_record) (omega arith)
        (fail-Few 0 t empty_record (omega arith) (omega arith)) in
    (locked-lookup now ip (failures ip (t ∷ ts) l) r (failures_new ip t ts l e)).1.1
      (omega (arith, u))

-- The burst: failures that fall within the coalescing window of the first.
abbrev pub Burst : ℕ → List ℕ → Type 0
Burst t = All (λ u. u < t + coalesce_window)

fail_all-Burst :
    (t : ℕ) (ts : List ℕ) (r : IpRecord)
    → 0 < t
    → Burst t ts
    → Open t t 1 r
    → Open t t 1 (fail_all ts r)
unfolding fail_all
fail_all-Burst t [] r pos b o = o
fail_all-Burst t (u ∷ ts) r pos b o = fail_all-Burst t ts (fail u r) pos b.1 (burst u (r) b.0 o)
  where
    burst : (u : ℕ) (r : IpRecord) → u < t + coalesce_window → Open t t 1 r → Open t t 1 (fail u r)
    burst u r h o = unfold fail in ground arith

-- However many failures of an IP without a record fall within the coalescing window of the first
-- one, together they count once, and the IP is not locked.
pub close_failures_count_once :
    (ip : Str) (l : RateLimiter) (t : ℕ) (ts : List ℕ) (now : ℕ)
    → lookup ip l ≡ none
    → 0 < t
    → Burst t ts
    → ((r : IpRecord) × (lookup ip (failures ip (t ∷ ts) l) ≡ some r) × (r.count ≡ 1))
      × ((locked now ip (failures ip (t ∷ ts) l)).2 ≡ false)
close_failures_count_once ip l t ts now e pos b =
    let r = fail_all ts (fail t empty_record) in
    let o = fail_all-Burst t ts (fail t empty_record) pos b (first-Open t pos) in
    let f = failures_new ip t ts l e in
    (
      (r, f, o.counted),
      (locked-lookup now ip (failures ip (t ∷ ts) l) r f).1.1 (omega (arith, o.off)),
    )
