-- ===== src/Auth/Tests.antt =====
-- The theorems on internal/auth at concrete inputs.
use repo_man.Auth.RateLimit
use repo_man.Auth.RateLimit.{
  RateLimiter, Call, asks_locked, fails, succeeds, sweeps, locked, max_failures, coalesce_window,
  lockout_duration, record_failure, fail, empty_record,
}
use repo_man.Auth.RateLimit.Bounds
use repo_man.Auth.RateLimit.Bounds.{run-empty-IsBounded}
use repo_man.Auth.RateLimit.Lockout.{failures, last, locked_after_five}
use repo_man.Auth.RateLimit.Sweep.{Agree}
use repo_man.Auth.RateLimit.History.{Agree-gc-run}
use repo_man.Auth.Session
use repo_man.Auth.Session.{
  SessionRecord, SessionStore, create, touch, delete_session, mark_cookie_issued, count,
  max_sessions,
}
use repo_man.Auth.Session.Bounds.{creates, touches, deletes, IsBounded, count-run-le}
use repo_man.Auth.Next.{UrlParser, sanitize_next, fallback}
use repo_man.Auth.Next.Laws.{IsPath, IsPrintable, sanitize_next-IsPath}
use repo_man.Auth.Ip.{client_ip}
use repo_man.Auth.Ip.Forwarded.{client_ip_proxy}
use repo_man.Auth.Times.{second, hour}
use repo_man.Base.{
  ℕ, ◌+◌, ◌-◌, ◌*◌, ◌≤◌, ◌<◌, ◌≡◌, refl, ◌⊎◌, true, false, List, [], ◌∷◌, ◌++◌, some, arith, Str,
  codes, All, lookup, trim_space, eqb, eqb-ne, has_char,
}

abbrev ip : Str
ip = codes "10.0.0.7"

abbrev later_guesses : List ℕ
later_guesses = 11 * second ∷ 12 * second ∷ 13 * second ∷ 14 * second ∷ []

locked_after_five_example :
    ((locked (20 * second) ip (failures ip (10 * second ∷ later_guesses) [])).1
      ≡ last (10 * second) later_guesses + lockout_duration - 20 * second)
    × (20 * second < last (10 * second) later_guesses + lockout_duration
        → (locked (20 * second) ip (failures ip (10 * second ∷ later_guesses) [])).2 ≡ true)
    × (last (10 * second) later_guesses + lockout_duration ≤ 20 * second
        → (locked (20 * second) ip (failures ip (10 * second ∷ later_guesses) [])).2 ≡ false)
unfolding lookup
locked_after_five_example =
    locked_after_five ip [] (10 * second) later_guesses (20 * second) refl (omega arith)
      (
        omega arith,
        omega arith,
        (omega arith, omega arith, (omega arith, omega arith, (omega arith, omega arith, tt))),
      )
      refl

abbrev limiter_calls : List Call
limiter_calls =
    fails (1 * second) ip
    ∷ fails (2 * second) (codes "10.0.0.8")
    ∷ asks_locked (3 * second) ip
    ∷ succeeds ip
    ∷ sweeps (hour)
    ∷ []

run-empty-IsBounded_example : RateLimit.Bounds.IsBounded (RateLimit.Bounds.run limiter_calls [])
unfolding eqb
run-empty-IsBounded_example =
    run-empty-IsBounded limiter_calls
      (eqb-ne _ _ refl, (eqb-ne _ _ refl, (eqb-ne _ _ refl, (eqb-ne _ _ refl, (tt, tt)))))

Agree-gc-run_example :
    Agree
      (3 * hour)
      ip
      (RateLimit.gc (2 * hour) (RateLimit.Bounds.run limiter_calls []))
      (RateLimit.Bounds.run limiter_calls [])
Agree-gc-run_example =
    Agree-gc-run limiter_calls (2 * hour) (3 * hour) ip
      (
        omega arith,
        omega arith,
        (
          omega arith,
          omega arith,
          (omega arith, omega arith, (omega arith, omega arith, (omega arith, omega arith, tt))),
        ),
      )
      (omega arith)

abbrev session_id : Str
session_id = codes "s1"

abbrev session_calls : List Session.Bounds.Call
session_calls =
    creates 10 50 session_id
    ∷ creates 12 50 (codes "s2")
    ∷ touches 15 session_id 50
    ∷ deletes session_id
    ∷ []

count-run-le_example :
    IsBounded (Session.Bounds.run session_calls [])
    × (count (Session.Bounds.run session_calls []) ≤ max_sessions)
unfolding eqb
count-run-le_example =
    count-run-le session_calls (eqb-ne _ _ refl, (eqb-ne _ _ refl, (eqb-ne _ _ refl, (tt, tt))))

abbrev no_host : UrlParser
no_host s = some ([], [])

sanitize_next-IsPath_example :
    IsPath (sanitize_next no_host (codes "/repos"))
    × All IsPrintable (sanitize_next no_host (codes "/repos"))
    × ((sanitize_next no_host (codes "/repos") ≡ codes "/repos")
        ⊎ (sanitize_next no_host (codes "/repos") ≡ fallback))
sanitize_next-IsPath_example = sanitize_next-IsPath no_host (codes "/repos")

client_ip_proxy_example :
    (client_ip true (codes " 10.0.0.9" ∷ []) (codes "[::1]:80") ≡ trim_space (codes " 10.0.0.9"))
    × (client_ip true
          (codes "1.2.3.4" ∷ codes "5.6.7.8" ∷ codes " 10.0.0.9" ∷ [])
          (codes "[::1]:80")
        ≡ trim_space (codes " 10.0.0.9"))
    × (client_ip true
          (codes "5.6.7.8" ∷ (codes "forged" ++ b',' ∷ codes " 10.0.0.9") ∷ [])
          (codes "[::1]:80")
        ≡ trim_space (codes " 10.0.0.9"))
unfolding eqb has_char trim_space
client_ip_proxy_example =
    client_ip_proxy (codes "1.2.3.4") (codes "5.6.7.8" ∷ []) (codes "forged") (codes " 10.0.0.9")
      (codes "[::1]:80") refl (eqb-ne _ _ refl)
