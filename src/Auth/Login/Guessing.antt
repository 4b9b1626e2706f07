-- ===== src/Auth/Login/Guessing.antt =====
-- auth.go: the limit on guessing the passphrase.
use repo_man.Auth.Next.{UrlParser}
use repo_man.Auth.RateLimit
use repo_man.Auth.RateLimit.{RateLimiter, IpRecord, empty_record, fail, lockout_duration}
use repo_man.Auth.RateLimit.Lockout.{
  Spaced, last, fail_all, record_failure_new, record_failure-locked, locked-none, Open, fail-Open,
  first-Open, fail_all_trips, locked-lookup, locked_absent,
}
use repo_man.Auth.Login.Access.{login_read}
use repo_man.Auth.Login.{
  Authenticator, LoginRequest, Response, login, login_ip, try_login, enabled, respond_login_failure,
  wants_json_response,
}
use repo_man.Base.{
  All, ℕ, suc, ◌+◌, ◌-◌, ◌≤◌, ◌<◌, ◌≡◌, refl, ◌∙◌, ap, ◌≢◌, Bool, true, false, List, [], ◌∷◌,
  Option, none, some, arith, Str, eqb, eqb_iff, lookup, length, codes,
}

try_login-locked :
    (parse : UrlParser) (now : ℕ) (fresh : Option Str) (j : Bool) (ip : Str) (body : Str × Str)
    (a : Authenticator)
    → (RateLimit.locked now ip a.limiter).2 ≡ true
    → try_login parse now fresh j ip body a ≡ (
      record a { limiter = (RateLimit.locked now ip a.limiter).0 },
      respond_login_failure j 429 (codes "too many attempts") (RateLimit.locked now ip a.limiter).1,
    )
unfolding try_login
try_login-locked parse now fresh j ip body a h = rw h

-- Login from an IP that is locked out.
login_locked_out :
    (parse : UrlParser) (now : ℕ) (fresh : Option Str) (r : LoginRequest) (a : Authenticator)
    (body : Str × Str)
    → enabled a ≡ true
    → r.body ≡ some body
    → (RateLimit.locked now (login_ip a r) a.limiter).2 ≡ true
    → login parse now fresh r a ≡ (
      record a { limiter = (RateLimit.locked now (login_ip a r) a.limiter).0 },
      respond_login_failure
          (wants_json_response r.headers)
          429
          (codes "too many attempts")
          (RateLimit.locked now (login_ip a r) a.limiter).1,
    )
login_locked_out parse now fresh r a body on b h =
    login_read parse now fresh r a body on b
    ∙ try_login-locked parse now fresh (wants_json_response r.headers) (login_ip a r) body a h

-- A login at a time, with the session id that is drawn for it.
pub record Guess : Type 0 where
  pub time : ℕ
  pub fresh : Option Str
  pub request : LoginRequest

unfoldable pub guesses : UrlParser → List Guess → Authenticator → Authenticator
guesses parse [] a = a
guesses parse (g ∷ gs) a = guesses parse gs (login parse g.time g.fresh g.request a).0

abbrev pub times : List Guess → List ℕ
times [] = []
times (g ∷ gs) = g.time ∷ times gs

-- It comes from the IP with a passphrase that is not the configured one.
pub record IsWrong (a : Authenticator) (ip : Str) (g : Guess) : Type 0 where
  pub body : Str × Str
  pub read : g.request.body ≡ some body
  pub wrong : body.0 ≢ a.passphrase
  pub from : login_ip a g.request ≡ ip

guess_all : Str → List ℕ → RateLimiter → RateLimiter
guess_all ip [] l = l
guess_all ip (t ∷ ts) l =
    guess_all ip ts (RateLimit.record_failure t ip (RateLimit.locked t ip l).0)

lookup-guess_all :
    (ip : Str) (ts : List ℕ) (l : RateLimiter) (rec : IpRecord)
    → lookup ip l ≡ some rec
    → lookup ip (guess_all ip ts l) ≡ some (fail_all ts rec)
unfolding guess_all fail_all
lookup-guess_all ip [] l rec e = e
lookup-guess_all ip (t ∷ ts) l rec e =
    lookup-guess_all ip ts _ (fail t rec) (record_failure-locked t ip l rec e)

length-times : (gs : List Guess) → length (times gs) ≡ length gs
length-times [] = refl
length-times (g ∷ gs) = ap suc (length-times gs)

module _ (parse : UrlParser) (a : Authenticator) (ip : Str) where
  -- A wrong passphrase from the IP, where it is not locked out.
  wrong_login :
      (g : Guess) (l : RateLimiter)
      → enabled a ≡ true
      → IsWrong a ip g
      → (RateLimit.locked g.time ip l).2 ≡ false
      → (login parse g.time g.fresh g.request (record a { limiter = l })).0
        ≡ record a { limiter = RateLimit.record_failure g.time ip (RateLimit.locked g.time ip l).0 }
  wrong_login g l on w off =
      ap (λ (x : Authenticator × Response). x.0)
        (login_read parse g.time g.fresh g.request (record a { limiter = l }) w.body
          (unfold enabled in on) w.read)
      ∙ ap
          (λ (i : Str). (try_login parse g.time g.fresh json i w.body (record a { limiter = l })).0)
          address
      ∙ tried
    where
      json : Bool
      json = wants_json_response g.request.headers

      address : login_ip (record a { limiter = l }) g.request ≡ ip
      address = unfold login_ip in w.from

      differs : eqb w.body.0 a.passphrase ≡ false
      differs = ground (arith, eqb_iff w.body.0 a.passphrase, w.wrong)

      tried :
          (try_login parse g.time g.fresh json ip w.body (record a { limiter = l })).0 ≡ record a {
            limiter = RateLimit.record_failure g.time ip (RateLimit.locked g.time ip l).0;
          }
      tried = unfold try_login in simp (off, differs)

  guesses_run :
      (start prev k : ℕ) (gs : List Guess) (l : RateLimiter) (rec : IpRecord)
      → enabled a ≡ true
      → All (IsWrong a ip) gs
      → 0 < start
      → start ≤ prev
      → Spaced start prev (times gs)
      → k + length (times gs) ≤ 5
      → lookup ip l ≡ some rec
      → Open start prev k rec
      → guesses parse gs (record a { limiter = l })
        ≡ record a { limiter = guess_all ip (times gs) l }
  unfolding guesses guess_all
  guesses_run start prev k [] l rec on w pos le s n e o = refl
  guesses_run start prev k (g ∷ []) l rec on w pos le s n e o =
      wrong_login g l on w.0 ((locked-lookup g.time ip l rec e).1.1 (omega (arith, o.off)))
  guesses_run start prev k (g ∷ u ∷ gs) l rec on w pos le s n e o =
      ap (guesses parse (u ∷ gs))
        (wrong_login g l on w.0 ((locked-lookup g.time ip l rec e).1.1 (omega (arith, o.off))))
      ∙ guesses_run start g.time (suc k) (u ∷ gs) _ (fail g.time rec) on w.1 pos (omega arith) s.2
          (omega arith) (record_failure-locked g.time ip l rec e)
          (fail-Open start prev k g.time rec pos le (omega arith) s.0 s.1 o)

  -- With authentication on, five logins from an IP without a record, each with a passphrase that is
  -- not the configured one, spaced by the coalescing window and within one failure window, lock it
  -- out: until the lockout duration after the last of them every login from that address is refused
  -- with the time left, also one with the right passphrase, and the sessions are as they were before
  -- the first guess.
  pub lockout_after_guesses :
      (g : Guess) (gs : List Guess) (now : ℕ) (fresh : Option Str) (again : LoginRequest)
      (body : Str × Str)
      → enabled a ≡ true
      → All (IsWrong a ip) (g ∷ gs)
      → lookup ip a.limiter ≡ none
      → 0 < g.time
      → Spaced g.time g.time (times gs)
      → length gs ≡ 4
      → again.body ≡ some body
      → login_ip a again ≡ ip
      → now < last g.time (times gs) + lockout_duration
      → ((login parse now fresh again (guesses parse (g ∷ gs) a)).1
          ≡ respond_login_failure
              (wants_json_response again.headers)
              429
              (codes "too many attempts")
              (last g.time (times gs) + lockout_duration - now))
        × ((login parse now fresh again (guesses parse (g ∷ gs) a)).0.store ≡ a.store)
  lockout_after_guesses g gs now fresh again body on w free pos s n b' same before = (
    ap (λ (x : Authenticator). (login parse now fresh again x).1) reached
        ∙ ap (λ (x : Authenticator × Response). x.1) refusal
        ∙ ap
            (respond_login_failure (wants_json_response again.headers) 429
              (codes "too many attempts"))
            left,
    ap (λ (x : Authenticator). (login parse now fresh again x).0.store) reached
        ∙ ap (λ (x : Authenticator × Response). x.0.store) refusal,
  )
    where
      t : ℕ
      t = g.time

      ts : List ℕ
      ts = times gs

      four : length ts ≡ 4
      four = length-times gs ∙ n

      first : RateLimiter
      first = RateLimit.record_failure t ip (RateLimit.locked t ip a.limiter).0

      rec : IpRecord
      rec = fail t empty_record

      found : lookup ip first ≡ some rec
      found = rw (locked-none t ip a.limiter free) (record_failure_new t ip a.limiter free)

      end : RateLimiter
      end = guess_all ip ts first

      reached : guesses parse (g ∷ gs) a ≡ record a { limiter = end }
      reached =
          unfold guesses in
          ap (guesses parse gs)
            (wrong_login g a.limiter on w.0 (locked_absent t ip a.limiter free).1)
          ∙ guesses_run t t 1 gs first rec on w.1 pos (omega arith) s (omega (arith, four)) found
              (first-Open t pos)

      until : (fail_all ts rec).locked_until ≡ last t ts + lockout_duration
      until =
          fail_all_trips t t 1 ts rec pos (omega arith) s (omega (arith, four))
            (omega (arith, four)) (first-Open t pos)

      answer :
          ((RateLimit.locked now ip end).1 ≡ last t ts + lockout_duration - now)
          × ((RateLimit.locked now ip end).2 ≡ true)
      answer =
          let q =
            locked-lookup now ip end (fail_all ts rec) (lookup-guess_all ip ts first rec found) in
          (omega (arith, q.0, until), q.1.0 (omega (arith, until)))

      address : login_ip (record a { limiter = end }) again ≡ ip
      address = unfold login_ip in same

      left :
          (RateLimit.locked now (login_ip (record a { limiter = end }) again) end).1
          ≡ last t ts + lockout_duration - now
      left = rw address answer.0

      refusal : login parse now fresh again (record a { limiter = end }) ≡ (
        record a {
          limiter = (RateLimit.locked now (login_ip (record a { limiter = end }) again) end).0;
        },
        respond_login_failure
            (wants_json_response again.headers)
            429
            (codes "too many attempts")
            (RateLimit.locked now (login_ip (record a { limiter = end }) again) end).1,
      )
      refusal =
          login_locked_out parse now fresh again (record a { limiter = end }) body
            (unfold enabled in on) b' (rw address answer.1)
