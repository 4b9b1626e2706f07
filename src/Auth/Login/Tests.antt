-- ===== src/Auth/Login/Tests.antt =====
-- The theorems on internal/auth/auth.go at concrete inputs, and on a store that is full.
use repo_man.Auth.Next.{UrlParser}
use repo_man.Auth.RateLimit
use repo_man.Auth.RateLimit.{lockout_duration}
use repo_man.Auth.RateLimit.Lockout.{last}
use repo_man.Auth.Session.{SessionStore, create, max_sessions}
use repo_man.Auth.Session.Bounds.{Call, creates, HasId, run, step}
use repo_man.Auth.Ip.{client_ip}
use repo_man.Auth.Times.{second}
use repo_man.Auth.Login.{
  Authenticator, LoginRequest, Headers, login, login_ip, admit, try_login, enabled, session_cookie,
  authenticated, logout, respond_login_failure, respond_login_success, wants_json_response,
}
use repo_man.Auth.Login.Access.{Admitted, login-Admitted, authenticated-login, authenticated-logout}
use repo_man.Auth.Login.Sliding.{uses}
use repo_man.Auth.Login.Guessing.{Guess, guesses, times, IsWrong, lockout_after_guesses}
use repo_man.Base.{
  ℕ, zero, suc, ◌+◌, ◌-◌, ◌*◌, ◌≤◌, ◌≡◌, refl, false, List, [], ◌∷◌, none, some, arith, Str, codes,
  All, eqb, eqb-ne, lookup, insert, length, leb, contains,
}

abbrev no_host : UrlParser
no_host s = some ([], [])

abbrev guard : Authenticator
guard = record {
  passphrase = codes "pw";
  secure_cookie = false;
  trust_proxy_ip = false;
  session_ttl = 60 * second;
  store = [];
  limiter = [];
}

abbrev form : Headers
form = record { accept = []; content_type = []; sec_fetch_mode = [] }

abbrev right : LoginRequest
right = record {
  headers = form;
  body = some (codes "pw", codes "/");
  xff = [];
  remote_addr = codes "10.0.0.7:99";
}

abbrev drawn : Str
drawn = codes "s1"

first_cookie :
    (login no_host (10 * second) (some drawn) right guard).1.cookie
    ≡ some (session_cookie guard drawn)
unfolding login login_ip enabled try_login admit wants_json_response eqb contains RateLimit.locked
    lookup create respond_login_success
first_cookie = refl

login-Admitted_example :
    Admitted (10 * second) (some drawn) right guard (session_cookie guard drawn)
login-Admitted_example =
    login-Admitted no_host (10 * second) (some drawn) right guard (session_cookie guard drawn)
      first_cookie

-- A session that is used after 30 and after 80 seconds lives longer than its first minute.
abbrev two_uses : List ℕ
two_uses = 40 * second ∷ 90 * second ∷ []

authenticated-login_example :
    ((login no_host (10 * second) (some drawn) right guard).1.cookie
      ≡ some (session_cookie guard drawn))
    × ((authenticated
          (140 * second)
          (some drawn)
          (uses drawn two_uses (login no_host (10 * second) (some drawn) right guard).0)).1
        ≡ leb (140 * second) (90 * second + 60 * second))
unfolding enabled eqb RateLimit.locked lookup
authenticated-login_example =
    authenticated-login no_host (10 * second) drawn right guard (codes "/") two_uses (140 * second)
      refl (eqb-ne _ _ refl) refl refl (omega arith, (omega arith, tt))

authenticated-logout_example :
    (authenticated (40 * second) (some drawn) (logout form (some drawn) guard).0).1 ≡ false
unfolding enabled eqb
authenticated-logout_example =
    authenticated-logout form drawn guard (40 * second) refl (eqb-ne _ _ refl)

-- Five guesses, no two with one passphrase.
abbrev guess : ℕ → Str → Guess
guess time passphrase = record {
  time = time;
  fresh = none;
  request = record right { body = some (passphrase, codes "/") };
}

abbrev later_guesses : List Guess
later_guesses =
    guess (11 * second) (codes "b")
    ∷ guess (12 * second) (codes "c")
    ∷ guess (13 * second) (codes "d")
    ∷ guess (14 * second) (codes "e")
    ∷ []

guess-IsWrong :
    (time : ℕ) (passphrase : Str)
    → eqb passphrase (codes "pw") ≡ false
    → IsWrong guard (codes "10.0.0.7") (guess time passphrase)
unfolding login_ip client_ip
guess-IsWrong time passphrase h = record {
  body = (passphrase, codes "/");
  read = refl;
  wrong = eqb-ne _ _ h;
  from = refl;
}

all-IsWrong :
    All (IsWrong guard (codes "10.0.0.7")) (guess (10 * second) (codes "a") ∷ later_guesses)
unfolding eqb
all-IsWrong = (
  guess-IsWrong _ _ refl,
  (
    guess-IsWrong _ _ refl,
    (guess-IsWrong _ _ refl, (guess-IsWrong _ _ refl, (guess-IsWrong _ _ refl, tt))),
  ),
)

lockout_after_guesses_example :
    ((login no_host
        (20 * second)
        none
        right
        (guesses no_host (guess (10 * second) (codes "a") ∷ later_guesses) guard)).1
      ≡ respond_login_failure
          (wants_json_response form)
          429
          (codes "too many attempts")
          (last (10 * second) (times later_guesses) + lockout_duration - 20 * second))
    × ((login no_host
          (20 * second)
          none
          right
          (guesses no_host (guess (10 * second) (codes "a") ∷ later_guesses) guard)).0.store
        ≡ [])
unfolding enabled eqb lookup login_ip client_ip
lockout_after_guesses_example =
    lockout_after_guesses no_host guard (codes "10.0.0.7") (guess (10 * second) (codes "a"))
      later_guesses (20 * second) none right (codes "pw", codes "/") refl all-IsWrong refl
      (omega arith)
      (
        omega arith,
        omega arith,
        (omega arith, omega arith, (omega arith, omega arith, (omega arith, omega arith, tt))),
      )
      refl refl refl (omega arith)

-- Sessions that fill the store, one for each number.
unfoldable fill : ℕ → List Call
fill zero = []
fill (suc n) = creates n 50 (suc n ∷ []) ∷ fill n

fill-HasId : (n : ℕ) → All HasId (fill n)
unfolding fill
fill-HasId zero = tt
fill-HasId (suc n) = (λ h. cc, fill-HasId n)

abbrev full : SessionStore
full = run (fill 64) []

full_size : max_sessions ≤ length full
unfolding fill run step create insert eqb
full_size = omega arith

abbrev other_id : Str
other_id = 40 ∷ []
