-- ===== src/Auth/Login.antt =====
-- internal/auth/auth.go: login, the check of a session, logout, and the periodic sweep. A request
-- is what the handlers read of it, a response is what they write.
pub mod Access
pub mod Body
pub mod Guessing
pub mod Sliding
mod Tests
use repo_man.Auth.Ip.{client_ip}
use repo_man.Auth.Next.{UrlParser, sanitize_next}
use repo_man.Auth.RateLimit
use repo_man.Auth.RateLimit.{RateLimiter}
use repo_man.Auth.Session
use repo_man.Auth.Session.{SessionStore}
use repo_man.Auth.Times.{second, hour, is_zero}
use repo_man.Base.{
  ℕ, ◌+◌, ◌-◌, ◌*◌, ◌/◌, ◌%◌, Bool, true, false, not, ◌||◌, ◌&&◌, List, [], ◌∷◌, Option, none, some,
  Str, codes, eqb, contains, ltb, leb, if◌then◌else◌, ◌==◌,
}

abbrev pub default_session_ttl : ℕ
default_session_ttl = 30 * (24 * hour)

abbrev pub cookie_reissue_interval : ℕ
cookie_reissue_interval = 24 * hour

pub record Authenticator : Type 0 where
  pub passphrase : Str
  pub secure_cookie : Bool
  pub trust_proxy_ip : Bool
  pub session_ttl : ℕ
  pub store : SessionStore
  pub limiter : RateLimiter

-- A TTL that is not positive takes the default.
unfoldable pub new_authenticator : Str → Bool → Bool → ℕ → Authenticator
new_authenticator passphrase secure trust ttl = record {
  passphrase = passphrase;
  secure_cookie = secure;
  trust_proxy_ip = trust;
  session_ttl = if ttl == 0 then default_session_ttl else ttl;
  store = [];
  limiter = [];
}

unfoldable pub enabled : Authenticator → Bool
enabled a = not (eqb a.passphrase [])

-- The headers that decide between a redirect and a JSON answer.
pub record Headers : Type 0 where
  pub accept : Str
  pub content_type : Str
  pub sec_fetch_mode : Str

unfoldable pub wants_json_response : Headers → Bool
wants_json_response h =
    contains h.accept (codes "application/json")
    || contains h.content_type (codes "application/json")

unfoldable pub accepts_html : Headers → Bool
accepts_html h =
    if contains h.content_type (codes "application/json")
    then false
    else if not (eqb h.sec_fetch_mode [])
    then eqb h.sec_fetch_mode (codes "navigate")
    else if eqb h.accept []
    then true
    else contains h.accept (codes "text/html") || contains h.accept (codes "*/*")

pub data MaxAge : Type 0 where
  seconds : ℕ → MaxAge
  expired : MaxAge

-- The session cookie; HttpOnly, SameSite=Strict and the path "/" are the same in each.
pub record Cookie : Type 0 where
  pub value : Str
  pub secure : Bool
  pub max_age : MaxAge

unfoldable pub session_cookie : Authenticator → Str → Cookie
session_cookie a id = record {
  value = id;
  secure = a.secure_cookie;
  max_age = seconds (a.session_ttl / second);
}

unfoldable pub cleared_cookie : Authenticator → Cookie
cleared_cookie a = record { value = []; secure = a.secure_cookie; max_age = expired }

-- Where a response redirects to: a path, or the login page with its query.
pub data Location : Type 0 where
  to : Str → Location
  to_login : Location
  login_invalid : Location
  login_locked : ℕ → Location
  login_next : Str → Location

pub record Response : Type 0 where
  pub status : ℕ
  pub location : Option Location
  pub error : Option Str
  pub retry_after : Option ℕ
  pub cookie : Option Cookie

abbrev pub plain_response : ℕ → Response
plain_response status = record {
  status = status;
  location = none;
  error = none;
  retry_after = none;
  cookie = none;
}

-- Whole seconds, rounded up.
unfoldable pub ceil_seconds : ℕ → ℕ
ceil_seconds d = if d % second == 0 then d / second else d / second + 1

unfoldable pub respond_login_success : UrlParser → Bool → Str → Response
respond_login_success parse json_mode next =
    if json_mode
    then plain_response 204
    else record (plain_response 303) { location = some (to (sanitize_next parse next)) }

unfoldable pub respond_login_failure : Bool → ℕ → Str → ℕ → Response
respond_login_failure json_mode status msg retry =
    if json_mode
    then record (plain_response status) {
      error = some msg;
      retry_after = if ltb 0 retry then some (ceil_seconds retry) else none;
    }
    else record (plain_response 303) {
      location = some (if status == 429 then login_locked (ceil_seconds retry) else login_invalid);
    }

-- A POST /login: `body` holds the passphrase and `next`, or none where it does not parse.
pub record LoginRequest : Type 0 where
  pub headers : Headers
  pub body : Option (Str × Str)
  pub xff : List Str
  pub remote_addr : Str

unfoldable pub login_ip : Authenticator → LoginRequest → Str
login_ip a r = client_ip a.trust_proxy_ip r.xff r.remote_addr

-- The right passphrase: the failures of the IP are forgotten and a session is created, under the
-- id that newSessionID draws (none where it fails).
unfoldable pub admit :
    UrlParser → ℕ → Option Str → Bool → Str → Str → Authenticator → Authenticator × Response
admit parse now fresh json_mode ip next a =
    let (store, id) = Session.create now a.session_ttl fresh a.store in
    let a' : Authenticator = record a {
      limiter = RateLimit.record_success ip a.limiter;
      store = store;
    } in
    elim id [
      | none ↦ (a', plain_response 500)
      | some id ↦ (
        a',
        record (respond_login_success parse json_mode next) { cookie = some (session_cookie a id) },
      )
    ]

-- Login after the body was read.
unfoldable pub try_login :
    UrlParser → ℕ → Option Str → Bool → Str → Str × Str → Authenticator → Authenticator × Response
try_login parse now fresh json_mode ip (passphrase, next) a =
    let (limiter, retry_after, is_locked) = RateLimit.locked now ip a.limiter in
    let a' : Authenticator = record a { limiter = limiter } in
    if is_locked
    then (a', respond_login_failure json_mode 429 (codes "too many attempts") retry_after)
    else if not (eqb passphrase a.passphrase)
    then (
      record a { limiter = RateLimit.record_failure now ip limiter },
      respond_login_failure json_mode 401 (codes "invalid passphrase") 0,
    )
    else admit parse now fresh json_mode ip next a'

unfoldable pub login :
    UrlParser → ℕ → Option Str → LoginRequest → Authenticator → Authenticator × Response
login parse now fresh r a =
    let json_mode = wants_json_response r.headers in
    if not (enabled a) then (a, respond_login_success parse json_mode []) else elim r.body [
      | none ↦ (a, respond_login_failure json_mode 400 (codes "malformed request") 0)
      | some body ↦ try_login parse now fresh json_mode (login_ip a r) body a
    ]

-- The id of a valid session and when its cookie was issued. `cookie` is the value of the cookie.
unfoldable pub check_session : ℕ → Option Str → Authenticator → Authenticator × Option (Str × ℕ)
check_session now none a = (a, none)
check_session now (some id) a =
    if eqb id []
    then (a, none)
    else let (store, issued) = Session.touch now id a.session_ttl a.store in
      let a' : Authenticator = record a { store = store } in
      elim issued [ none ↦ (a', none) | some at ↦ (a', some (id, at)) ]

unfoldable pub authenticated : ℕ → Option Str → Authenticator → Authenticator × Bool
authenticated now cookie a =
    if not (enabled a)
    then (a, true)
    else let (a', session) = check_session now cookie a in
      elim session [ none ↦ (a', false) | some s ↦ (a', true) ]

unfoldable pub deny : UrlParser → Headers → Str → Response
deny parse h request_uri =
    if accepts_html h
    then record (plain_response 302) {
      location = some (login_next (sanitize_next parse request_uri));
    }
    else record (plain_response 401) { error = some (codes "authentication required") }

-- What Require does with a request: answer it itself, or hand it on, perhaps with a new cookie.
pub data Gate : Type 0 where
  denied : Response → Gate
  passed : Option Cookie → Gate

-- The clock is read for the session, and once more for the cookie.
unfoldable pub require :
    UrlParser → ℕ → ℕ → Headers → Str → Option Str → Authenticator → Authenticator × Gate
require parse now then_now h request_uri cookie a =
    if not (enabled a)
    then (a, passed none)
    else let (a', session) = check_session now cookie a in
      elim session [
        | none ↦ (a', denied (deny parse h request_uri))
        | some (id, issued) ↦
            if ltb cookie_reissue_interval (then_now - issued)
            then (
              record a' { store = Session.mark_cookie_issued id then_now a'.store },
              passed (some (session_cookie a id)),
            )
            else (a', passed none)
      ]

unfoldable pub logout : Headers → Option Str → Authenticator → Authenticator × Response
logout h cookie a =
    let a' : Authenticator = elim cookie [
      | none ↦ a
      | some id ↦
          if enabled a && not (eqb id [])
          then record a { store = Session.delete_session id a.store }
          else a
    ] in
    let r =
      if wants_json_response h
      then plain_response 204
      else record (plain_response 303) { location = some to_login } in
    (a', record r { cookie = some (cleared_cookie a) })

-- One tick of Run.
unfoldable pub sweep : ℕ → Authenticator → Authenticator
sweep now a = record a { store = Session.gc now a.store; limiter = RateLimit.gc now a.limiter }
