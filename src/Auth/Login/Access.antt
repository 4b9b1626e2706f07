-- ===== src/Auth/Login/Access.antt =====
-- auth.go: who gets a session, and what a session gives.
use repo_man.Auth.Next.{UrlParser}
use repo_man.Auth.RateLimit
use repo_man.Auth.Session
use repo_man.Auth.Session.Validity.{touch-delete}
use repo_man.Auth.Session.{SessionRecord}
use repo_man.Auth.RateLimit.Lockout.{last}
use repo_man.Auth.Login.Sliding.{uses, Timely, uses-answer}
use repo_man.Auth.Login.{
  Authenticator, LoginRequest, Response, Cookie, Headers, login, login_ip, try_login, admit,
  enabled, session_cookie, respond_login_success, respond_login_failure, wants_json_response,
  check_session, authenticated, logout,
}
use repo_man.Base.{
  ℕ, ◌+◌, ◌≡◌, ◌≢◌, ap, sym, ◌∙◌, Bool, refl, lookup, lookup-insert, List, true, false, [], Option,
  none, some, arith, Str, eqb, eqb_iff, eqb_refl, eqb-nil, leb, Option-cases, Bool-cases, inl, inr,
}

-- What a login that sets a cookie went through.
pub record Admitted (now : ℕ) (fresh : Option Str) (r : LoginRequest) (a : Authenticator)
    (c : Cookie) : Type 0 where
  pub gate : enabled a ≡ true
  pub next : Str
  pub guess : r.body ≡ some (a.passphrase, next)
  pub unlocked : (RateLimit.locked now (login_ip a r) a.limiter).2 ≡ false
  pub drawn : fresh ≡ some c.value

none≢some {ℓ} : {A : Type ℓ} {x : A} → ¬ (◌≡◌ {A = Option A} none (some x))
none≢some h = cc

failure_no_cookie :
    (j : Bool) (status : ℕ) (msg : Str) (retry : ℕ)
    → (respond_login_failure j status msg retry).cookie ≡ none
unfolding respond_login_failure
failure_no_cookie j status msg retry = ground arith

success_no_cookie :
    (parse : UrlParser) (j : Bool) (next : Str) → (respond_login_success parse j next).cookie ≡ none
unfolding respond_login_success
success_no_cookie parse j next = ground arith

admit-drawn :
    (parse : UrlParser) (now : ℕ) (fresh : Option Str) (j : Bool) (ip next : Str)
    (a : Authenticator) (c : Cookie)
    → (admit parse now fresh j ip next a).1.cookie ≡ some c
    → fresh ≡ some c.value
unfolding admit Session.create session_cookie
admit-drawn parse now none j ip next a c h = cc
admit-drawn parse now (some id) j ip next a c h =
    let e : session_cookie a id ≡ c = cc in ap some (ap (λ (d : Cookie). d.value) e)

-- The parts of a login that got a cookie after the body was read.
try_login_parts :
    (parse : UrlParser) (now : ℕ) (fresh : Option Str) (j : Bool) (ip guess next : Str)
    (a : Authenticator) (c : Cookie)
    → (try_login parse now fresh j ip (guess, next) a).1.cookie ≡ some c
    → ((RateLimit.locked now ip a.limiter).2 ≡ false)
      × (guess ≡ a.passphrase)
      × (fresh ≡ some c.value)
unfolding try_login
try_login_parts parse now fresh j ip guess next a c h =
    elim (Bool-cases (RateLimit.locked now ip a.limiter).2) [
      | inl on ↦ absurd (none≢some (sym (failure_no_cookie j 429 _ _) ∙ (rw on at h)))
      | inr off ↦ elim (Bool-cases (eqb guess a.passphrase)) [
        | inr wrong ↦
            absurd (none≢some (sym (failure_no_cookie j 401 _ 0) ∙ (rw (off, wrong) at h)))
        | inl right ↦ (
          off,
          (eqb_iff _ _).0 right,
          admit-drawn parse now fresh j ip next _ c (rw (off, right) at h),
        )
      ]
    ]

-- Login with authentication on, by whether the body was read.
pub login_read :
    (parse : UrlParser) (now : ℕ) (fresh : Option Str) (r : LoginRequest) (a : Authenticator)
    (body : Str × Str)
    → enabled a ≡ true
    → r.body ≡ some body
    → login parse now fresh r a
      ≡ try_login parse now fresh (wants_json_response r.headers) (login_ip a r) body a
unfolding login
login_read parse now fresh r a body on b = simp (on, b)

login_unread_no_cookie :
    (parse : UrlParser) (now : ℕ) (fresh : Option Str) (r : LoginRequest) (a : Authenticator)
    → enabled a ≡ true
    → r.body ≡ none
    → (login parse now fresh r a).1.cookie ≡ none
unfolding login
login_unread_no_cookie parse now fresh r a on b =
    simp (on, b) (failure_no_cookie (wants_json_response r.headers) 400 _ 0)

login_off_no_cookie :
    (parse : UrlParser) (now : ℕ) (fresh : Option Str) (r : LoginRequest) (a : Authenticator)
    → enabled a ≡ false
    → (login parse now fresh r a).1.cookie ≡ none
unfolding login
login_off_no_cookie parse now fresh r a off =
    simp off (success_no_cookie parse (wants_json_response r.headers) [])

-- A login sets a session cookie only where authentication is on, the IP is not locked out, the
-- passphrase is the configured one, and the id in the cookie is the one that was drawn for it.
pub login-Admitted :
    (parse : UrlParser) (now : ℕ) (fresh : Option Str) (r : LoginRequest) (a : Authenticator)
    (c : Cookie)
    → (login parse now fresh r a).1.cookie ≡ some c
    → Admitted now fresh r a c
login-Admitted parse now fresh r a c h = elim (Bool-cases (enabled a)) [
  | inr off ↦ absurd (none≢some (sym (login_off_no_cookie parse now fresh r a off) ∙ h))
  | inl on ↦ elim (Option-cases r.body) [
    | inl b ↦ absurd (none≢some (sym (login_unread_no_cookie parse now fresh r a on b) ∙ h))
    | inr (body, b) ↦
        let e : (try_login parse now fresh (wants_json_response r.headers) (login_ip a r) body
              a).1.cookie
            ≡ some c =
          sym (
            ap (λ (x : Authenticator × Response). x.1.cookie)
              (login_read parse now fresh r a body on b))
          ∙ h in
        let p =
          try_login_parts parse now fresh (wants_json_response r.headers) (login_ip a r) body.0
            body.1 a c e in
        record {
          gate = on;
          next = body.1;
          guess = b ∙ ap (λ (g : Str). some (g, body.1)) p.1;
          unlocked = p.0;
          drawn = p.2;
        }
  ]
]

refused :
    (now : ℕ) (id : Str) (a : Authenticator)
    → enabled a ≡ true
    → id ≢ []
    → (Session.touch now id a.session_ttl a.store).1 ≡ none
    → (authenticated now (some id) a).1 ≡ false
unfolding authenticated check_session
refused now id a on h e = simp (on, eqb-nil id h, e)

login_state :
    (parse : UrlParser) (now : ℕ) (id : Str) (j : Bool) (ip next : Str) (a : Authenticator)
    → (RateLimit.locked now ip a.limiter).2 ≡ false
    → (try_login parse now (some id) j ip (a.passphrase, next) a).0 ≡ record a {
      limiter = RateLimit.record_success ip (RateLimit.locked now ip a.limiter).0;
      store = (Session.create now a.session_ttl (some id) a.store).0;
    }
unfolding try_login admit Session.create
login_state parse now id j ip next a off = simp (off, eqb_refl)

login_cookie :
    (parse : UrlParser) (now : ℕ) (id : Str) (j : Bool) (ip next : Str) (a : Authenticator)
    → (RateLimit.locked now ip a.limiter).2 ≡ false
    → (try_login parse now (some id) j ip (a.passphrase, next) a).1.cookie
      ≡ some (session_cookie a id)
unfolding try_login admit Session.create session_cookie
login_cookie parse now id j ip next a off = simp (off, eqb_refl)

-- With authentication on and the IP not locked out, the right passphrase gets the cookie of the
-- drawn id, where that is not empty. If the requests that follow all bring that cookie, each one
-- within `session_ttl` of the one before it or of the login, then a next request with it is let in
-- up to and including the instant `session_ttl` after the last of them, and refused at every later
-- one.
pub authenticated-login :
    (parse : UrlParser) (now : ℕ) (id : Str) (r : LoginRequest) (a : Authenticator) (next : Str)
    (ts : List ℕ) (t : ℕ)
    → enabled a ≡ true
    → id ≢ []
    → r.body ≡ some (a.passphrase, next)
    → (RateLimit.locked now (login_ip a r) a.limiter).2 ≡ false
    → Timely a.session_ttl now ts
    → ((login parse now (some id) r a).1.cookie ≡ some (session_cookie a id))
      × ((authenticated t (some id) (uses id ts (login parse now (some id) r a).0)).1
          ≡ leb t (last now ts + a.session_ttl))
authenticated-login parse now id r a next ts t on h b off timely = (
  ap (λ (x : Authenticator × Response). x.1.cookie) read
      ∙ login_cookie parse now id j ip next a off,
  ap (λ (x : Authenticator). (authenticated t (some id) (uses id ts x)).1)
        (ap (λ (x : Authenticator × Response). x.0) read ∙ login_state parse now id j ip next a off)
      ∙ uses-answer id h t now ts after made (unfold enabled in on) found refl timely,
)
  where
    j : Bool
    j = wants_json_response r.headers

    ip : Str
    ip = login_ip a r

    read : login parse now (some id) r a ≡ try_login parse now (some id) j ip (a.passphrase, next) a
    read = login_read parse now (some id) r a (a.passphrase, next) on b

    after : Authenticator
    after = record a {
      limiter = RateLimit.record_success ip (RateLimit.locked now ip a.limiter).0;
      store = (Session.create now a.session_ttl (some id) a.store).0;
    }

    made : SessionRecord
    made = record { created = now; expires = now + a.session_ttl; cookie_issued = now }

    found : lookup id (Session.create now a.session_ttl (some id) a.store).0 ≡ some made
    found = unfold Session.create in rw lookup-insert (rw eqb_refl refl)

-- With authentication on, after a logout with a cookie that is not empty, its session is refused
-- at any time.
pub authenticated-logout :
    (hd : Headers) (id : Str) (a : Authenticator) (t : ℕ)
    → enabled a ≡ true
    → id ≢ []
    → (authenticated t (some id) (logout hd (some id) a).0).1 ≡ false
authenticated-logout hd id a t on h =
    ap (λ (x : Authenticator). (authenticated t (some id) x).1) left
    ∙ refused t id (record a { store = Session.delete_session id a.store }) (unfold enabled in on) h
        (touch-delete t id a.session_ttl a.store t).0
  where
    left : (logout hd (some id) a).0 ≡ record a { store = Session.delete_session id a.store }
    left = unfold logout in simp (on, eqb-nil id h)
