-- ===== src/Auth/Login/Sliding.antt =====
-- auth.go: a session that is used again and again, with the deadline that each use moves.
use repo_man.Auth.Login.{Authenticator, authenticated, check_session, enabled}
use repo_man.Auth.Session
use repo_man.Auth.Session.{SessionRecord, SessionStore}
use repo_man.Auth.Session.Validity.{touch-verdict}
use repo_man.Auth.RateLimit.Lockout.{last}
use repo_man.Base.{
  ℕ, ◌+◌, ◌≤◌, ◌≡◌, ◌≢◌, refl, ap, ◌∙◌, true, false, [], ◌∷◌, List, none, some, Bool-cases, inl,
  inr, if◌then◌else◌, arith, Str, eqb_refl, eqb-nil, leb, ltb, lookup, insert, lookup-insert,
}

-- Requests with the cookie, at the given times.
unfoldable pub uses : Str → List ℕ → Authenticator → Authenticator
uses id [] a = a
uses id (t ∷ ts) a = uses id ts (authenticated t (some id) a).0

-- Each use comes within the TTL of the one before it.
abbrev pub Timely : ℕ → ℕ → List ℕ → Type 0
Timely ttl prev [] = Unit
Timely ttl prev (t ∷ ts) = (t ≤ prev + ttl) × Timely ttl t ts

touch-live :
    (t ttl : ℕ) (id : Str) (s : SessionStore) (rec : SessionRecord)
    → lookup id s ≡ some rec
    → t ≤ rec.expires
    → Session.touch t id ttl s
      ≡ (insert id (record rec { expires = t + ttl }) s, some rec.cookie_issued)
unfolding Session.touch
touch-live t ttl id s rec e le =
    let live : ltb rec.expires t ≡ false = ground arith in rw (e, Session.touch) (rw live refl)

module _ (id : Str) (h : id ≢ []) where
  use-moves :
      (t : ℕ) (a : Authenticator) (rec : SessionRecord)
      → enabled a ≡ true
      → lookup id a.store ≡ some rec
      → t ≤ rec.expires
      → (authenticated t (some id) a).0
        ≡ record a { store = insert id (record rec { expires = t + a.session_ttl }) a.store }
  unfolding authenticated check_session
  use-moves t a rec on e le =
      simp (on, eqb-nil id h, touch-live t a.session_ttl id a.store rec e le)

  use-answer :
      (t : ℕ) (a : Authenticator) (rec : SessionRecord)
      → enabled a ≡ true
      → lookup id a.store ≡ some rec
      → (authenticated t (some id) a).1 ≡ leb t rec.expires
  unfolding authenticated check_session
  use-answer t a rec on e =
      let v : (Session.touch t id a.session_ttl a.store).1
          ≡ (if ltb rec.expires t then none else some rec.cookie_issued) =
        touch-verdict t id a.session_ttl a.store ∙ rw e refl in
      elim (Bool-cases (ltb rec.expires t)) [
        | inl y ↦
            let q : (Session.touch t id a.session_ttl a.store).1 ≡ none = v ∙ rw y refl in
            simp (on, eqb-nil id h, q) (ground arith)
        | inr n ↦
            let q : (Session.touch t id a.session_ttl a.store).1 ≡ some rec.cookie_issued =
              v ∙ rw n refl in
            simp (on, eqb-nil id h, q) (ground arith)
      ]

  pub uses-answer :
      (t prev : ℕ) (ts : List ℕ) (a : Authenticator) (rec : SessionRecord)
      → enabled a ≡ true
      → lookup id a.store ≡ some rec
      → rec.expires ≡ prev + a.session_ttl
      → Timely a.session_ttl prev ts
      → (authenticated t (some id) (uses id ts a)).1 ≡ leb t (last prev ts + a.session_ttl)
  unfolding uses
  uses-answer t prev [] a rec on e d l = use-answer t a rec on e ∙ ap (λ (x : ℕ). leb t x) d
  uses-answer t prev (u ∷ us) a rec on e d l =
      let rec' : SessionRecord = record rec { expires = u + a.session_ttl } in
      ap (λ (x : Authenticator). (authenticated t (some id) (uses id us x)).1)
        (use-moves u a rec on e (omega (arith, d, l.0)))
      ∙ uses-answer t u us (record a { store = insert id rec' a.store }) rec' (unfold enabled in on)
          (rw lookup-insert (rw eqb_refl refl)) refl l.1
