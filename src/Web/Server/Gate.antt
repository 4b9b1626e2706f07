-- ===== src/Web/Server/Gate.antt =====
-- server.go: what a request without a session can do.
use repo_man.Auth.Login.{
  Authenticator, Response, Gate, denied, passed, Headers, authenticated, check_session, deny,
  enabled, require,
}
use repo_man.Auth.Next.{UrlParser}
use repo_man.Web.Server.{Request, Server, World, secure}
use repo_man.Web.Server.Handlers.{Handled}
use repo_man.Web.Server.Routes.{Public, login_page, static, gated, route, public_routes}
use repo_man.Web.Server.Routes
use repo_man.Web.Server.Serving.{
  answered, gate, handle_public, serve, handle_login_page, handle_login, handle_logout,
}
use repo_man.Base.{
  ℕ, Bool, true, false, ◌≡◌, refl, ap, sym, subst, Option, none, some, Str, Bool-cases, inl, inr,
}

require-denied :
    (parse : UrlParser) (now then_now : ℕ) (h : Headers) (uri : Str) (cookie : Option Str)
    (a : Authenticator)
    → (authenticated now cookie a).1 ≡ false
    → (require parse now then_now h uri cookie a).1 ≡ denied (deny parse h uri)
unfolding require authenticated
require-denied parse now then_now h uri cookie a e = elim (Bool-cases (enabled a)) [
  | inr off ↦ let q : true ≡ false = rw off at e in absurd (cc (q))
  | inl on ↦ on_session (check_session now cookie a).1 refl (rw on at e) on
]
  where
    on_session :
        (o : Option (Str × ℕ))
        → (check_session now cookie a).1 ≡ o
        → (elim o as (λ x. Authenticator × Bool) [
          | none ↦ ((check_session now cookie a).0, false)
          | some s ↦ ((check_session now cookie a).0, true)
        ]).1
          ≡ false
        → enabled a ≡ true
        → (require parse now then_now h uri cookie a).1 ≡ denied (deny parse h uri)
    on_session none q k on = rw (require, on, q) refl
    on_session (some s) q k on = absurd (cc (k))

-- Only the authenticator's part of the state may differ.
abbrev pub OnlyAuth : Server → Server → Type 0
OnlyAuth s s' = s' ≡ record s { auth = s'.auth }

gate-denied :
    (w : World) (r : Request) (s : Server) (a : Authenticator) (g : Gate) {answer : Response}
    → g ≡ denied answer
    → gate w r s (a, g) ≡ (answered answer, record s { auth = a })
unfolding gate
gate-denied w r s a (denied answer) e = cc
gate-denied w r s a (passed c) e = absurd (cc (e))

handle_public-OnlyAuth :
    (w : World) (r : Request) (s : Server) (p : Option Public)
    → (authenticated w.now r.cookie s.auth).1 ≡ false
    → OnlyAuth s (handle_public w r s p).1
unfolding handle_public handle_login_page handle_login handle_logout
handle_public-OnlyAuth w r s none e = refl
handle_public-OnlyAuth w r s (some login_page) e = refl
handle_public-OnlyAuth w r s (some Routes.login) e = refl
handle_public-OnlyAuth w r s (some Routes.logout) e = refl
handle_public-OnlyAuth w r s (some static) e = refl
handle_public-OnlyAuth w r s (some gated) e =
    subst (λ (h : Handled). OnlyAuth s h.1)
      (sym (
        gate-denied w r s _ _ (
          require-denied w.next_parser w.now w.then_now r.headers r.request_uri r.cookie s.auth e)))
      refl

gated_reply :
    (w : World) (r : Request) (s : Server)
    → (authenticated w.now r.cookie s.auth).1 ≡ false
    → secure (handle_public w r s (some gated)).0
      ≡ secure (answered (deny w.next_parser r.headers r.request_uri))
unfolding handle_public
gated_reply w r s e =
    ap (λ (h : Handled). secure h.0)
      (gate-denied w r s _ _
        (require-denied w.next_parser w.now w.then_now r.headers r.request_uri r.cookie s.auth e))

-- A request without a valid session changes nothing but the authenticator's own state, whatever
-- its route is: the index is not signalled, the actions and the jobs are not reached and nothing
-- is asked of the system. Where its route is behind the gate, it is answered by the refusal of
-- Require.
pub serve-OnlyAuth :
    (w : World) (r : Request) (s : Server)
    → (authenticated w.now r.cookie s.auth).1 ≡ false
    → OnlyAuth s (serve w r s).1
      × (route public_routes r.method r.path ≡ some gated
          → (serve w r s).0 ≡ secure (answered (deny w.next_parser r.headers r.request_uri)))
unfolding serve
serve-OnlyAuth w r s e = (handle_public-OnlyAuth w r s _ e, λ g. rw g (gated_reply w r s e))
