-- ===== src/Web/Server/Serving.antt =====
-- internal/web/server.go: Handler, with the public routes and the gate before the others.
use repo_man.Auth.Login.{
  Authenticator, Cookie, Gate, denied, passed, LoginRequest, Response, authenticated, login, logout,
  require,
}
use repo_man.Auth.Login.Body.{read_login_request, value_of}
use repo_man.Web.Server.{
  Request, auth_answer, asset, no_content, Reply, Server, World, see_other, rendered, secure,
}
use repo_man.Web.Server.Handlers.{
  Handled, handle_index, handle_tree_fragment, handle_api_tree, handle_refresh, handle_fetch_repo,
  handle_pull_repo, handle_init, handle_clone, handle_jobs, handle_job,
}
use repo_man.Web.Server.Routes.{
  Public, login_page, static, gated, Private, page, fragment, api_tree, refresh, fetch, pull, init,
  clone, jobs, job, route, is_known, public_routes, private_routes,
}
use repo_man.Web.Server.Routes
use repo_man.Base.{
  ℕ, Bool, true, false, [], ◌∷◌, Option, none, some, Str, codes, eqb, drop_prefix, if◌then◌else◌,
}

abbrev login_message : Str → Str
login_message code =
    if eqb code (codes "invalid")
    then codes "Incorrect passphrase."
    else if eqb code (codes "locked")
    then codes "Too many failed attempts. Try again later."
    else []

-- handleLoginPage, on the answer of Authenticated; it holds where authentication is off.
unfoldable pub show_login : World → Request → Bool → Reply
unfolding rendered value_of eqb
show_login w r true = see_other (codes "/")
show_login w r false = rendered (
    w.login_template (codes "repo-man · sign in") (login_message (value_of (codes "error") r.query))
      (value_of (codes "next") r.query))

unfoldable pub handle_login_page : World → Request → Server → Handled
unfolding show_login authenticated
handle_login_page w r s =
    let (auth, known) = authenticated w.now r.cookie s.auth in
    (show_login w r known, record s { auth = auth })

-- What the authenticator wrote.
abbrev pub answered : Response → Reply
answered a = record { status = a.status; headers = []; content = auth_answer a; cookie = a.cookie }

unfoldable pub handle_login : World → Request → Server → Handled
unfolding login read_login_request
handle_login w r s =
    let request : LoginRequest = record {
      headers = r.headers;
      body = read_login_request w.login_json w.parse_form r.headers.content_type r.query r.body;
      xff = r.xff;
      remote_addr = r.remote_addr;
    } in
    let (auth, answer) = login w.next_parser w.now w.fresh request s.auth in
    (answered answer, record s { auth = auth })

unfoldable pub handle_logout : Request → Server → Handled
unfolding logout
handle_logout r s =
    let (auth, answer) = logout r.headers r.cookie s.auth in
    (answered answer, record s { auth = auth })

-- staticHandler, with the status and the text of the file server.
unfoldable pub handle_static : World → Request → Reply
handle_static w r =
    let (status, text) = w.file_server r.path in
    record {
      status = status;
      headers = (codes "Cache-Control", codes "public, max-age=300") ∷ [];
      content = asset text;
      cookie = none;
    }

abbrev bare_reply : ℕ → Reply
bare_reply status = record { status = status; headers = []; content = no_content; cookie = none }

unfoldable pub handle_private : World → Request → Server → Private → Handled
unfolding drop_prefix handle_index handle_tree_fragment handle_api_tree handle_refresh
    handle_fetch_repo handle_pull_repo handle_init handle_clone handle_jobs handle_job
handle_private w r s page = (handle_index w s, s)
handle_private w r s fragment = (handle_tree_fragment w s, s)
handle_private w r s api_tree = (handle_api_tree s, s)
handle_private w r s refresh = handle_refresh r s
handle_private w r s fetch = handle_fetch_repo w r s
handle_private w r s pull = handle_pull_repo w r s
handle_private w r s init = handle_init w r s
handle_private w r s clone = handle_clone w r s
handle_private w r s jobs = (handle_jobs s, s)
handle_private w r s job = (handle_job (drop_prefix r.path (codes "/api/jobs/")) s, s)

-- The mux behind the gate; it answers 405 where it knows the path under another method.
unfoldable pub private_mux : World → Request → Server → Option Private → Handled
unfolding handle_private is_known private_routes
private_mux w r s none = (bare_reply (if is_known private_routes r.path then 405 else 404), s)
private_mux w r s (some p) = handle_private w r s p

abbrev with_cookie : Option Cookie → Reply → Reply
with_cookie none reply = reply
with_cookie (some c) reply = record reply { cookie = some c }

-- Require, with the mux behind it.
unfoldable pub gate : World → Request → Server → Authenticator × Gate → Handled
unfolding private_mux route private_routes
gate w r s (auth, denied answer) = (answered answer, record s { auth = auth })
gate w r s (auth, passed cookie) =
    let (reply, s') =
      private_mux w r (record s { auth = auth }) (route private_routes r.method r.path) in
    (with_cookie cookie reply, s')

unfoldable pub handle_public : World → Request → Server → Option Public → Handled
unfolding gate require handle_login_page handle_login handle_logout handle_static
handle_public w r s none = (bare_reply 404, s)
handle_public w r s (some login_page) = handle_login_page w r s
handle_public w r s (some Routes.login) = handle_login w r s
handle_public w r s (some Routes.logout) = handle_logout r s
handle_public w r s (some static) = (handle_static w r, s)
handle_public w r s (some gated) =
    gate w r s (require w.next_parser w.now w.then_now r.headers r.request_uri r.cookie s.auth)

-- The handler that Handler returns.
unfoldable pub serve : World → Request → Server → Handled
unfolding handle_public route public_routes secure
serve w r s =
    let (reply, s') = handle_public w r s (route public_routes r.method r.path) in
    (secure reply, s')
