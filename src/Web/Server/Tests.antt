-- ===== src/Web/Server/Tests.antt =====
-- The theorems on internal/web/server.go at concrete inputs.
use repo_man.Actions.{new_service}
use repo_man.Auth.Login.{Authenticator, authenticated, check_session, deny, enabled}
use repo_man.Auth.Login.Body.{ended}
use repo_man.Config.{Config}
use repo_man.Config.Samples.{defaults}
use repo_man.Git.System.{System, missing}
use repo_man.Index.{new_index}
use repo_man.Index.Placing.{IsPlace}
use repo_man.Jobs.Registry.{new_registry}
use repo_man.Web.Server.{Request, Server, World, secure}
use repo_man.Web.Server.Confined.{Outcome, sync-Outcome}
use repo_man.Git.Commands.Runs.{fetch_args, pull_args}
use repo_man.Web.Server.Gate.{OnlyAuth, serve-OnlyAuth}
use repo_man.Web.Server.Handlers.{handle_fetch_repo, handle_pull_repo}
use repo_man.Web.Server.Routes.{gated, route, public_routes}
use repo_man.Web.Server.Serving.{answered, serve}
use repo_man.Base.{◌≡◌, refl, true, false, [], ◌∷◌, none, some, codes, eqb}

abbrev config : Config
config = record defaults { passphrase = codes "pw" }

abbrev still : System
still = record {
  stat = λ log p. missing;
  lstat = λ log p. missing;
  read_dir = λ log p. none;
  make_dirs = λ log p. true;
  modified = λ log p. none;
  git = λ log dir args. record { stdout = []; stderr = []; failure = none };
}

abbrev world : World
world = record {
  now = 7;
  then_now = 7;
  fresh = none;
  job_id = codes "i";
  files = record { eval_symlinks = λ p. some p; stat_is_dir = λ p. some true };
  system = still;
  next_parser = λ s. none;
  remote_parser = λ s. none;
  template = λ name page. none;
  login_template = λ title error next. none;
  login_json = λ n s. ended;
  parse_form = λ n s. some ((codes "path", codes "a") ∷ []);
  from_form = λ names m. some m;
  from_json = λ names n s. ended;
  file_server = λ p. (404, []);
}

abbrev auth : Authenticator
auth = record {
  passphrase = codes "pw";
  secure_cookie = false;
  trust_proxy_ip = false;
  session_ttl = 60;
  store = [];
  limiter = [];
}

abbrev server : Server
server = record {
  cfg = config;
  ix = new_index config;
  act = new_service (codes "/r") (some (new_registry 5 5));
  auth = auth;
  log = [];
}

-- A POST of a form, without a cookie.
abbrev pull_request : Request
pull_request = record {
  method = codes "POST";
  path = codes "/api/pull";
  request_uri = codes "/api/pull";
  query = [];
  headers = record {
    accept = [];
    content_type = codes "application/x-www-form-urlencoded";
    sec_fetch_mode = [];
  };
  cookie = none;
  xff = [];
  remote_addr = codes "10.0.0.7:99";
  body = [];
}

no_session : (authenticated 7 none auth).1 ≡ false
unfolding authenticated check_session enabled eqb
no_session = refl

serve-OnlyAuth_example :
    OnlyAuth server (serve world pull_request server).1
    × (route public_routes (codes "POST") (codes "/api/pull") ≡ some gated
        → (serve world pull_request server).0
          ≡ secure (answered (deny world.next_parser pull_request.headers (codes "/api/pull"))))
serve-OnlyAuth_example = serve-OnlyAuth world pull_request server no_session

sync-Outcome_example :
    Outcome world pull_request server fetch_args
      (IsPlace server.ix)
      (handle_fetch_repo world pull_request server)
    × Outcome world pull_request server pull_args
        (λ abs place. place ≡ abs)
        (handle_pull_repo world pull_request server)
sync-Outcome_example = sync-Outcome world pull_request server
