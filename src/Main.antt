-- ===== src/Main.antt =====
-- cmd/repoman/main.go: run, up to the start of the loops and of the HTTP server: what it makes of
-- the configuration. The signals, the listening socket and the shutdown are not modelled.
pub mod Wired
mod Tests
use repo_man.Actions.{new_service}
use repo_man.Auth.Login.{new_authenticator}
use repo_man.Config.{Config}
use repo_man.Config.Loading.{LoadError, Process, load}
use repo_man.Github.{Decoder, ListError}
use repo_man.Github.Client.{Exec, check_gh, gh_lister, new_client}
use repo_man.Index.{Lister, new_index}
use repo_man.Jobs.Registry.{new_registry}
use repo_man.Model.{Owner}
use repo_man.Web.Server.{Server}
use repo_man.Base.{
  ℕ, List, [], ◌∷◌, Option, none, some, Str, codes, Result, ok, err, eqb, if◌then◌else◌,
}

-- logLevel
pub data Level : Type 0 where
  debug warn error info : Level

unfoldable pub log_level : Str → Level
unfolding eqb
log_level s =
    if eqb s (codes "debug")
    then debug
    else if eqb s (codes "warn")
    then warn
    else if eqb s (codes "error")
    then error
    else info

-- What run reads of gh: its processes, the environment, the verb %q, the texts of the errors of a
-- listing, and the decoder.
pub record Gh : Type 0 where
  pub exec : Exec
  pub environ : List Str
  pub quote : Str → Str
  pub text : ListError → Str
  pub decode : Decoder

pub record Program : Type 0 where
  pub server : Server
  pub lister : Option Lister

abbrev pub if_ready : Gh → Option Str → Option Lister
if_ready gh (some e) = none
if_ready gh none = some (gh_lister gh.exec gh.environ gh.quote gh.text gh.decode (new_client []))

-- The lister: none without owners, or where gh is not ready.
unfoldable pub choose_lister : Gh → List Owner → Option Lister
unfolding check_gh new_client gh_lister
choose_lister gh [] = none
choose_lister gh (o ∷ os) = if_ready gh (check_gh gh.exec gh.environ gh.quote (new_client []))

unfoldable pub wire : Gh → Config → Program
unfolding choose_lister new_index new_service new_registry new_authenticator
wire gh cfg = record {
  server = record {
    cfg = cfg;
    ix = new_index cfg;
    act = new_service cfg.root (some (new_registry 0 0));
    auth = new_authenticator cfg.passphrase cfg.secure_cookie cfg.trust_proxy_ip 0;
    log = [];
  };
  lister = choose_lister gh cfg.owners;
}

abbrev pub wired : Gh → Result LoadError Config → Result LoadError Program
wired gh (err e) = err e
wired gh (ok cfg) = ok (wire gh cfg)

unfoldable pub start_up : Process → Gh → List Str → Result LoadError Program
unfolding load wire
start_up p gh args = wired gh (load p args)
