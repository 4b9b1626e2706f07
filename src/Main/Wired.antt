-- ===== src/Main/Wired.antt =====
-- main.go: the program that run starts with.
use repo_man.Auth.Login.{Authenticator, authenticated, check_session, enabled, new_authenticator}
use repo_man.Auth.Session.{touch}
use repo_man.Config.{Config}
use repo_man.Config.Loaded.{IsLoaded, load-IsLoaded}
use repo_man.Config.Loading.{LoadError, Process, Settings, default_settings, load}
use repo_man.Main.{Gh, Program, start_up, wire, wired}
use repo_man.Actions.{new_service}
use repo_man.Index.{new_index}
use repo_man.Web.Server.{Request, World}
use repo_man.Web.Server.Gate.{OnlyAuth, serve-OnlyAuth}
use repo_man.Web.Server.Serving.{serve}
use repo_man.Base.{
  ℕ, ◌≡◌, refl, subst, ◌≢◌, true, false, List, [], Option, none, some, Str, Result, ok, err, eqb,
  eqb-nil, lookup, Bool-cases, inl, inr,
}

-- Without sessions nobody is authenticated.
nobody :
    (now : ℕ) (c : Option Str) (a : Authenticator)
    → enabled a ≡ true
    → a.store ≡ []
    → (authenticated now c a).1 ≡ false
unfolding authenticated check_session touch lookup
nobody now none a e s = rw e refl
nobody now (some id) a e s = elim (Bool-cases (eqb id [])) [
  | inl y ↦ rw (e, y) refl
  | inr n ↦ rw (e, n, s) refl
]

-- A program that is wired for its configuration.
pub record IsWired (p : Process) (s : Settings) (prog : Program) : Type 0 where
  pub loaded : IsLoaded p s prog.server.cfg
  pub indexed : prog.server.ix.cfg ≡ prog.server.cfg
  pub rooted : prog.server.act.root ≡ prog.server.cfg.root
  pub gated :
      prog.server.cfg.passphrase ≢ []
      → (w : World) (r : Request) → OnlyAuth prog.server (serve w r prog.server).1

wire-IsWired :
    (p : Process) (gh : Gh) (s : Settings) (cfg : Config)
    → IsLoaded p s cfg
    → IsWired p s (wire gh cfg)
unfolding wire new_index new_service new_authenticator enabled
wire-IsWired p gh s cfg l = record {
  loaded = l;
  indexed = refl;
  rooted = refl;
  gated = λ n w r.
      (serve-OnlyAuth w r (wire gh cfg).server (
        nobody w.now r.cookie (wire gh cfg).server.auth (rw (eqb-nil cfg.passphrase n) refl)
          refl)).0;
}

-- Where run starts, it starts with a configuration that Load returned and that the index, the
-- actions and the server share, the actions for its root; and where a passphrase is set, no first
-- request, whatever it is, changes more than the authenticator's own state.
pub start_up-IsWired :
    (p : Process) (gh : Gh) (args : List Str) (prog : Program)
    → start_up p gh args ≡ ok prog
    → (s : Settings) × (p.parse_flags (default_settings p) args ≡ some (s, [])) × IsWired p s prog
unfolding start_up
start_up-IsWired p gh args prog h = on_load (load p args) refl h
  where
    on_load :
        (o : Result LoadError Config)
        → load p args ≡ o
        → wired gh o ≡ ok prog
        → (s : Settings) × (p.parse_flags (default_settings p) args ≡ some (s, []))
          × IsWired p s prog
    on_load (err e) q k = absurd (cc (k))
    on_load (ok cfg) q k =
        let (s, parsed, l) = load-IsLoaded p args cfg q in
        let same : wire gh cfg ≡ prog = cc in
        (s, parsed, subst (IsWired p s) same (wire-IsWired p gh s cfg l))
