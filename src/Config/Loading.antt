-- ===== src/Config/Loading.antt =====
-- internal/config/config.go: Load, on the environment, the flags and the file system. The flag
-- package and the parsers of strconv and time are arguments.
use repo_man.Config.{Config, ConfigError, OwnerError, parse_owners, validate}
use repo_man.Model.{Owner}
use repo_man.Safepath.{FileSystem, join_path}
use repo_man.Base.{
  ℕ, ◌*◌, Bool, false, List, [], ◌∷◌, Option, none, some, Str, codes, ℤ, pos, Result, ok, err,
  ◌>>=◌, eqb, has_prefix, drop_prefix, if◌then◌else◌,
}

-- The flags, with a value each.
pub record Settings : Type 0 where
  pub root : Str
  pub addr : Str
  pub owners : Str
  pub secure_cookie : Bool
  pub trust_proxy_ip : Bool
  pub scan_interval : ℤ
  pub fetch_interval : ℤ
  pub github_interval : ℤ
  pub fetch_concurrency : ℤ
  pub fetch_timeout : ℤ
  pub max_depth : ℤ

-- What Load reads of the process and of the file system, and the code that is given. The flags are
-- parsed over their defaults, into their values and the arguments that are left.
pub record Process : Type 0 where
  pub lookup_env : Str → Option Str
  pub parse_bool : Str → Option Bool
  pub atoi : Str → Option ℤ
  pub parse_duration : Str → Option ℤ
  pub parse_flags : Settings → List Str → Option (Settings × List Str)
  pub user_home : Option Str
  pub absolute : Str → Option Str
  pub files : FileSystem

pub data LoadError : Type 0 where
  bad_flags empty_root unresolved_root root_not_directory : LoadError
  unexpected : Str → LoadError
  bad_owners : OwnerError → LoadError
  invalid : ConfigError → LoadError

abbrev second : ℕ
second = 1000000000

abbrev non_empty : Option Str → Option Str
non_empty none = none
non_empty (some v) = if eqb v [] then none else some v

abbrev or_default {ℓ} : {A : Type ℓ} → A → Option A → A
or_default default none = default
or_default default (some v) = v

abbrev parsed {ℓ} : {A : Type ℓ} → (Str → Option A) → Option Str → Option A
parsed parse none = none
parsed parse (some v) = parse v

-- os.Getenv
abbrev getenv : Option Str → Str
getenv none = []
getenv (some v) = v

module _ (p : Process) where
  unfoldable pub env_str : Str → Str → Str
  unfolding eqb
  env_str key default = or_default default (non_empty (p.lookup_env key))

  unfoldable pub env_bool : Str → Bool → Bool
  unfolding eqb
  env_bool key default = or_default default (parsed p.parse_bool (non_empty (p.lookup_env key)))

  unfoldable pub env_int : Str → ℤ → ℤ
  unfolding eqb
  env_int key default = or_default default (parsed p.atoi (non_empty (p.lookup_env key)))

  unfoldable pub env_dur : Str → ℤ → ℤ
  unfolding eqb
  env_dur key default = or_default default (parsed p.parse_duration (non_empty (p.lookup_env key)))

  unfoldable pub home_dir : Str
  home_dir = or_default (codes ".") p.user_home

  unfoldable pub default_root : Str
  unfolding home_dir join_path
  default_root = join_path home_dir (codes "git")

  unfoldable pub expand_home : Str → Str
  unfolding home_dir join_path eqb has_prefix drop_prefix
  expand_home s =
      if eqb s (codes "~")
      then home_dir
      else if has_prefix s (codes "~/")
      then join_path home_dir (drop_prefix s (codes "~/"))
      else s

  -- The flags' defaults.
  unfoldable pub default_settings : Settings
  unfolding env_str env_bool env_int env_dur default_root
  default_settings = record {
    root = env_str (codes "REPOMAN_ROOT") default_root;
    addr = env_str (codes "REPOMAN_ADDR") (codes "127.0.0.1:8464");
    owners = env_str (codes "REPOMAN_OWNERS") [];
    secure_cookie = env_bool (codes "REPOMAN_SECURE_COOKIE") false;
    trust_proxy_ip = env_bool (codes "REPOMAN_TRUST_PROXY_IP") false;
    scan_interval = env_dur (codes "REPOMAN_SCAN_INTERVAL") (pos (60 * second));
    fetch_interval = env_dur (codes "REPOMAN_FETCH_INTERVAL") (pos (15 * (60 * second)));
    github_interval = env_dur (codes "REPOMAN_GITHUB_INTERVAL") (pos (30 * (60 * second)));
    fetch_concurrency = env_int (codes "REPOMAN_FETCH_CONCURRENCY") (pos 4);
    fetch_timeout = env_dur (codes "REPOMAN_FETCH_TIMEOUT") (pos (60 * second));
    max_depth = env_int (codes "REPOMAN_MAX_DEPTH") (pos 8);
  }

  -- resolveRoot from the resolved path on.
  abbrev pub root_stated : Str → Option Bool → Result LoadError Str
  root_stated resolved none = err unresolved_root
  root_stated resolved (some is_dir) = if is_dir then ok resolved else err root_not_directory

  abbrev pub root_linked : Option Str → Result LoadError Str
  root_linked none = err unresolved_root
  root_linked (some resolved) = root_stated resolved (p.files.stat_is_dir resolved)

  abbrev pub root_absolute : Option Str → Result LoadError Str
  root_absolute none = err unresolved_root
  root_absolute (some abs) = root_linked (p.files.eval_symlinks abs)

  unfoldable pub resolve_root : Str → Result LoadError Str
  unfolding expand_home eqb
  resolve_root s = if eqb s [] then err empty_root else root_absolute (p.absolute (expand_home s))

  abbrev pub owners_found : Result OwnerError (List Owner) → Result LoadError (List Owner)
  owners_found (ok os) = ok os
  owners_found (err e) = err (bad_owners e)

  abbrev pub validated : Config → Option ConfigError → Result LoadError Config
  validated c none = ok c
  validated c (some e) = err (invalid e)

  unfoldable pub configured : Settings → Str → List Owner → Config
  configured s root owners = record {
    root = root;
    addr = s.addr;
    owners = owners;
    passphrase = getenv (p.lookup_env (codes "REPOMAN_PASSPHRASE"));
    secure_cookie = s.secure_cookie;
    trust_proxy_ip = s.trust_proxy_ip;
    scan_interval = s.scan_interval;
    fetch_interval = s.fetch_interval;
    github_interval = s.github_interval;
    fetch_concurrency = s.fetch_concurrency;
    fetch_timeout = s.fetch_timeout;
    max_depth = s.max_depth;
  }

  -- The end of Load, on the flags.
  unfoldable pub load_settings : Settings → Result LoadError Config
  unfolding resolve_root parse_owners validate configured
  load_settings s = resolve_root s.root >>= (λ root.
      owners_found (parse_owners s.owners)
      >>= (λ owners. let c = configured s root owners in validated c (validate c)))

  abbrev pub flags_parsed : Option (Settings × List Str) → Result LoadError Config
  flags_parsed none = err bad_flags
  flags_parsed (some (s, [])) = load_settings s
  flags_parsed (some (s, a ∷ rest)) = err (unexpected a)

  unfoldable pub load : List Str → Result LoadError Config
  unfolding load_settings default_settings
  load args = flags_parsed (p.parse_flags default_settings args)
