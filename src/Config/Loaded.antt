-- ===== src/Config/Loaded.antt =====
-- config.go: what Load returns.
use repo_man.Config.{Config, ConfigError, OwnerError, parse_owners, validate}
use repo_man.Config.Checks.{IsValid, validate-none}
use repo_man.Config.Loading.{
  Settings, Process, LoadError, resolve_root, root_stated, root_linked, root_absolute, owners_found,
  validated, configured, load_settings, flags_parsed, load, expand_home, default_settings,
}
use repo_man.Config.Owners.{IsOwner, IsUnique, rels, parse_owners-IsOwner}
use repo_man.Model.{Owner}
use repo_man.Base.{
  Bool, true, false, ◌≡◌, refl, ap, subst, ◌∙◌, List, [], ◌∷◌, Option, none, some, Str, Result, ok,
  err, ◌>>=◌, All, eqb, Bool-cases, Option-cases, inl, inr, ◌⊎◌, codes,
}

-- The way from the text of a flag to a root: made absolute, led through the symlinks, and found to
-- be a directory.
pub record IsRoot (p : Process) (text root : Str) : Type 0 where
  pub abs : Str
  pub made_absolute : p.absolute (expand_home p text) ≡ some abs
  pub linked : p.files.eval_symlinks abs ≡ some root
  pub directory : p.files.stat_is_dir root ≡ some true

-- The settings that are taken over from the flags as they stand.
pub record IsTaken (s : Settings) (c : Config) : Type 0 where
  pub addr : c.addr ≡ s.addr
  pub secure_cookie : c.secure_cookie ≡ s.secure_cookie
  pub trust_proxy_ip : c.trust_proxy_ip ≡ s.trust_proxy_ip
  pub scan_interval : c.scan_interval ≡ s.scan_interval
  pub fetch_interval : c.fetch_interval ≡ s.fetch_interval
  pub github_interval : c.github_interval ≡ s.github_interval
  pub fetch_concurrency : c.fetch_concurrency ≡ s.fetch_concurrency
  pub fetch_timeout : c.fetch_timeout ≡ s.fetch_timeout
  pub max_depth : c.max_depth ≡ s.max_depth

-- The passphrase is the variable's value, and empty where the variable is not set.
abbrev pub IsPassphrase : Process → Str → Type 0
IsPassphrase p v =
    (p.lookup_env (codes "REPOMAN_PASSPHRASE") ≡ some v)
    ⊎ ((p.lookup_env (codes "REPOMAN_PASSPHRASE") ≡ none) × (v ≡ []))

-- What Load returns, for the values of the flags.
pub record IsLoaded (p : Process) (s : Settings) (c : Config) : Type 0 where
  pub rooted : IsRoot p s.root c.root
  pub named : parse_owners s.owners ≡ ok c.owners
  pub owners : All IsOwner c.owners × IsUnique (rels c.owners)
  pub valid : IsValid c
  pub passphrase : IsPassphrase p c.passphrase
  pub taken : IsTaken s c

module _ (p : Process) (text root : Str) where
  stated :
      (abs found : Str) (o : Option Bool)
      → p.absolute (expand_home p text) ≡ some abs
      → p.files.eval_symlinks abs ≡ some found
      → p.files.stat_is_dir found ≡ o
      → root_stated p found o ≡ ok root
      → IsRoot p text root
  stated abs found none a l d h = absurd (cc (h))
  stated abs found (some false) a l d h = absurd (cc (h))
  stated abs found (some true) a l d h =
      let same : found ≡ root = cc in
      record {
        abs = abs;
        made_absolute = a;
        linked = l ∙ ap some same;
        directory = subst (λ r. p.files.stat_is_dir r ≡ some true) same d;
      }

  linked :
      (abs : Str) (o : Option Str)
      → p.absolute (expand_home p text) ≡ some abs
      → p.files.eval_symlinks abs ≡ o
      → root_linked p o ≡ ok root
      → IsRoot p text root
  linked abs none a l h = absurd (cc (h))
  linked abs (some found) a l h = stated abs found (p.files.stat_is_dir found) a l refl h

  made_absolute :
      (o : Option Str)
      → p.absolute (expand_home p text) ≡ o
      → root_absolute p o ≡ ok root
      → IsRoot p text root
  made_absolute none a h = absurd (cc (h))
  made_absolute (some abs) a h = linked abs (p.files.eval_symlinks abs) a refl h

  resolve_root-IsRoot : resolve_root p text ≡ ok root → IsRoot p text root
  unfolding resolve_root
  resolve_root-IsRoot h = elim (Bool-cases (eqb text [])) [
    | inl y ↦
        let q : ◌≡◌ {A = Result LoadError Str} (err LoadError.empty_root) (ok root) = rw y at h in
        absurd (cc (q))
    | inr n ↦ made_absolute (p.absolute (expand_home p text)) refl (rw n at h)
  ]

env_passphrase :
    (p : Process) (s : Settings) (root : Str) (os : List Owner)
    → IsPassphrase p (configured p s root os).passphrase
unfolding configured
env_passphrase p s root os = elim (Option-cases (p.lookup_env (codes "REPOMAN_PASSPHRASE"))) [
  | inl e ↦ rw e (inr (refl, refl))
  | inr (v, e) ↦ rw e (inl refl)
]

configured-IsTaken :
    (p : Process) (s : Settings) (root : Str) (os : List Owner) → IsTaken s (configured p s root os)
unfolding configured
configured-IsTaken p s root os = record {
  addr = refl;
  secure_cookie = refl;
  trust_proxy_ip = refl;
  scan_interval = refl;
  fetch_interval = refl;
  github_interval = refl;
  fetch_concurrency = refl;
  fetch_timeout = refl;
  max_depth = refl;
}

module _ (p : Process) (s : Settings) (c : Config) where
  checked :
      (root : Str) (os : List Owner) (o : Option ConfigError)
      → IsRoot p s.root root
      → parse_owners s.owners ≡ ok os
      → validate (configured p s root os) ≡ o
      → validated p (configured p s root os) o ≡ ok c
      → IsLoaded p s c
  unfolding configured
  checked root os none r q v h =
      let same : configured p s root os ≡ c = cc in
      subst (IsLoaded p s) same (record {
        rooted = r;
        named = q;
        owners = parse_owners-IsOwner s.owners os q;
        valid = (validate-none (configured p s root os)).0 v;
        passphrase = env_passphrase p s root os;
        taken = configured-IsTaken p s root os;
      })
  checked root os (some e) r q v h = absurd (cc (h))

  with_owners :
      (root : Str) (o : Result OwnerError (List Owner))
      → IsRoot p s.root root
      → parse_owners s.owners ≡ o
      → (owners_found p o
          >>= (λ os. validated p (configured p s root os) (validate (configured p s root os))))
        ≡ ok c
      → IsLoaded p s c
  with_owners root (err e) r q h = absurd (cc (h))
  with_owners root (ok os) r q h = checked root os _ r q refl h

  with_root :
      (o : Result LoadError Str)
      → resolve_root p s.root ≡ o
      → (o >>= (λ root.
          owners_found p (parse_owners s.owners)
          >>= (λ os. validated p (configured p s root os) (validate (configured p s root os)))))
        ≡ ok c
      → IsLoaded p s c
  with_root (err e) q h = absurd (cc (h))
  with_root (ok root) q h =
      with_owners root (parse_owners s.owners) (resolve_root-IsRoot p s.root root q) refl h

  load_settings-IsLoaded : load_settings p s ≡ ok c → IsLoaded p s c
  unfolding load_settings
  load_settings-IsLoaded h = with_root (resolve_root p s.root) refl h

-- Load returns a configuration only where the flags parsed and left no argument; its root is then an
-- existing directory with its symlinks resolved, its owners are those of the list, each with a host
-- and one name and none twice, every setting is in its range, the passphrase is the environment's
-- REPOMAN_PASSPHRASE, or empty where that is not set, and every other setting is its flag's.
pub load-IsLoaded :
    (p : Process) (args : List Str) (c : Config)
    → load p args ≡ ok c
    → (s : Settings) × (p.parse_flags (default_settings p) args ≡ some (s, [])) × IsLoaded p s c
unfolding load
load-IsLoaded p args c h = flags (p.parse_flags (default_settings p) args) refl h
  where
    flags :
        (o : Option (Settings × List Str))
        → p.parse_flags (default_settings p) args ≡ o
        → flags_parsed p o ≡ ok c
        → (s : Settings) × (p.parse_flags (default_settings p) args ≡ some (s, [])) × IsLoaded p s c
    flags none q k = absurd (cc (k))
    flags (some (s, [])) q k = (s, q, load_settings-IsLoaded p s c k)
    flags (some (s, a ∷ rest)) q k = absurd (cc (k))
