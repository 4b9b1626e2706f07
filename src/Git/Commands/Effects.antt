-- ===== src/Git/Commands/Effects.antt =====
-- git.go: which requests Clone and Init make of the system, and the environment of every process.
use repo_man.Git.System.{
  stat, lstat, read_dir, make_dirs, remove_all, read_time, git, Log, Found, missing, unreadable,
  file, directory, System,
}
use repo_man.Git.Commands.{
  forced, is_passed, assignment, hardened_env, run, init_found, init, branch_or_main, clone_args,
  clone_run, clone, is_missing,
}
use repo_man.Safepath.{parent_dir}
use repo_man.Base.{
  ◌≡◌, refl, ap, Bool, true, false, not, ◌&&◌, ◌||◌, List, [], ◌∷◌, ◌++◌, Option, none, some, Str,
  eqb, eqb_iff, any, cut, has_prefix, keep, map, arith, if◌then◌else◌, Bool-cases, All, Lacks,
  has_char, cut-append, inl, inr,
}

-- The log holds a removal of the path, or a run of git.
unfoldable pub removes : Str → Log → Bool
removes q [] = false
removes q (remove_all p ∷ log) = eqb p q || removes q log
removes q (stat p ∷ log) = removes q log
removes q (lstat p ∷ log) = removes q log
removes q (read_dir p ∷ log) = removes q log
removes q (make_dirs p ∷ log) = removes q log
removes q (read_time p ∷ log) = removes q log
removes q (git d args ∷ log) = removes q log

unfoldable pub runs_git : Log → Bool
runs_git [] = false
runs_git (git d args ∷ log) = true
runs_git (stat p ∷ log) = runs_git log
runs_git (lstat p ∷ log) = runs_git log
runs_git (read_dir p ∷ log) = runs_git log
runs_git (make_dirs p ∷ log) = runs_git log
runs_git (read_time p ∷ log) = runs_git log
runs_git (remove_all p ∷ log) = runs_git log

abbrev pub is_some : Option Str → Bool
is_some none = false
is_some (some x) = true

module _ (sys : System) (log : Log) (url path : Str) where
  -- The requests before the run of git clone.
  abbrev pub before_clone : Log
  before_clone = lstat path ∷ make_dirs (parent_dir path) ∷ stat path ∷ log

  -- Clone reaches git: the URL is no option, nothing was found at the path, and its parent was made.
  unfoldable pub reaches_git : Bool
  reaches_git =
      not (has_prefix url (b'-' ∷ []))
      && is_missing (sys.stat log path)
      && sys.make_dirs (stat path ∷ log) (parent_dir path)

  -- What stands at the path after Clone was made by its failed run of git.
  unfoldable pub is_wreckage : Bool
  is_wreckage =
      reaches_git
      && is_missing (sys.lstat (make_dirs (parent_dir path) ∷ stat path ∷ log) path)
      && is_some (sys.git before_clone [] (clone_args url path)).failure

  -- Clone asks for the removal of a path exactly where it is the destination, Clone reached git, git
  -- failed, and nothing was found there right before git ran. Clone reaches git exactly where the URL
  -- begins with no dash, nothing was found at the destination, and its parent was made.
  pub removes-clone :
      (q : Str)
      → (removes q (clone sys log url path).1 ≡ ((eqb path q && is_wreckage) || removes q log))
        × (runs_git (clone sys log url path).1 ≡ (reaches_git || runs_git log))
  unfolding clone clone_run removes runs_git is_wreckage reaches_git
  removes-clone q = ground (arith)

module _ (sys : System) (log : Log) (path branch : Str) where
  abbrev no_entries : Option (List Str) → Bool
  no_entries none = false
  no_entries (some []) = true
  no_entries (some (e ∷ es)) = false

  -- The destination is made, or is an empty directory.
  abbrev pub is_free : Found → Bool
  is_free missing = sys.make_dirs (stat path ∷ log) path
  is_free unreadable = false
  is_free file = false
  is_free directory = no_entries (sys.read_dir (stat path ∷ log) path)

  init_found-runs :
      (f : Found)
      → (runs_git (init_found sys (stat path ∷ log) path (branch_or_main branch) f).1
          ≡ (is_free f || runs_git log))
        × ((q : Str)
            → removes q (init_found sys (stat path ∷ log) path (branch_or_main branch) f).1
              ≡ removes q log)
  unfolding init_found run runs_git removes
  init_found-runs missing = (ground arith, λ q. ground arith)
  init_found-runs unreadable = (refl, λ q. refl)
  init_found-runs file = (refl, λ q. refl)
  init_found-runs directory = (ground arith, λ q. ground arith)

  -- Init runs git if and only if the branch is no option and the destination did not exist and was
  -- made, or is an empty directory; it removes nothing.
  pub runs_git-init :
      (runs_git (init sys log path branch).1 ≡ (
        (not (has_prefix (branch_or_main branch) (b'-' ∷ [])) && is_free (sys.stat log path))
        || runs_git log))
      × ((q : Str) → removes q (init sys log path branch).1 ≡ removes q log)
  unfolding init runs_git removes
  runs_git-init = elim (Bool-cases (has_prefix (branch_or_main branch) (b'-' ∷ []))) [
    | inl dash ↦ rw dash (refl, λ q. refl)
    | inr fine ↦ rw fine (init_found-runs (sys.stat log path))
  ]

-- The value that a process sees: exec keeps the last of several assignments.
unfoldable pub getenv : Str → List Str → Option Str
unfolding cut eqb
getenv k [] = none
getenv k (kv ∷ env) = elim (getenv k env) [
  | some v ↦ some v
  | none ↦ elim (cut b'=' kv) [ none ↦ none | some (j, v) ↦ if eqb j k then some v else none ]
]

abbrev pub or_else : Option Str → Option Str → Option Str
or_else none o = o
or_else (some v) o = some v

getenv-append :
    (k : Str) (xs ys : List Str) → getenv k (xs ++ ys) ≡ or_else (getenv k ys) (getenv k xs)
unfolding getenv
getenv-append k [] ys = ground arith
getenv-append k (x ∷ xs) ys = ground (arith, getenv-append k xs ys)

unfoldable is_forced : Str → Bool
is_forced k = any (λ (f : Str × Str). eqb f.0 k) forced

is_passed-none : (kv : Str) → cut b'=' kv ≡ none → is_passed kv ≡ true
unfolding is_passed
is_passed-none kv e = rw (e, is_passed) refl

is_passed-some : (kv j v : Str) → cut b'=' kv ≡ some (j, v) → is_passed kv ≡ not (is_forced j)
unfolding is_passed
is_passed-some kv j v e = rw (e, is_passed) (unfold is_forced in refl)

getenv-none :
    (k kv : Str) (env : List Str) → cut b'=' kv ≡ none → getenv k (kv ∷ env) ≡ getenv k env
unfolding getenv
getenv-none k kv env e = ground arith

getenv-some :
    (k kv j v : Str) (env : List Str)
    → cut b'=' kv ≡ some (j, v)
    → getenv k (kv ∷ env) ≡ or_else (getenv k env) (if eqb j k then some v else none)
unfolding getenv
getenv-some k kv j v env e = ground arith

is_forced-eqb : (j k : Str) → eqb j k ≡ true → is_forced j ≡ is_forced k
is_forced-eqb j k e = ap is_forced ((eqb_iff j k).0 e)

-- Passing on leaves out the variables that are forced, and no other.
getenv-keep :
    (k : Str) (base : List Str)
    → getenv k (keep is_passed base) ≡ (if is_forced k then none else getenv k base)
getenv-keep k [] = unfold getenv keep in ground arith
getenv-keep k (kv ∷ base) = kept (cut b'=' kv) refl (getenv-keep k base)
  where
    kept :
        (parts : Option (Str × Str))
        → cut b'=' kv ≡ parts
        → getenv k (keep is_passed base) ≡ (if is_forced k then none else getenv k base)
        → getenv k (keep is_passed (kv ∷ base))
          ≡ (if is_forced k then none else getenv k (kv ∷ base))
    kept none e ih =
        unfold keep in
        rw (is_passed-none kv e)
          (rw (getenv-none k kv (keep is_passed base) e, getenv-none k kv base e) ih)
    kept (some (j, v)) e ih =
        unfold keep in
        rw (is_passed-some kv j v e) (
          rw (getenv-some k kv j v base e) (
            let f = is_forced-eqb j k in
            elim (Bool-cases (is_forced j)) [
              | inl y ↦ rw y (ground (arith, f, ih))
              | inr n ↦
                  rw n (rw (getenv-some k kv j v (keep is_passed base) e) (ground (arith, f, ih)))
            ]))

getenv-assignments :
    (k : Str) (fs : List (Str × Str))
    → All (λ f. Lacks b'=' f.0) fs
    → getenv k (map assignment fs) ≡ none
    → any (λ (f : Str × Str). eqb f.0 k) fs ≡ false
unfolding any
getenv-assignments k [] l h = refl
getenv-assignments k ((j, v) ∷ fs) l h =
    let c : cut b'=' (assignment (j, v)) ≡ some (j, v) = cut-append j v b'=' l.0 in
    let g = getenv-some k (assignment (j, v)) j v (map assignment fs) c in
    ground (arith, getenv-assignments k fs l.1, g, h)

forced-Lacks : All (λ (f : Str × Str). Lacks b'=' f.0) forced
unfolding has_char
forced-Lacks = (refl, (refl, (refl, (refl, (refl, tt)))))

-- A process of git sees the forced value of every variable that is forced, and the parent's value of
-- every other one.
pub getenv-hardened_env :
    (k : Str) (base : List Str)
    → getenv k (hardened_env base) ≡ or_else (getenv k (map assignment forced)) (getenv k base)
unfolding hardened_env
getenv-hardened_env k base =
    rw (getenv-append k (keep is_passed base) (map assignment forced), getenv-keep k base)
      (masked (getenv k (map assignment forced)) refl)
  where
    masked :
        (o : Option Str)
        → getenv k (map assignment forced) ≡ o
        → or_else o (if is_forced k then none else getenv k base) ≡ or_else o (getenv k base)
    masked (some v) e = refl
    masked none e = unfold is_forced in rw (getenv-assignments k forced forced-Lacks e) refl
