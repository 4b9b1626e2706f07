-- ===== src/Scan.antt =====
-- internal/scan/scan.go: the walk over the checkout root. The walk reads each directory and each
-- .git file at most once, so what it reads is a function of the path. maxDepth is given as the
-- levels that are left, and a context as its answers to the checks of ctx.Err, in their order.

pub mod Walked
pub mod Completeness
pub mod Listing
mod Tests
use repo_man.Safepath.{slash, clean, join_path, base_name}
use repo_man.Base.{
  ℕ, zero, suc, Bool, true, false, not, ◌&&◌, List, [], ◌∷◌, ◌++◌, Option, none, some, Str, codes,
  Result, ok, err, ◌>>=◌, eqb, has_prefix, drop_prefix, cut_text, trim_space, sort_by, less_str,
  if◌then◌else◌,
}

pub data EntryKind : Type 0 where
  directory symlink other : EntryKind

-- os.DirEntry
pub record DirEntry : Type 0 where
  pub name : Str
  pub kind : EntryKind

-- os.ReadDir and os.ReadFile; none where they fail.
pub record Files : Type 0 where
  pub read_dir : Str → Option (List DirEntry)
  pub read_file : Str → Option Str

pub record Candidate : Type 0 where
  pub path : Str
  pub rel : Str
  pub name : Str
  pub is_worktree : Bool
  pub main_path : Str

-- The errors that do not end the walk, with the relative path of their directory.
pub data Fault : Type 0 where
  unreadable git_unreadable no_gitdir empty_gitdir : Str → Fault

-- Result, with the number of the checks of the context so far.
pub record Walk : Type 0 where
  pub checks : ℕ
  pub repos : List Candidate
  pub dirs : List Str
  pub errs : List Fault

pub data WalkError : Type 0 where
  cancelled unreadable_root : WalkError

abbrev pub Context : Type 0
Context = ℕ → Bool

abbrev pub Outcome : Type 0
Outcome = Result WalkError Walk

unfoldable pub is_directory : DirEntry → Bool
is_directory e = elim e.kind [ directory ↦ true | symlink ↦ false | other ↦ false ]

-- An entry that is not skipped: no dot-directory, no symlink, and a directory.
unfoldable pub is_walked : DirEntry → Bool
unfolding is_directory has_prefix
is_walked e = not (has_prefix e.name (b'.' ∷ [])) && is_directory e

unfoldable pub child_rel : Str → Str → Str
unfolding eqb
child_rel parent name = if eqb parent [] then name else parent ++ slash ∷ name

-- The first entry named ".git".
unfoldable pub git_entry : List DirEntry → Option DirEntry
unfolding eqb
git_entry [] = none
git_entry (e ∷ es) = if eqb e.name (codes ".git") then some e else git_entry es

abbrev pub gitdir_prefix : Str
gitdir_prefix = codes "gitdir:"

abbrev pub primary : Str → Str → Candidate
primary abs rel = record {
  path = abs;
  rel = rel;
  name = base_name abs;
  is_worktree = false;
  main_path = [];
}

abbrev pub worktree_of : Str → Str → Option (Str × Str) → Candidate
worktree_of abs rel none = primary abs rel
worktree_of abs rel (some (main, rest)) = record (primary abs rel) {
  is_worktree = true;
  main_path = main;
}

-- The pointer as an absolute path.
unfoldable pub gitdir_path : Str → Str → Str
unfolding has_prefix join_path clean
gitdir_path abs gitdir =
    clean (if has_prefix gitdir (slash ∷ []) then gitdir else join_path abs gitdir)

-- classify on the text of a .git file.
unfoldable pub classify_file : Str → Str → Str → Candidate × List Fault
unfolding has_prefix drop_prefix eqb cut_text gitdir_path
classify_file abs rel line =
    if not (has_prefix line gitdir_prefix)
    then (primary abs rel, no_gitdir rel ∷ [])
    else let gitdir = trim_space (drop_prefix line gitdir_prefix) in
      if eqb gitdir []
      then (primary abs rel, empty_gitdir rel ∷ [])
      else (worktree_of abs rel (cut_text (codes "/.git/worktrees/") (gitdir_path abs gitdir)), [])

-- The candidate, and the faults that classify adds.
unfoldable pub classify : Files → Str → Str → DirEntry → Candidate × List Fault
unfolding classify_file is_directory
classify fs abs rel e =
    if is_directory e
    then (primary abs rel, [])
    else elim (fs.read_file (join_path abs (codes ".git"))) [
      | none ↦ (primary abs rel, git_unreadable rel ∷ [])
      | some text ↦ classify_file abs rel (trim_space text)
    ]

abbrev pub add_repo : Candidate × List Fault → Walk → Walk
add_repo (c, faults) w = record w { repos = w.repos ++ c ∷ []; errs = w.errs ++ faults }

-- One check of ctx.Err.
unfoldable pub check : Context → Walk → Outcome
check ctx w = if ctx w.checks then err cancelled else ok (record w { checks = suc w.checks })

module _ (fs : Files) where
  -- processDir, on the .git entry found in a directory; `descend` walks the directory's children.
  abbrev pub process_listed :
      (List DirEntry → Walk → Outcome)
      → Str
      → Str
      → List DirEntry
      → Walk
      → Option DirEntry
      → Outcome
  process_listed descend abs rel es w none = descend es (record w { dirs = w.dirs ++ rel ∷ [] })
  process_listed descend abs rel es w (some e) = ok (add_repo (classify fs abs rel e) w)

  -- processDir, on what os.ReadDir returned.
  abbrev pub process_read :
      (List DirEntry → Walk → Outcome) → Str → Str → Walk → Option (List DirEntry) → Outcome
  process_read descend abs rel w none = ok (record w { errs = w.errs ++ unreadable rel ∷ [] })
  process_read descend abs rel w (some es) = process_listed descend abs rel es w (git_entry es)

abbrev pub sorted : Walk → Walk
sorted w = record w {
  repos = sort_by (λ (c d : Candidate). less_str c.rel d.rel) w.repos;
  dirs = sort_by less_str w.dirs;
}

abbrev pub no_walk : Walk
no_walk = record { checks = 0; repos = []; dirs = []; errs = [] }

module _ (fs : Files) (ctx : Context) where
  -- walkChildren, with processDir for a child.
  unfoldable pub walk_children :
      (Str → Str → Walk → Outcome) → Str → Str → List DirEntry → Walk → Outcome
  unfolding check is_walked child_rel
  walk_children process abs rel [] w = ok w
  walk_children process abs rel (e ∷ es) w =
      check ctx w
      >>= (λ w₁.
          if is_walked e then process (join_path abs e.name) (child_rel rel e.name) w₁ else ok w₁)
      >>= walk_children process abs rel es

  unfoldable pub process_dir : ℕ → Str → Str → Walk → Outcome
  unfolding walk_children check git_entry classify
  process_dir zero abs rel w =
      check ctx w >>= (λ w₁. process_read fs (λ es w₂. ok w₂) abs rel w₁ (fs.read_dir abs))
  process_dir (suc levels) abs rel w = check ctx w >>= (λ w₁.
      process_read fs (walk_children (process_dir levels) abs rel) abs rel w₁ (fs.read_dir abs))

  unfoldable pub walk_root : ℕ → Str → List DirEntry → Walk → Outcome
  unfolding process_dir
  walk_root zero root es w = ok w
  walk_root (suc levels) root es w = walk_children (process_dir levels) root [] es w

  -- What follows the read of the root.
  abbrev pub root_read : ℕ → Str → Walk → Option (List DirEntry) → Outcome
  root_read max_depth root w none = err unreadable_root
  root_read max_depth root w (some es) = walk_root max_depth root es w

  -- Walk, for the maxDepth given.
  unfoldable pub walk : ℕ → Str → Outcome
  unfolding walk_root check
  walk max_depth root =
      check ctx no_walk
      >>= (λ w. root_read max_depth root w (fs.read_dir root))
      >>= (λ w. ok (sorted w))
