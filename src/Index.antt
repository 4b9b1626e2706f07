-- ===== src/Index.antt =====
-- internal/index/index.go: the state of the index, the requests for work, and the passes over the
-- file system and the providers that publish a snapshot. What they write to the log is left out.
pub mod Scanning
pub mod Fetching
pub mod Placing
pub mod Rounds
pub mod Loop
pub mod Listings
pub mod Warnings
pub mod Requests
pub mod Published
mod Tests
use repo_man.Config.{Config}
use repo_man.Git.Commands.{CommandError, git_failed}
use repo_man.Git.Inspect.{TimeParser, bare, inspect}
use repo_man.Git.Remote.{UrlParser}
use repo_man.Git.System.{System}
use repo_man.Model.{Remote, Owner, Status, Repo, Ghost, owner_rel}
use repo_man.Model.Node.{Node}
use repo_man.Scan.{Candidate, Context, Fault, Files, Walk, WalkError, walk}
use repo_man.Tree.{Summary}
use repo_man.Tree.Assembly.{build}
use repo_man.Tree.Build.{Input}
use repo_man.Base.{
  ℕ, suc, ◌-◌, Bool, true, false, not, List, [], ◌∷◌, ◌++◌, map, Option, none, some, Str, Dict,
  codes, Result, ok, err, ℤ, pos, negsuc, eqb, lookup, insert, delete, length, keep, if◌then◌else◌,
  ◌==◌,
}

-- Snapshot; the zero time is 0. A tree that Build has not returned is none.
pub record Snapshot : Type 0 where
  pub tree : Option (Node × Summary)
  pub owners : List Owner
  pub scanned_at : ℕ
  pub fetched_at : ℕ
  pub listed_at : ℕ
  pub warnings : List Str

-- Index. A channel of depth one is whether it holds a signal.
pub record Index : Type 0 where
  pub cfg : Config
  pub snap : Snapshot
  pub pending_scan : Bool
  pub pending_fetch : Bool
  pub pending_ghosts : Bool
  pub ghosts : Dict (List Ghost)
  pub ghost_warn : Dict Str
  pub listed_at : ℕ
  pub fetched_at : ℕ

-- Lister: a listing, or the text of the error. A nil Lister is none.
abbrev pub Lister : Type 0
Lister = Str → Str → Result Str (List Ghost)

abbrev pub first_input : Config → Input
first_input cfg = record {
  root = cfg.root;
  owners = cfg.owners;
  repos = [];
  dirs = [];
  ghosts = [];
}

-- New
unfoldable pub new_index : Config → Index
unfolding build
new_index cfg = record {
  cfg = cfg;
  snap = record {
    tree = build (first_input cfg);
    owners = cfg.owners;
    scanned_at = 0;
    fetched_at = 0;
    listed_at = 0;
    warnings = [];
  };
  pending_scan = false;
  pending_fetch = false;
  pending_ghosts = false;
  ghosts = [];
  ghost_warn = [];
  listed_at = 0;
  fetched_at = 0;
}

-- ScanNow, FetchNow and RefreshGhostsNow: a signal into a channel that holds one is dropped.
unfoldable pub scan_now : Index → Index
scan_now ix = record ix { pending_scan = true }

unfoldable pub fetch_now : Index → Index
fetch_now ix = record ix { pending_fetch = true }

unfoldable pub refresh_ghosts_now : Index → Index
refresh_ghosts_now ix = record ix { pending_ghosts = true }

abbrev pub list_failed : Str → Str → Str
list_failed rel e = codes "could not list " ++ (rel ++ (codes ": " ++ e))

-- One turn of the loop of refreshGhosts, on what the lister returned.
unfoldable pub take_listing : Str → Result Str (List Ghost) → Index → Index
unfolding insert delete
take_listing rel (ok list) ix = record ix {
  ghosts = insert rel list ix.ghosts;
  ghost_warn = delete rel ix.ghost_warn;
}
take_listing rel (err e) ix = record ix {
  ghost_warn = insert rel (list_failed rel e) ix.ghost_warn;
}

unfoldable pub list_owners : Lister → List Owner → Index → Index
unfolding take_listing owner_rel
list_owners lister [] ix = ix
list_owners lister (o ∷ os) ix =
    list_owners lister os (take_listing (owner_rel o) (lister o.host o.login) ix)

abbrev pub list_configured : Lister → ℕ → List Owner → Index → Index
list_configured lister now [] ix = ix
list_configured lister now (o ∷ os) ix = record (list_owners lister (o ∷ os) ix) { listed_at = now }

unfoldable pub refresh_ghosts : Option Lister → ℕ → Index → Index
unfolding list_owners
refresh_ghosts none now ix = ix
refresh_ghosts (some lister) now ix = list_configured lister now ix.cfg.owners ix

abbrev pub or_empty : {A : Type 0} → Option (List A) → List A
or_empty none = []
or_empty (some xs) = xs

abbrev pub add_found : Option Str → List Str → List Str
add_found none ws = ws
add_found (some w) ws = w ∷ ws

-- The loop of ghostSnapshot: the ghosts and the warnings.
unfoldable pub ghosts_of : List Owner → Dict (List Ghost) → List Ghost
unfolding lookup owner_rel
ghosts_of [] m = []
ghosts_of (o ∷ os) m = or_empty (lookup (owner_rel o) m) ++ ghosts_of os m

unfoldable pub warnings_of : List Owner → Dict Str → List Str
unfolding lookup owner_rel
warnings_of [] m = []
warnings_of (o ∷ os) m = add_found (lookup (owner_rel o) m) (warnings_of os m)
