-- ===== src/Index/Fetching.antt =====
-- internal/index/index.go: fetchAll, FetchRepo, PullRepo and findByPath.
use repo_man.Index.{Index, scan_now}
use repo_man.Git.Commands.{CommandError, fetch, pull}
use repo_man.Git.System.{Log, System}
use repo_man.Model.{Repo}
use repo_man.Model.Node.{Kind, dir, repo, worktree, ghost, Node, node, Nodes, nil, cons, info}
use repo_man.Tree.{Summary}
use repo_man.Base.{
  ℕ, Bool, true, false, not, ◌&&◌, List, [], ◌∷◌, ◌++◌, Option, none, some, Str, Result, eqb,
  if◌then◌else◌,
}

abbrev pub is_repo : Kind → Bool
is_repo dir = false
is_repo repo = true
is_repo worktree = false
is_repo ghost = false

-- The checkout of a node that fetchAll fetches.
abbrev pub fetched_repo : Kind → Option Repo → List Str
fetched_repo k none = []
fetched_repo k (some r) =
    if is_repo k && (not (eqb r.remote.url []) && eqb r.error []) then r.path ∷ [] else []

-- The walk of fetchAll.
unfoldable mutual
  unfolding eqb

  pub targets : Node → List Str
  targets (node i ns) = fetched_repo i.kind i.repo ++ targets_in ns

  pub targets_in : Nodes → List Str
  targets_in nil = []
  targets_in (cons n ns) = targets n ++ targets_in ns

abbrev pub targets_of : Option (Node × Summary) → List Str
targets_of none = []
targets_of (some (root, s)) = targets root

-- findByPath, with the node found so far.
unfoldable mutual
  unfolding eqb

  pub find_by_path : Str → Node → Option Node → Option Node
  find_by_path path n (some m) = some m
  find_by_path path (node i ns) none =
      if eqb i.path path then some (node i ns) else find_in path ns none

  pub find_in : Str → Nodes → Option Node → Option Node
  find_in path nil found = found
  find_in path (cons n ns) found = find_in path ns (find_by_path path n found)

abbrev pub found_in : Str → Option (Node × Summary) → Option Node
found_in path none = none
found_in path (some (root, s)) = find_by_path path root none

abbrev pub main_of : Str → Option Repo → Str
main_of path none = path
main_of path (some r) = if r.is_worktree && not (eqb r.main_path []) then r.main_path else path

abbrev pub redirect : Str → Option Node → Str
redirect path none = path
redirect path (some n) = main_of path (info n).repo

-- The checkout that FetchRepo fetches.
unfoldable pub fetch_target : Index → Str → Str
unfolding find_by_path info
fetch_target ix path = redirect path (found_in path ix.snap.tree)

module _ (sys : System) where
  -- fetchOne; a timeout is an end of git with an error.
  unfoldable pub fetch_one : Log → Str → Result CommandError Str × Log
  unfolding fetch
  fetch_one log path = fetch sys log path

  -- The goroutines of fetchAll; `stopped` holds for a path whose goroutine finds the context done.
  unfoldable pub fetch_each : (Str → Bool) → List Str → Log → Log
  unfolding fetch_one
  fetch_each stopped [] log = log
  fetch_each stopped (p ∷ ps) log =
      fetch_each stopped ps (if stopped p then log else (fetch_one log p).1)

  abbrev pub fetch_round : (Str → Bool) → ℕ → Log → Index → List Str → Index × Log
  fetch_round stopped now log ix [] = (ix, log)
  fetch_round stopped now log ix (p ∷ ps) =
      (record ix { fetched_at = now }, fetch_each stopped (p ∷ ps) log)

  unfoldable pub fetch_all : (Str → Bool) → ℕ → Log → Index → Index × Log
  unfolding fetch_each targets
  fetch_all stopped now log ix = fetch_round stopped now log ix (targets_of ix.snap.tree)

  unfoldable pub fetch_repo : Log → Str → Index → Result CommandError Str × (Index × Log)
  unfolding fetch_one fetch_target scan_now
  fetch_repo log path ix =
      let (out, log') = fetch_one log (fetch_target ix path) in (out, (scan_now ix, log'))

  unfoldable pub pull_repo : Log → Str → Index → Result CommandError Str × (Index × Log)
  unfolding pull scan_now
  pull_repo log path ix = let (out, log') = pull sys log path in (out, (scan_now ix, log'))
