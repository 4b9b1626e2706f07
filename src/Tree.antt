-- ===== src/Tree.antt =====
-- internal/tree/tree.go: what Build does with the assembled tree (pruneEmptyWorktreeDirs, the sort,
-- summarize), and Find.
pub mod Totals
pub mod Build
pub mod Assembly
pub mod Reaching
pub mod Keeping
pub mod Finding
mod Tests
use repo_man.Model
use repo_man.Model.{Repo, Status, exceeds_zero}
use repo_man.Model.Node.{
  Kind, dir, repo, worktree, ghost, Info, Node, node, Nodes, nil, cons, info, sort_node,
}
use repo_man.Safepath.{slash}
use repo_man.Base.{
  ℕ, suc, ◌+◌, Bool, true, false, not, ◌&&◌, [], Option, none, some, Str, Dict, eqb, lookup, trim,
  if◌then◌else◌, ◌==◌,
}

-- The rel paths of the directories that hold a worktree, as worktreeParents.
abbrev pub holds : Option Bool → Bool
holds none = false
holds (some b) = b

abbrev pub is_empty : Nodes → Bool
is_empty nil = true
is_empty (cons n ns) = false

abbrev pub is_dir : Kind → Bool
is_dir dir = true
is_dir repo = false
is_dir worktree = false
is_dir ghost = false

-- The test of the loop of pruneEmptyWorktreeDirs, on a pruned child.
unfoldable pub is_dropped : Dict Bool → Node → Bool
unfolding lookup
is_dropped parents (node i ns) = is_dir i.kind && is_empty ns && holds (lookup i.rel parents)

unfoldable pub keep_child : Dict Bool → Node → Nodes → Nodes
unfolding is_dropped
keep_child parents n ns = if is_dropped parents n then ns else cons n ns

unfoldable mutual
  unfolding keep_child

  pub prune : Dict Bool → Node → Node
  prune parents (node i ns) = node i (prune_children parents ns)

  pub prune_children : Dict Bool → Nodes → Nodes
  prune_children parents nil = nil
  prune_children parents (cons n ns) =
      keep_child parents (prune parents n) (prune_children parents ns)

pub record Summary : Type 0 where
  pub repos : ℕ
  pub worktrees : ℕ
  pub ghosts : ℕ
  pub dirty : ℕ
  pub ahead : ℕ
  pub behind : ℕ
  pub errors : ℕ

abbrev pub add_kind : Kind → Summary → Summary
add_kind dir s = s
add_kind repo s = record s { repos = suc s.repos }
add_kind worktree s = record s { worktrees = suc s.worktrees }
add_kind ghost s = record s { ghosts = suc s.ghosts }

abbrev pub one_if : Bool → ℕ
one_if true = 1
one_if false = 0

unfoldable pub add_status : Status → Summary → Summary
unfolding Model.dirty exceeds_zero
add_status st s = record s {
  dirty = s.dirty + one_if (Model.dirty st);
  ahead = s.ahead + one_if (exceeds_zero st.ahead);
  behind = s.behind + one_if (exceeds_zero st.behind);
}

abbrev pub add_repo : Option Repo → Summary → Summary
add_repo none s = s
add_repo (some r) s =
    if eqb r.error [] then add_status r.status s else record s { errors = suc s.errors }

-- One step of the walk of summarize.
unfoldable pub add_info : Info → Summary → Summary
unfolding add_status eqb
add_info i s = add_repo i.repo (add_kind i.kind s)

unfoldable mutual
  unfolding add_info

  pub tally : Node → Summary → Summary
  tally (node i ns) s = tally_children ns (add_info i s)

  pub tally_children : Nodes → Summary → Summary
  tally_children nil s = s
  tally_children (cons n ns) s = tally_children ns (tally n s)

abbrev pub no_summary : Summary
no_summary = record {
  repos = 0;
  worktrees = 0;
  ghosts = 0;
  dirty = 0;
  ahead = 0;
  behind = 0;
  errors = 0;
}

unfoldable pub summarize : Node → Summary
unfolding tally
summarize n = tally n no_summary

-- The end of Build.
unfoldable pub finish_tree : Dict Bool → Node → Node × Summary
unfolding prune sort_node summarize
finish_tree parents root = let n = sort_node (prune parents root) in (n, summarize n)

-- The walk of Find, in preorder, with the node found so far.
unfoldable mutual
  unfolding eqb

  pub search_node : Str → Node → Option Node → Option Node
  search_node rel n (some m) = some m
  search_node rel (node i ns) none =
      if eqb i.rel rel then some (node i ns) else search_children rel ns none

  pub search_children : Str → Nodes → Option Node → Option Node
  search_children rel nil found = found
  search_children rel (cons n ns) found = search_children rel ns (search_node rel n found)

unfoldable pub find : Node → Str → Option Node
unfolding search_node trim eqb
find root rel =
    let r = trim (λ c. c == slash) rel in if eqb r [] then some root else search_node r root none
