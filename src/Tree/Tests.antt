-- ===== src/Tree/Tests.antt =====
-- The theorems on internal/tree at concrete inputs.
use mathlib.Core.List.{Memᴰ}
use mathlib.Core.List.Memᴰ
use repo_man.Tree.Assembly.{build}
use repo_man.Tree.Keeping.{IsTreeOf, build_returns, build-IsTreeOf}
use repo_man.Tree.Build.Covering.{Apart}
use repo_man.Tree.Build.Primaries.{AreApart}
use repo_man.Git.Inspect.{bare}
use repo_man.Tree.{Summary}
use repo_man.Model.{Repo, Ghost, slug, ghost_slug}
use repo_man.Tree.Build.Ghosts.{place_all-ghosts}
use repo_man.Model.Node.{ghost, Kind, dir, Info, Node, node, nil, cons, info}
use repo_man.Tree.{find, finish_tree, summarize}
use repo_man.Tree.Totals.{finish_tree-summarize, IsBare}
use repo_man.Tree.Build.{Input, Builder, Cell, root_builder, place_all}
use repo_man.Tree.Finding.{Within, trimmed, find-Within}
use repo_man.Base.{
  ◌≡◌, refl, ◌≢◌, true, false, pos, Option, [], ◌∷◌, none, some, Str, codes, Dict, Bool,
}

abbrev plain : Kind → Str → Str → Info
plain kind name rel = record {
  name = name;
  path = rel;
  rel = rel;
  kind = kind;
  repo = none;
  ghost = none;
}

-- A root with an emptied directory of worktrees, and another directory.
abbrev small : Node
small = node (plain dir (codes "r") []) (
    cons (node (plain dir (codes "w") (codes "w")) nil)
      (cons (node (plain dir (codes "a") (codes "a")) nil) nil))

abbrev emptied : Dict Bool
emptied = (codes "w", true) ∷ []

small-IsBare : IsBare small
unfolding IsBare
small-IsBare = ((λ k. refl), ((((λ k. refl), tt)), ((((λ k. refl), tt)), tt)))

finish_tree-summarize_example : (finish_tree emptied small).1 ≡ summarize small
finish_tree-summarize_example = finish_tree-summarize emptied small small-IsBare

find-Within_example :
    (trimmed (codes "/a/") ≡ [] → find small (codes "/a/") ≡ some small)
    × ((m : Node)
        → find small (codes "/a/") ≡ some m
        → trimmed (codes "/a/") ≢ []
        → Within m small × ((info m).rel ≡ trimmed (codes "/a/")))
    × (find small (codes "/a/") ≡ none
        → (m : Node) → Within m small
        → (info m).rel ≢ trimmed (codes "/a/"))
find-Within_example = find-Within small (codes "/a/")

abbrev some_input : Input
some_input = record {
  root = codes "/r";
  owners = record { host = codes "h"; login = codes "jo" } ∷ [];
  repos = [];
  dirs = codes "a/b" ∷ [];
  ghosts = [];
}

abbrev checkout : Repo
checkout = record {
  path = codes "/r/h/o/n";
  rel = codes "h/o/n";
  name = codes "n";
  is_worktree = false;
  main_path = [];
  remote = record { url = codes "u"; host = codes "h"; owner = codes "o"; name = codes "n" };
  status = record {
    branch = [];
    detached = false;
    upstream = [];
    ahead = pos 0;
    behind = pos 0;
    staged = 0;
    unstaged = 0;
    untracked = 0;
    conflicted = 0;
    stashes = 0;
    head = [];
    last_commit = 0;
    subject = [];
    last_fetch = 0;
  };
  error = [];
}

abbrev other : Ghost
other = record {
  host = codes "h";
  owner = codes "o";
  name = codes "m";
  description = [];
  is_private = false;
  fork = false;
  archived = false;
  default_branch = [];
  clone_url = [];
  updated_at = 0;
}

abbrev one_of_each : Input
one_of_each = record {
  root = codes "/r";
  owners = [];
  repos = checkout ∷ [];
  dirs = [];
  ghosts = other ∷ [];
}

abbrev built_of : Option Builder → Builder
built_of none = root_builder []
built_of (some b) = b

unfoldable built : Builder
unfolding place_all
built = built_of (place_all one_of_each)

abbrev other_cell : Cell
other_cell = record {
  info = record {
    name = codes "m";
    path = codes "/r/h/o/m";
    rel = codes "h/o/m";
    kind = ghost;
    repo = none;
    ghost = some other;
  };
  children = [];
}

built_eq : place_all one_of_each ≡ some built
unfolding built
built_eq = refl

other_listed : Memᴰ other_cell built.cells
unfolding built
other_listed = Memᴰ.tail (Memᴰ.tail (Memᴰ.tail (Memᴰ.tail (Memᴰ.head refl))))

place_all-ghosts_example : slug checkout.remote ≢ ghost_slug other
place_all-ghosts_example =
    place_all-ghosts one_of_each built other_cell other checkout built_eq other_listed refl
      (Memᴰ.head refl)

build_returns_example :
    (root : Node) × (s : Summary) × (build some_input ≡ some (root, s)) × (s ≡ summarize root)
build_returns_example = build_returns some_input

abbrev main_checkout : Repo
main_checkout = record {
  path = codes "/r/a";
  rel = codes "a";
  name = codes "a";
  is_worktree = false;
  main_path = [];
  remote = bare;
  status = record {
    branch = [];
    detached = false;
    upstream = [];
    ahead = pos 0;
    behind = pos 0;
    staged = 0;
    unstaged = 0;
    untracked = 0;
    conflicted = 0;
    stashes = 0;
    head = [];
    last_commit = 0;
    subject = [];
    last_fetch = 0;
  };
  error = [];
}

-- A worktree whose primary checkout is not below the root.
abbrev stray : Repo
stray = record main_checkout {
  path = codes "/r/b/w";
  rel = codes "b/w";
  is_worktree = true;
  main_path = codes "/x";
}

abbrev two_checkouts : Input
two_checkouts = record some_input { repos = stray ∷ main_checkout ∷ [] }

two-Apart : Apart AreApart (stray ∷ main_checkout ∷ [])
two-Apart = ((λ y m e. absurd (cc (e))), ((λ y m. absurd (Memᴰ.not-nil m)), tt))

build-IsTreeOf_example : (root : Node) × (s : Summary) × IsTreeOf two_checkouts root s
build-IsTreeOf_example = build-IsTreeOf two_checkouts two-Apart
