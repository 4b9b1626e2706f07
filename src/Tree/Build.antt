-- ===== src/Tree/Build.antt =====
-- internal/tree/tree.go: the placement of the nodes in Build. The nodes are cells of a store, and a
-- pointer to a node is the place of its cell; a cell is stored when its node is linked. `dir` runs
-- on fuel, one unit for each call.
pub mod Ancestors
pub mod Placing
pub mod Cells
pub mod Ghosts
pub mod Store
pub mod Sound
pub mod Growing
pub mod Naming
pub mod Covering
pub mod Primaries
pub mod Worktrees
pub mod Checkouts
use repo_man.Model.{Repo, Ghost, Owner, slug, owner_rel, ghost_slug}
use repo_man.Tree.{holds}
use repo_man.Model.Node.{Kind, dir, repo, worktree, ghost, Info}
use repo_man.Safepath.{slash, dot, parent_dir, base_name, join_elements}
use repo_man.Base.{
  ℕ, zero, suc, ◌-◌, Bool, true, false, not, ◌||◌, List, [], ◌∷◌, ◌++◌, Option, none, some, Str,
  Dict, eqb, insert, lookup, length, trim, trim_suffix, if◌then◌else◌, ◌==◌,
}

pub record Cell : Type 0 where
  pub info : Info
  pub children : List ℕ

pub record Builder : Type 0 where
  pub root : Str
  pub cells : List Cell
  pub nodes : Dict ℕ
  pub worktree_parents : Dict Bool

-- The cell at a place, changed.
unfoldable pub change : ℕ → (Cell → Cell) → List Cell → List Cell
change n f [] = []
change zero f (c ∷ cs) = f c ∷ cs
change (suc n) f (c ∷ cs) = c ∷ change n f cs

abbrev pub add_child : ℕ → Cell → Cell
add_child id c = record c { children = c.children ++ id ∷ [] }

-- A new node, stored as the last child of another one.
unfoldable pub link : ℕ → Info → Builder → Builder
unfolding change
link parent i b =
    let id = length b.cells in
    record b {
      cells = change parent (add_child id) b.cells ++ record { info = i; children = [] } ∷ [];
    }

-- b.nodes[rel] = the node that was stored last.
unfoldable pub register : Str → Builder → Builder
unfolding insert
register rel b = record b { nodes = insert rel (length b.cells - 1) b.nodes }

unfoldable pub trim_slashes : Str → Str
unfolding trim
trim_slashes rel = trim (λ c. c == slash) rel

unfoldable pub new_info : Kind → Str → Builder → Info
unfolding base_name join_elements
new_info kind rel b = record {
  name = base_name rel;
  path = join_elements (b.root ∷ rel ∷ []);
  rel = rel;
  kind = kind;
  repo = none;
  ghost = none;
}

-- b.nodes[""], which Build stores first.
abbrev pub root_place : Option ℕ → ℕ
root_place none = 0
root_place (some id) = id

-- attach, for the parent that dir returned.
unfoldable pub attach_to : Str → Info → Option (ℕ × Builder) → Option (ℕ × Builder)
unfolding link register
attach_to rel i none = none
attach_to rel i (some (parent, b)) = some (length b.cells, register rel (link parent i b))

-- dir, on the node found at the path.
abbrev pub dir_found : Str → Info → Builder → Option (ℕ × Builder) → Option ℕ → Option (ℕ × Builder)
dir_found rel i b parent (some id) = some (id, b)
dir_found rel i b parent none = attach_to rel i parent

unfoldable pub dir_node : ℕ → Str → Builder → Option (ℕ × Builder)
unfolding lookup eqb trim_slashes attach_to new_info parent_dir
dir_node zero rel b = none
dir_node (suc fuel) rel b =
    let r = trim_slashes rel in
    let parent = dir_node fuel (parent_dir r) b in
    if eqb r [] || eqb r dot
    then some (root_place (lookup [] b.nodes), b)
    else dir_found r (new_info dir r b) b parent (lookup r b.nodes)

-- dir with fuel for every path that path.Dir leads to.
unfoldable pub dir_at : Str → Builder → Option (ℕ × Builder)
unfolding dir_node
dir_at rel b = dir_node (suc (suc (length rel))) rel b

unfoldable pub attach : Str → Info → Builder → Option (ℕ × Builder)
unfolding attach_to dir_at parent_dir
attach rel i b = attach_to rel i (dir_at (parent_dir rel) b)

abbrev pub with_kind : Kind → Cell → Cell
with_kind kind c = record c { info = record c.info { kind = kind } }

abbrev pub with_repo : Repo → Cell → Cell
with_repo r c = record c { info = record c.info { repo = some r } }

abbrev pub with_ghost : Ghost → Cell → Cell
with_ghost g c = record c { info = record c.info { ghost = some g } }

abbrev pub place_found : Str → Kind → Builder → Option ℕ → Option (ℕ × Builder)
place_found rel kind b (some id) =
    some (id, record b { cells = change id (with_kind kind) b.cells })
place_found rel kind b none = attach rel (new_info kind rel b) b

unfoldable pub place : Str → Kind → Builder → Option (ℕ × Builder)
unfolding attach new_info change lookup trim_slashes
place rel kind b = let r = trim_slashes rel in place_found r kind b (lookup r b.nodes)

-- A loop of Build.
abbrev pub each : {A S : Type 0} → (A → S → Option S) → List A → Option S → Option S
each f [] s = s
each f (x ∷ xs) none = none
each f (x ∷ xs) (some s) = each f xs (f x s)

abbrev pub after : Option (ℕ × Builder) → Option Builder
after none = none
after (some (id, b)) = some b

unfoldable pub add_dir : Str → Builder → Option Builder
unfolding dir_at
add_dir rel b = after (dir_at rel b)

-- The builder, and byPath of Build.
abbrev pub Placed : Type 0
Placed = Builder × Dict ℕ

abbrev pub repo_placed : Repo → Dict ℕ → Option (ℕ × Builder) → Option Placed
repo_placed r paths none = none
repo_placed r paths (some (id, b)) =
    some (record b { cells = change id (with_repo r) b.cells }, insert r.path id paths)

-- One turn of the loop over the primary checkouts.
unfoldable pub place_repo : Repo → Placed → Option Placed
unfolding place insert
place_repo r (b, paths) =
    if r.is_worktree then some (b, paths) else repo_placed r paths (place r.rel repo b)

abbrev pub worktree_info : Repo → Info
worktree_info r = record {
  name = base_name r.rel;
  path = r.path;
  rel = r.rel;
  kind = worktree;
  repo = some r;
  ghost = none;
}

abbrev pub hang : Repo → Builder → Option ℕ → Option Builder
hang r b (some parent) = some (register r.rel (link parent (worktree_info r) b))
hang r b none = after (attach r.rel (worktree_info r) b)

-- The directory that a worktree lives in is recorded.
unfoldable pub noted : Repo → Builder → Builder
unfolding insert trim_slashes parent_dir
noted r b = record b {
  worktree_parents = insert (parent_dir (trim_slashes r.rel)) true b.worktree_parents;
}

-- One turn of the loop over the worktrees.
unfoldable pub place_worktree : Dict ℕ → Repo → Builder → Option Builder
unfolding attach lookup noted base_name
place_worktree paths r b =
    if not r.is_worktree then some b else hang r (noted r b) (lookup r.main_path paths)

-- The slugs of the checkouts' remotes, as the map cloned.
unfoldable pub cloned_slugs : List Repo → Dict Bool → Dict Bool
unfolding insert slug eqb
cloned_slugs [] m = m
cloned_slugs (r ∷ rs) m =
    cloned_slugs rs (if eqb (slug r.remote) [] then m else insert (slug r.remote) true m)

unfoldable pub ghost_path : Ghost → Str
unfolding join_elements
ghost_path g = join_elements (g.host ∷ g.owner ∷ g.name ∷ [])

abbrev pub ghost_placed : Ghost → Option (ℕ × Builder) → Option Builder
ghost_placed g none = none
ghost_placed g (some (id, b)) = some (record b { cells = change id (with_ghost g) b.cells })

abbrev pub unless_taken : Ghost → Builder → Option ℕ → Option Builder
unless_taken g b (some id) = some b
unless_taken g b none = ghost_placed g (place (ghost_path g) ghost b)

-- One turn of the loop over the ghosts.
unfoldable pub place_ghost : Dict Bool → Ghost → Builder → Option Builder
unfolding place ghost_path lookup ghost_slug
place_ghost cloned g b =
    if holds (lookup (ghost_slug g) cloned)
    then some b
    else unless_taken g b (lookup (ghost_path g) b.nodes)

-- Input
pub record Input : Type 0 where
  pub root : Str
  pub owners : List Owner
  pub repos : List Repo
  pub dirs : List Str
  pub ghosts : List Ghost

-- The root node, and the builder with it alone.
unfoldable pub root_builder : Str → Builder
unfolding base_name trim_suffix
root_builder root = record {
  root = root;
  cells =
      record {
        info = record {
          name = base_name (trim_suffix root (slash ∷ []));
          path = root;
          rel = [];
          kind = dir;
          repo = none;
          ghost = none;
        };
        children = [];
      }
      ∷ [];
  nodes = ([], 0) ∷ [];
  worktree_parents = [];
}

abbrev pub with_paths : Option Builder → Option Placed
with_paths none = none
with_paths (some b) = some (b, [])

abbrev pub hang_all : Input → Option Placed → Option Builder
hang_all input none = none
hang_all input (some (b, paths)) =
    each (place_ghost (cloned_slugs input.repos [])) input.ghosts
      (each (place_worktree paths) input.repos (some b))

-- Build up to the pruning.
unfoldable pub place_all : Input → Option Builder
unfolding add_dir owner_rel place_repo place_worktree place_ghost cloned_slugs root_builder
place_all input = hang_all input (
    each place_repo input.repos (
      with_paths (
        each (λ o. add_dir (owner_rel o)) input.owners
          (each add_dir input.dirs (some (root_builder input.root))))))
