-- ===== src/Tree/Build/Cells.antt =====
-- tree.go: a property of the ghosts of the nodes, kept by every step of Build.
use repo_man.Tree.{holds}
use repo_man.Model.{Repo, Ghost, Owner, owner_rel, ghost_slug}
use repo_man.Model.Node.{Kind, Info, dir, repo, ghost}
use repo_man.Safepath.{parent_dir, dot}
use repo_man.Tree.Build.{
  Cell, Builder, Placed, Input, change, add_child, link, register, trim_slashes, new_info,
  root_place, attach_to, dir_found, dir_node, dir_at, attach, with_kind, with_repo, with_ghost,
  place, place_found, each, after, add_dir, repo_placed, place_repo, hang, worktree_info, noted,
  place_worktree, cloned_slugs, ghost_path, ghost_placed, unless_taken, place_ghost, root_builder,
  with_paths, hang_all, place_all,
}
use repo_man.Base.{
  ℕ, zero, suc, ◌≡◌, refl, Bool, true, false, not, ◌||◌, List, [], ◌∷◌, Option, none, some, Str,
  Dict, eqb, lookup, length, All, All-append, if◌then◌else◌,
}

-- P of what an option holds.
abbrev pub Holds : {S : Type 0} → (S → Type 0) → Option S → Type 0
Holds P none = Unit
Holds P (some s) = P s

pub if-Holds :
    {S : Type 0} (P : S → Type 0) (c : Bool) (x y : Option S)
    → Holds P x
    → (c ≡ false → Holds P y)
    → Holds P (if c then x else y)
if-Holds P true x y h k = h
if-Holds P false x y h k = k refl

pub each-Holds :
    {A S : Type 0} (P : S → Type 0) (f : A → S → Option S) (xs : List A) (o : Option S)
    → ((x : A) (s : S) → P s → Holds P (f x s))
    → Holds P o
    → Holds P (each f xs o)
each-Holds P f [] o h k = k
each-Holds P f (x ∷ xs) none h k = tt
each-Holds P f (x ∷ xs) (some s) h k = each-Holds P f xs (f x s) h (h x s k)

-- A property of the ghosts of the cells, which holds of no ghost.
module _ (Q : Option Ghost → Type 0) (q : Q none) where
  abbrev pub AllCells : Builder → Type 0
  AllCells b = All (λ (c : Cell). Q c.info.ghost) b.cells

  change-All :
      (n : ℕ) (f : Cell → Cell) (cs : List Cell)
      → ((c : Cell) → Q c.info.ghost → Q (f c).info.ghost)
      → All (λ (c : Cell). Q c.info.ghost) cs
      → All (λ (c : Cell). Q c.info.ghost) (change n f cs)
  unfolding change
  change-All n f [] h a = tt
  change-All zero f (c ∷ cs) h a = (h c a.0, a.1)
  change-All (suc n) f (c ∷ cs) h a = (a.0, change-All n f cs h a.1)

  link-AllCells :
      (parent : ℕ) (i : Info) (b : Builder) → Q i.ghost → AllCells b → AllCells (link parent i b)
  unfolding link
  link-AllCells parent i b g a =
      All-append (λ (c : Cell). Q c.info.ghost) (change parent (add_child (length b.cells)) b.cells)
        _ (change-All parent (add_child (length b.cells)) b.cells (λ c h. h) a) (g, tt)

  abbrev Stored : ℕ × Builder → Type 0
  Stored (id, b) = AllCells b

  attach_to-Holds :
      (rel : Str) (i : Info) (o : Option (ℕ × Builder))
      → Q i.ghost
      → Holds Stored o
      → Holds Stored (attach_to rel i o)
  unfolding attach_to register
  attach_to-Holds rel i none g h = tt
  attach_to-Holds rel i (some (p, b)) g h = link-AllCells p i b g h

  dir_found-Holds :
      (rel : Str) (i : Info) (b : Builder) (parent : Option (ℕ × Builder)) (o : Option ℕ)
      → Q i.ghost
      → AllCells b
      → Holds Stored parent
      → Holds Stored (dir_found rel i b parent o)
  dir_found-Holds rel i b parent (some id) g a h = a
  dir_found-Holds rel i b parent none g a h = attach_to-Holds rel i parent g h

  dir_node-Holds :
      (fuel : ℕ) (rel : Str) (b : Builder) → AllCells b → Holds Stored (dir_node fuel rel b)
  unfolding dir_node
  dir_node-Holds zero rel b a = tt
  dir_node-Holds (suc fuel) rel b a =
      let r = trim_slashes rel in
      if-Holds Stored (eqb r [] || eqb r dot) (some (root_place (lookup [] b.nodes), b)) _ a (λ e.
        dir_found-Holds r (new_info dir r b) b (dir_node fuel (parent_dir r) b) (lookup r b.nodes) q
          a (dir_node-Holds fuel (parent_dir r) b a))

  dir_at-Holds : (rel : Str) (b : Builder) → AllCells b → Holds Stored (dir_at rel b)
  unfolding dir_at
  dir_at-Holds rel b a = dir_node-Holds (suc (suc (length rel))) rel b a

  attach-Holds :
      (rel : Str) (i : Info) (b : Builder) → Q i.ghost → AllCells b → Holds Stored (attach rel i b)
  unfolding attach
  attach-Holds rel i b g a =
      attach_to-Holds rel i (dir_at (parent_dir rel) b) g (dir_at-Holds (parent_dir rel) b a)

  place_found-Holds :
      (rel : Str) (kind : Kind) (b : Builder) (o : Option ℕ)
      → AllCells b
      → Holds Stored (place_found rel kind b o)
  unfolding new_info
  place_found-Holds rel kind b (some id) a = change-All id (with_kind kind) b.cells (λ c h. h) a
  place_found-Holds rel kind b none a = attach-Holds rel (new_info kind rel b) b q a

  place-Holds :
      (rel : Str) (kind : Kind) (b : Builder) → AllCells b → Holds Stored (place rel kind b)
  unfolding place
  place-Holds rel kind b a =
      place_found-Holds (trim_slashes rel) kind b (lookup (trim_slashes rel) b.nodes) a

  after-Holds : (o : Option (ℕ × Builder)) → Holds Stored o → Holds AllCells (after o)
  after-Holds none h = tt
  after-Holds (some (id, b)) h = h

  abbrev IsPlaced : Placed → Type 0
  IsPlaced (b, paths) = AllCells b

  repo_placed-Holds :
      (r : Repo) (paths : Dict ℕ) (o : Option (ℕ × Builder))
      → Holds Stored o
      → Holds IsPlaced (repo_placed r paths o)
  repo_placed-Holds r paths none h = tt
  repo_placed-Holds r paths (some (id, b)) h = change-All id (with_repo r) b.cells (λ c k. k) h

  place_repo-Holds : (r : Repo) (p : Placed) → IsPlaced p → Holds IsPlaced (place_repo r p)
  unfolding place_repo
  place_repo-Holds r (b, paths) a =
      if-Holds IsPlaced r.is_worktree (some (b, paths)) _ a
        (λ e. repo_placed-Holds r paths (place r.rel repo b) (place-Holds r.rel repo b a))

  hang-Holds : (r : Repo) (b : Builder) (o : Option ℕ) → AllCells b → Holds AllCells (hang r b o)
  unfolding register
  hang-Holds r b (some parent) a = link-AllCells parent (worktree_info r) b q a
  hang-Holds r b none a =
      after-Holds (attach r.rel (worktree_info r) b) (attach-Holds r.rel (worktree_info r) b q a)

  place_worktree-Holds :
      (paths : Dict ℕ) (r : Repo) (b : Builder)
      → AllCells b
      → Holds AllCells (place_worktree paths r b)
  unfolding place_worktree noted
  place_worktree-Holds paths r b a =
      if-Holds AllCells (not r.is_worktree) (some b) _ a
        (λ e. hang-Holds r (noted r b) (lookup r.main_path paths) a)

  ghost_placed-Holds :
      (g : Ghost) (o : Option (ℕ × Builder))
      → Q (some g)
      → Holds Stored o
      → Holds AllCells (ghost_placed g o)
  ghost_placed-Holds g none h k = tt
  ghost_placed-Holds g (some (id, b)) h k = change-All id (with_ghost g) b.cells (λ c i. h) k

  unless_taken-Holds :
      (g : Ghost) (b : Builder) (o : Option ℕ)
      → Q (some g)
      → AllCells b
      → Holds AllCells (unless_taken g b o)
  unless_taken-Holds g b (some id) h a = a
  unless_taken-Holds g b none h a =
      ghost_placed-Holds g (place (ghost_path g) ghost b) h (place-Holds (ghost_path g) ghost b a)

  place_ghost-Holds :
      (cloned : Dict Bool) (g : Ghost) (b : Builder)
      → (holds (lookup (ghost_slug g) cloned) ≡ false → Q (some g))
      → AllCells b
      → Holds AllCells (place_ghost cloned g b)
  unfolding place_ghost
  place_ghost-Holds cloned g b h a =
      if-Holds AllCells (holds (lookup (ghost_slug g) cloned)) (some b) _ a
        (λ e. unless_taken-Holds g b (lookup (ghost_path g) b.nodes) (h e) a)

  add_dir-Holds : (rel : Str) (b : Builder) → AllCells b → Holds AllCells (add_dir rel b)
  unfolding add_dir
  add_dir-Holds rel b a = after-Holds (dir_at rel b) (dir_at-Holds rel b a)

  with_paths-Holds : (o : Option Builder) → Holds AllCells o → Holds IsPlaced (with_paths o)
  with_paths-Holds none h = tt
  with_paths-Holds (some b) h = h

  hang_all-Holds :
      (input : Input) (o : Option Placed)
      → ((g : Ghost)
          → holds (lookup (ghost_slug g) (cloned_slugs input.repos [])) ≡ false
          → Q (some g))
      → Holds IsPlaced o
      → Holds AllCells (hang_all input o)
  hang_all-Holds input none h k = tt
  hang_all-Holds input (some (b, paths)) h k =
      each-Holds AllCells (place_ghost (cloned_slugs input.repos [])) input.ghosts _
        (λ g b a. place_ghost-Holds (cloned_slugs input.repos []) g b (h g) a)
        (each-Holds AllCells (place_worktree paths) input.repos (some b)
          (place_worktree-Holds paths) k)

  pub place_all-Holds :
      (input : Input)
      → ((g : Ghost)
          → holds (lookup (ghost_slug g) (cloned_slugs input.repos [])) ≡ false
          → Q (some g))
      → Holds AllCells (place_all input)
  unfolding place_all root_builder
  place_all-Holds input h =
      let first =
        each-Holds AllCells add_dir input.dirs (some (root_builder input.root)) add_dir-Holds
          (q, tt) in
      let second =
        each-Holds AllCells (λ (o : Owner). add_dir (owner_rel o)) input.owners _
          (λ o. add_dir-Holds (owner_rel o)) first in
      hang_all-Holds input _ h
        (each-Holds IsPlaced place_repo input.repos _ place_repo-Holds (with_paths-Holds _ second))
