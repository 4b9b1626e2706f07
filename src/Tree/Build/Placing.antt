-- ===== src/Tree/Build/Placing.antt =====
-- tree.go: dir returns on every path.
use repo_man.Safepath.{slash, dot, parent_dir}
use repo_man.Tree.{holds}
use repo_man.Model.{Repo, Ghost, Owner, owner_rel, ghost_slug}
use repo_man.Tree.Build.{
  Builder, Placed, Input, place, place_found, each, after, add_dir, repo_placed, place_repo, hang,
  worktree_info, noted, place_worktree, cloned_slugs, ghost_path, ghost_placed, unless_taken,
  place_ghost, root_builder, with_paths, hang_all, place_all, new_info, attach_to, dir_found,
  trim_slashes, dir_node, dir_at, attach,
}
use repo_man.Tree.Build.Ancestors.{parent_dir-Ends, length-trim_slashes-le}
use repo_man.Model.Node.{Kind, Info, dir, repo, ghost}
use repo_man.Base.{
  ℕ, zero, suc, ◌≤◌, ◌≡◌, refl, ap, ◌∙◌, ◌⊎◌, inl, inr, Bool, true, false, not, ◌||◌, arith, List,
  [], ◌∷◌, Option, none, some, Str, Dict, eqb, lookup, length, trim, trim_left, trim_right,
  if◌then◌else◌, Bool-cases,
}

abbrev Some : {A : Type 0} → Option A → Type 0
Some {A = A} o = (x : A) × (o ≡ some x)

-- The test at which dir stops.
abbrev is_top : Str → Bool
is_top r = eqb r [] || eqb r dot

-- The fuel is enough for a path: two units more than its length, or one for a path at which dir stops.
abbrev IsEnough : ℕ → Str → Type 0
IsEnough fuel rel =
    (suc (suc (length (trim_slashes rel))) ≤ fuel)
    ⊎ ((1 ≤ fuel) × (is_top (trim_slashes rel) ≡ true))

stops_dot : is_top (trim_slashes dot) ≡ true
unfolding trim_slashes trim trim_right trim_left eqb
stops_dot = refl

stops_slash : is_top (trim_slashes (slash ∷ [])) ≡ true
unfolding trim_slashes trim trim_right trim_left eqb
stops_slash = refl

parent-IsEnough :
    (fuel : ℕ) (rel : Str)
    → IsEnough (suc fuel) rel
    → is_top (trim_slashes rel) ≡ false
    → IsEnough fuel (parent_dir (trim_slashes rel))
parent-IsEnough fuel rel (inr (f, t)) n = absurd (cc (t, n))
parent-IsEnough fuel rel (inl f) n = elim (parent_dir-Ends (trim_slashes rel)) [
  | inl l ↦ inl (omega (arith, f, l, length-trim_slashes-le (parent_dir (trim_slashes rel))))
  | inr (inl q) ↦ inr (omega (arith, f), ap (λ d. is_top (trim_slashes d)) q ∙ stops_dot)
  | inr (inr q) ↦ inr (omega (arith, f), ap (λ d. is_top (trim_slashes d)) q ∙ stops_slash)
]

found-Some :
    (rel : Str) (i : Info) (b : Builder) (parent : Option (ℕ × Builder)) (o : Option ℕ)
    → Some parent
    → Some (dir_found rel i b parent o)
unfolding attach_to
found-Some rel i b parent (some id) s = (_, refl)
found-Some rel i b none none (x, e) = absurd (cc (e))
found-Some rel i b (some (p, b')) none s = (_, refl)

-- With enough fuel dir returns a node.
dir_node-Some :
    (fuel : ℕ) (rel : Str) (b : Builder) → IsEnough fuel rel → Some (dir_node fuel rel b)
unfolding dir_node
dir_node-Some zero rel b (inl f) = absurd (omega (arith, f))
dir_node-Some zero rel b (inr (f, t)) = absurd (omega (arith, f))
dir_node-Some (suc fuel) rel b e = elim (Bool-cases (is_top (trim_slashes rel))) [
  | inl y ↦ rw y (_, refl)
  | inr y ↦ rw y (
      found-Some (trim_slashes rel) (new_info dir (trim_slashes rel) b) b _
        (lookup (trim_slashes rel) b.nodes)
        (dir_node-Some fuel (parent_dir (trim_slashes rel)) b (parent-IsEnough fuel rel e y)))
]

-- Two calls more than the path has characters are enough for dir.
dir_at-Some : (rel : Str) (b : Builder) → Some (dir_at rel b)
unfolding dir_at
dir_at-Some rel b =
    dir_node-Some (suc (suc (length rel))) rel b (inl (omega (arith, length-trim_slashes-le rel)))

attach_to-Some :
    (rel : Str) (i : Info) (o : Option (ℕ × Builder)) → Some o → Some (attach_to rel i o)
unfolding attach_to
attach_to-Some rel i none (x, e) = absurd (cc (e))
attach_to-Some rel i (some (p, b)) s = (_, refl)

attach-Some : (rel : Str) (i : Info) (b : Builder) → Some (attach rel i b)
unfolding attach
attach-Some rel i b =
    attach_to-Some rel i (dir_at (parent_dir rel) b) (dir_at-Some (parent_dir rel) b)

after-Some : (o : Option (ℕ × Builder)) → Some o → Some (after o)
after-Some none (x, e) = absurd (cc (e))
after-Some (some (id, b)) s = (b, refl)

place_found-Some :
    (rel : Str) (kind : Kind) (b : Builder) (o : Option ℕ) → Some (place_found rel kind b o)
place_found-Some rel kind b (some id) = (_, refl)
place_found-Some rel kind b none = attach-Some rel (new_info kind rel b) b

place-Some : (rel : Str) (kind : Kind) (b : Builder) → Some (place rel kind b)
unfolding place
place-Some rel kind b =
    place_found-Some (trim_slashes rel) kind b (lookup (trim_slashes rel) b.nodes)

each-Some :
    {A S : Type 0} (f : A → S → Option S) (xs : List A) (o : Option S)
    → ((x : A) (s : S) → Some (f x s))
    → Some o
    → Some (each f xs o)
each-Some f [] o h s = s
each-Some f (x ∷ xs) none h (s, e) = absurd (cc (e))
each-Some f (x ∷ xs) (some s) h e = each-Some f xs (f x s) h (h x s)

if-Some : {A : Type 0} (c : Bool) (x y : Option A) → Some x → Some y → Some (if c then x else y)
if-Some true x y s t = s
if-Some false x y s t = t

repo_placed-Some :
    (r : Repo) (paths : Dict ℕ) (o : Option (ℕ × Builder)) → Some o → Some (repo_placed r paths o)
repo_placed-Some r paths none (x, e) = absurd (cc (e))
repo_placed-Some r paths (some (id, b)) s = (_, refl)

place_repo-Some : (r : Repo) (p : Placed) → Some (place_repo r p)
unfolding place_repo
place_repo-Some r (b, paths) =
    if-Some r.is_worktree (some (b, paths)) _ ((b, paths), refl)
      (repo_placed-Some r paths (place r.rel repo b) (place-Some r.rel repo b))

hang-Some : (r : Repo) (b : Builder) (o : Option ℕ) → Some (hang r b o)
hang-Some r b (some parent) = (_, refl)
hang-Some r b none =
    after-Some (attach r.rel (worktree_info r) b) (attach-Some r.rel (worktree_info r) b)

place_worktree-Some : (paths : Dict ℕ) (r : Repo) (b : Builder) → Some (place_worktree paths r b)
unfolding place_worktree
place_worktree-Some paths r b =
    if-Some (not r.is_worktree) (some b) _ (b, refl)
      (hang-Some r (noted r b) (lookup r.main_path paths))

ghost_placed-Some : (g : Ghost) (o : Option (ℕ × Builder)) → Some o → Some (ghost_placed g o)
ghost_placed-Some g none (x, e) = absurd (cc (e))
ghost_placed-Some g (some (id, b)) s = (_, refl)

unless_taken-Some : (g : Ghost) (b : Builder) (o : Option ℕ) → Some (unless_taken g b o)
unless_taken-Some g b (some id) = (b, refl)
unless_taken-Some g b none =
    ghost_placed-Some g (place (ghost_path g) ghost b) (place-Some (ghost_path g) ghost b)

place_ghost-Some : (cloned : Dict Bool) (g : Ghost) (b : Builder) → Some (place_ghost cloned g b)
unfolding place_ghost
place_ghost-Some cloned g b =
    if-Some (holds (lookup (ghost_slug g) cloned)) (some b) _ (b, refl)
      (unless_taken-Some g b (lookup (ghost_path g) b.nodes))

with_paths-Some : (o : Option Builder) → Some o → Some (with_paths o)
with_paths-Some none (x, e) = absurd (cc (e))
with_paths-Some (some b) s = (_, refl)

hang_all-Some : (input : Input) (o : Option Placed) → Some o → Some (hang_all input o)
hang_all-Some input none (x, e) = absurd (cc (e))
hang_all-Some input (some (b, paths)) s =
    each-Some (place_ghost (cloned_slugs input.repos [])) input.ghosts _
      (place_ghost-Some (cloned_slugs input.repos []))
      (each-Some (place_worktree paths) input.repos (some b) (place_worktree-Some paths) (b, refl))

add_dir-Some : (rel : Str) (b : Builder) → Some (add_dir rel b)
unfolding add_dir
add_dir-Some rel b = after-Some (dir_at rel b) (dir_at-Some rel b)

-- Build places every node and ends: its calls of dir, each with two units of fuel more than its
-- path has characters, all return, whatever the paths, the store and the order of the input.
pub place_all_returns : (input : Input) → (b : Builder) × (place_all input ≡ some b)
unfolding place_all
place_all_returns input =
    let first =
      each-Some add_dir input.dirs (some (root_builder input.root)) add_dir-Some
        (root_builder input.root, refl) in
    let second =
      each-Some (λ (o : Owner). add_dir (owner_rel o)) input.owners _
        (λ o. add_dir-Some (owner_rel o)) first in
    hang_all-Some input _
      (each-Some place_repo input.repos _ place_repo-Some (with_paths-Some _ second))
