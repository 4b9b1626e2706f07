-- ===== src/Tree/Build/Checkouts.antt =====
-- tree.go: every checkout of the input has its node in the store that the loops of Build leave.
use mathlib.Core.List.{Memᴰ}
use mathlib.Core.List.Memᴰ
use repo_man.Tree.{holds}
use repo_man.Model.{Repo, Ghost, Owner, owner_rel, ghost_slug}
use repo_man.Model.Node.{ghost}
use repo_man.Tree.Build.{
  Cell, Builder, Placed, Input, each, after, add_dir, dir_at, with_ghost, place, place_repo,
  place_worktree, ghost_path, ghost_placed, unless_taken, place_ghost, cloned_slugs, root_builder,
  with_paths, hang_all, place_all,
}
use repo_man.Tree.Build.Cells.{Holds, each-Holds}
use repo_man.Tree.Build.Store.{cell_at}
use repo_man.Tree.Build.Sound.{
  IsKinded, IsSound, Extends, Extends-refl, change-IsSound, change-Extends,
}
use repo_man.Tree.Build.Growing.{IsGrown, grown, IsGrown-trans, Leads, dir_at-Leads, place-Leads}
use repo_man.Tree.Build.Naming.{Names, both-Holds, map-Holds, dir_at-Names}
use repo_man.Tree.Build.Covering.{Apart, Stepped, Covered, each-Covered}
use repo_man.Tree.Build.Worktrees.{IsHung, HasWorktree, Any, place_worktree-Stepped}
use repo_man.Tree.Build.Primaries.{
  Has, extended, IsBuilt, IsPlaced, AreApart, IsListed, if-cases, place_repo-Stepped,
}
use repo_man.Base.{
  ℕ, zero, suc, ◌≡◌, refl, ap, sym, subst, Bool, true, List, [], ◌∷◌, Option, none, some, Str, Dict,
  arith, eqb_iff, lookup, Bool-cases, inl, inr,
}

-- The loop over the ghosts.
module _ (b₀ : Builder) where
  abbrev IsAfter : Builder → Type 0
  IsAfter b = IsGrown b₀ b

  ghost_placed-IsAfter :
      (g : Ghost) (b : Builder) (o : Option (ℕ × Builder))
      → IsAfter b
      → Holds (Leads b) o
      → Holds IsAfter (ghost_placed g o)
  ghost_placed-IsAfter g b none a h = tt
  ghost_placed-IsAfter g b (some (id, b₁)) a (l, f) = IsGrown-trans b₀ b _ a (
      IsGrown-trans b b₁ _ f (record {
        sound = change-IsSound id (with_ghost g) (λ c. refl) b₁ (λ c h k. k) f.sound;
        extends = change-Extends id (with_ghost g) (λ c. refl) b₁ (λ c. refl);
      }))

  unless_taken-IsAfter :
      (g : Ghost) (b : Builder) (o : Option ℕ) → IsAfter b → Holds IsAfter (unless_taken g b o)
  unless_taken-IsAfter g b (some id) a = a
  unless_taken-IsAfter g b none a =
      ghost_placed-IsAfter g b (place (ghost_path g) ghost b) a
        (place-Leads (ghost_path g) ghost b (λ e. cc) a.sound)

  place_ghost-IsAfter :
      (cloned : Dict Bool) (g : Ghost) (b : Builder)
      → IsAfter b
      → Holds IsAfter (place_ghost cloned g b)
  unfolding place_ghost
  place_ghost-IsAfter cloned g b a =
      if-cases IsAfter (holds (lookup (ghost_slug g) cloned)) (some b) _ (λ e. a)
        (λ e. unless_taken-IsAfter g b (lookup (ghost_path g) b.nodes) a)

-- The loops over the directories and the owners.
after-IsBuilt :
    (b : Builder) (o : Option (ℕ × Builder))
    → Holds (λ s. Leads b s × Names b s) o
    → Holds IsBuilt (after o)
after-IsBuilt b none h = tt
after-IsBuilt b (some (id, b₁)) ((l, g), n) = (g.sound, n.distinct)

add_dir-IsBuilt : (rel : Str) (b : Builder) → IsBuilt b → Holds IsBuilt (add_dir rel b)
unfolding add_dir
add_dir-IsBuilt rel b (s, d) =
    after-IsBuilt b (dir_at rel b) (
      both-Holds (Leads b) (Names b) (dir_at rel b) (dir_at-Leads rel b s) (dir_at-Names rel b s d))

alone : (d : Cell) (k : ℕ) (c : Cell) → cell_at k (d ∷ []) ≡ some c → c ≡ d
unfolding cell_at
alone d zero c h = cc
alone d (suc k) c h = absurd (cc (h))

root_builder-IsBuilt : (root : Str) → IsBuilt (root_builder root)
unfolding root_builder lookup cell_at
root_builder-IsBuilt root = (
  record {
    begun = omega arith;
    forward = λ k c h id m.
        absurd (Memᴰ.not-nil (subst (Memᴰ id) (ap (λ (x : Cell). x.children) (alone _ k c h)) m));
    rooted = λ k z h. absurd (omega (arith, z, h));
    named = λ q k h. ground (arith, eqb_iff [] q, h);
    kinded = λ k c h.
        subst (λ (x : Cell). IsKinded x.info) (sym (alone _ k c h)) (λ r e. absurd (cc (e)));
  },
  λ p q k x y. ground (arith, eqb_iff [] p, eqb_iff [] q, x, y),
)

-- What the loops bring about.
abbrev IsCovered : List Repo → Placed → Type 0
IsCovered rs p = IsPlaced p × ((r : Repo) → Memᴰ r rs → IsListed r p)

with_paths-IsPlaced : (o : Option Builder) → Holds IsBuilt o → Holds IsPlaced (with_paths o)
unfolding lookup
with_paths-IsPlaced none h = tt
with_paths-IsPlaced (some b) h = (h, λ q k e. absurd (cc (e)))

primaries-IsCovered :
    (rs : List Repo) (o : Option Placed)
    → Apart AreApart rs
    → Holds IsPlaced o
    → Holds (IsCovered rs) (each place_repo rs o)
primaries-IsCovered [] none a h = tt
primaries-IsCovered (r ∷ rs) none a h = tt
primaries-IsCovered rs (some p) a h =
    map-Holds (Covered IsPlaced IsListed AreApart place_repo rs p) (IsCovered rs)
      (each place_repo rs (some p)) (λ s c. (c.0, c.1))
      (each-Covered IsPlaced IsListed AreApart place_repo place_repo-Stepped rs p a h)

-- The store of Build, with every checkout of a list.
abbrev pub IsComplete : List Repo → Builder → Type 0
IsComplete rs b = IsSound b × ((r : Repo) → Memᴰ r rs → Has r b)

every-Apart : (paths : Dict ℕ) (b : Builder) (rs : List Repo) → Apart (Any paths b) rs
every-Apart paths b [] = tt
every-Apart paths b (r ∷ rs) = ((λ y m. tt), every-Apart paths b rs)

either_kind :
    (rs : List Repo) (b b' : Builder) (paths : Dict ℕ)
    → IsCovered rs (b, paths)
    → Extends b b'
    → ((r : Repo) → Memᴰ r rs → r.is_worktree ≡ true → Has r b')
    → (r : Repo) → Memᴰ r rs
    → Has r b'
either_kind rs b b' paths c e w r m = elim (Bool-cases r.is_worktree) [
  | inl y ↦ w r m y
  | inr n ↦ let (k, at_k, cell, at, same) = c.1 r m n in extended r b b' e (k, cell, at, same)
]

place_ghost-IsComplete :
    (rs : List Repo) (cloned : Dict Bool) (g : Ghost) (b : Builder)
    → IsComplete rs b
    → Holds (IsComplete rs) (place_ghost cloned g b)
place_ghost-IsComplete rs cloned g b c =
    map-Holds (IsAfter b) (IsComplete rs) (place_ghost cloned g b)
      (λ s a. (a.sound, λ r m. extended r b s a.extends (c.1 r m)))
      (place_ghost-IsAfter b cloned g b (grown b c.0))

worktrees-IsComplete :
    (rs : List Repo) (b : Builder) (paths : Dict ℕ)
    → IsCovered rs (b, paths)
    → Holds (IsComplete rs) (each (place_worktree paths) rs (some b))
worktrees-IsComplete rs b paths h =
    map-Holds
      (Covered (IsHung paths b) (HasWorktree paths b) (Any paths b) (place_worktree paths) rs b)
      (IsComplete rs) (each (place_worktree paths) rs (some b))
      (λ s c. (c.0.0, either_kind rs b s paths h c.0.2 (λ r m. c.1 r m)))
      (each-Covered (IsHung paths b) (HasWorktree paths b) (Any paths b) (place_worktree paths)
        (place_worktree-Stepped paths b) rs b (every-Apart paths b rs)
        (h.0.0.0, h.0.1, Extends-refl b))

hang_all-IsComplete :
    (input : Input) (o : Option Placed)
    → Holds (IsCovered input.repos) o
    → Holds (IsComplete input.repos) (hang_all input o)
hang_all-IsComplete input none h = tt
hang_all-IsComplete input (some (b, paths)) h =
    each-Holds (IsComplete input.repos) (place_ghost (cloned_slugs input.repos [])) input.ghosts _
      (place_ghost-IsComplete input.repos (cloned_slugs input.repos []))
      (worktrees-IsComplete input.repos b paths h)

-- The store that Build leaves is sound and has a node for every checkout of the input, where no two
-- primary ones have one path.
pub place_all-IsComplete :
    (input : Input) → Apart AreApart input.repos → Holds (IsComplete input.repos) (place_all input)
unfolding place_all
place_all-IsComplete input a =
    let first =
      each-Holds IsBuilt add_dir input.dirs (some (root_builder input.root)) add_dir-IsBuilt
        (root_builder-IsBuilt input.root) in
    let second =
      each-Holds IsBuilt (λ (o : Owner). add_dir (owner_rel o)) input.owners _
        (λ o. add_dir-IsBuilt (owner_rel o)) first in
    hang_all-IsComplete input _ (primaries-IsCovered input.repos _ a (with_paths-IsPlaced _ second))

hang_all-IsSound :
    (input : Input) (o : Option Placed) → Holds IsPlaced o → Holds IsSound (hang_all input o)
hang_all-IsSound input none h = tt
hang_all-IsSound input (some (b, paths)) h =
    each-Holds IsSound (place_ghost cloned) input.ghosts _
      (λ g c s.
        map-Holds (IsAfter c) IsSound (place_ghost cloned g c) (λ d a. a.sound)
          (place_ghost-IsAfter c cloned g c (grown c s)))
      (map-Holds
        (Covered (IsHung paths b) (HasWorktree paths b) (Any paths b) (place_worktree paths)
          input.repos b)
        IsSound (each (place_worktree paths) input.repos (some b)) (λ s c. c.0.0)
        (each-Covered (IsHung paths b) (HasWorktree paths b) (Any paths b) (place_worktree paths)
          (place_worktree-Stepped paths b) input.repos b (every-Apart paths b input.repos)
          (h.0.0, h.1, Extends-refl b)))
  where
    cloned : Dict Bool
    cloned = cloned_slugs input.repos []

-- The pointers of the store that Build leaves are sound, whatever the input is: each leads from a
-- cell to a later one, so there is no cycle, and every cell but the root is led to.
pub place_all-IsSound : (input : Input) → Holds IsSound (place_all input)
unfolding place_all
place_all-IsSound input =
    let first =
      each-Holds IsBuilt add_dir input.dirs (some (root_builder input.root)) add_dir-IsBuilt
        (root_builder-IsBuilt input.root) in
    let second =
      each-Holds IsBuilt (λ (o : Owner). add_dir (owner_rel o)) input.owners _
        (λ o. add_dir-IsBuilt (owner_rel o)) first in
    hang_all-IsSound input _ (
      each-Holds IsPlaced place_repo input.repos _
        (λ r p i.
          map-Holds (Stepped IsPlaced IsListed AreApart place_repo r p) IsPlaced (place_repo r p)
            (λ q s. s.0) (place_repo-Stepped r p i))
        (with_paths-IsPlaced _ second))
