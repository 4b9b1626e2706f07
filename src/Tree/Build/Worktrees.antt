-- ===== src/Tree/Build/Worktrees.antt =====
-- tree.go: the loop of Build over the worktrees gives each its node.
use repo_man.Model.{Repo}
use repo_man.Model.Node.{Info}
use repo_man.Tree.Build.{
  Builder, link, register, after, attach, worktree_info, hang, noted, place_worktree,
}
use repo_man.Tree.Build.Cells.{Holds}
use repo_man.Tree.Build.Sound.{IsKinded, IsSound, Extends, Extends-trans}
use repo_man.Tree.Build.Growing.{
  IsGrown, grown, IsGrown-trans, Extends-lt, Leads, HasInfo, attach-HasInfo, attach-Leads,
  added-IsGrown, link-new,
}
use repo_man.Tree.Build.Naming.{both-Holds}
use repo_man.Tree.Build.Covering.{Stepped}
use repo_man.Tree.Build.Primaries.{Has, extended, Places, if-cases}
use repo_man.Base.{
  ℕ, ◌≡◌, refl, ap, Bool, true, false, not, Option, none, some, Dict, lookup, length,
}

-- What the loop over the worktrees keeps, from the builder that it starts with.
module _ (paths : Dict ℕ) (b₀ : Builder) where
  abbrev pub IsHung : Builder → Type 0
  IsHung b = IsSound b × Places b paths × Extends b₀ b

  abbrev pub HasWorktree : Repo → Builder → Type 0
  HasWorktree r b = r.is_worktree ≡ true → Has r b

  abbrev pub Any : Repo → Repo → Type 0
  Any r s = Unit

  hung : (b b' : Builder) → IsHung b → IsGrown b b' → IsHung b'
  hung b b' (s, p, e) g =
      (g.sound, (λ q k h. Extends-lt b b' k g.extends (p q k h)), Extends-trans b₀ b b' e g.extends)

  abbrev IsStepped : Repo → Builder → Builder → Type 0
  IsStepped r b b' = Stepped IsHung HasWorktree Any (place_worktree paths) r b b'

  stepped :
      (r : Repo) (b b' : Builder) → IsHung b → IsGrown b b' → HasWorktree r b' → IsStepped r b b'
  stepped r b b' h g w = (hung b b' h g, w, λ y u q e. extended y b b' g.extends (q e))

  noted-IsGrown : (r : Repo) (b : Builder) → IsSound b → IsGrown b (noted r b)
  unfolding noted
  noted-IsGrown r b s = record {
    sound = record {
      begun = s.begun;
      forward = s.forward;
      rooted = s.rooted;
      named = s.named;
      kinded = s.kinded;
    };
    extends = record { cells = λ k c h. (c, h, refl) };
  }

  worktree-IsKinded : (r : Repo) → IsKinded (worktree_info r)
  worktree-IsKinded r s e q = cc

  after-Stepped :
      (r : Repo) (b b₁ : Builder) (o : Option (ℕ × Builder))
      → IsHung b
      → IsGrown b b₁
      → Holds (λ s. Leads b₁ s × HasInfo (worktree_info r) s) o
      → Holds (IsStepped r b) (after o)
  after-Stepped r b b₁ none h g l = tt
  after-Stepped r b b₁ (some (id, b₂)) h g ((l, f), (c, at, i)) =
      stepped r b b₂ h (IsGrown-trans b b₁ b₂ g f) (λ e. (id, c, at, ap (λ (j : Info). j.repo) i))

  hang-Stepped :
      (r : Repo) (b b₁ : Builder) (o : Option ℕ)
      → IsHung b
      → IsGrown b b₁
      → lookup r.main_path paths ≡ o
      → Holds (IsStepped r b) (hang r b₁ o)
  unfolding register
  hang-Stepped r b b₁ (some parent) h g e =
      let l = (hung b b₁ h g).1 r.main_path parent e in
      let a = added-IsGrown r.rel parent (worktree_info r) b₁ (worktree-IsKinded r) l g.sound in
      stepped r b (register r.rel (link parent (worktree_info r) b₁)) h (IsGrown-trans b b₁ _ g a)
        (λ w. (length b₁.cells, _, link-new parent (worktree_info r) b₁, refl))
  hang-Stepped r b b₁ none h g e = after-Stepped r b b₁ (attach r.rel (worktree_info r) b₁) h g (
      both-Holds (Leads b₁) (HasInfo (worktree_info r)) (attach r.rel (worktree_info r) b₁)
        (attach-Leads r.rel (worktree_info r) b₁ (worktree-IsKinded r) g.sound)
        (attach-HasInfo r.rel (worktree_info r) b₁))

  not-true : (b : Bool) → not b ≡ true → b ≡ false
  not-true false e = refl
  not-true true e = absurd (cc (e))

  pub place_worktree-Stepped :
      (r : Repo) (b : Builder) → IsHung b → Holds (IsStepped r b) (place_worktree paths r b)
  unfolding place_worktree
  place_worktree-Stepped r b h =
      if-cases (IsStepped r b) (not r.is_worktree) (some b) _
        (λ w.
          let n : r.is_worktree ≡ false = not-true r.is_worktree w in
          stepped r b b h (grown b h.0) (λ e. absurd (cc (n, e))))
        (λ w.
          hang-Stepped r b (noted r b) (lookup r.main_path paths) h (noted-IsGrown r b h.0) refl)
