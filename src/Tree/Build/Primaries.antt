-- ===== src/Tree/Build/Primaries.antt =====
-- tree.go: the loop of Build over the primary checkouts gives each its node.
use repo_man.Model.{Repo}
use repo_man.Model.Node.{dir, repo}
use repo_man.Tree.Build.{
  Cell, Builder, Placed, change, trim_slashes, with_repo, place, repo_placed, place_repo,
}
use repo_man.Tree.Build.Cells.{Holds}
use repo_man.Tree.Build.Store.{cell_at, change-same, change-other, length-change}
use repo_man.Tree.Build.Sound.{IsKinded, IsSound, Extends, change-IsSound}
use repo_man.Tree.Build.Growing.{Extends-lt, Leads, HasKind, place-Leads, place-HasKind}
use repo_man.Tree.Build.Naming.{IsDistinctly, NamesAs, both-Holds, place-NamesAs}
use repo_man.Tree.Build.Covering.{Stepped}
use repo_man.Base.{
  ℕ, ◌<◌, ◌≡◌, refl, ap, sym, subst, ◌∙◌, ◌≢◌, Bool, true, false, Option, none, some, Str, Dict,
  eqb, lookup, insert, lookup-insert, length, Bool-cases, ◌⊎◌, inl, inr, if◌then◌else◌,
}

-- The node of a checkout.
abbrev pub Has : Repo → Builder → Type 0
Has r b = (k : ℕ) × (c : Cell) × (cell_at k b.cells ≡ some c) × (c.info.repo ≡ some r)

pub extended : (r : Repo) (b b' : Builder) → Extends b b' → Has r b → Has r b'
extended r b b' e (k, c, at, q) = let (c', at', same) = e.cells k c at in (k, c', at', same ∙ q)

-- The node of a primary checkout, found under its path.
abbrev pub PlacedAt : Repo → Builder → Type 0
PlacedAt r b =
    (k : ℕ) × (lookup (trim_slashes r.rel) b.nodes ≡ some k)
    × (c : Cell) × (cell_at k b.cells ≡ some c)
    × (c.info.repo ≡ some r)

abbrev pub Places : Builder → Dict ℕ → Type 0
Places b paths = (q : Str) (k : ℕ) → lookup q paths ≡ some k → k < length b.cells

abbrev pub IsBuilt : Builder → Type 0
IsBuilt b = IsSound b × IsDistinctly b

abbrev pub IsPlaced : Placed → Type 0
IsPlaced (b, paths) = IsBuilt b × Places b paths

-- Two checkouts that are primary have different paths.
abbrev pub AreApart : Repo → Repo → Type 0
AreApart r s =
    r.is_worktree ≡ false → s.is_worktree ≡ false → trim_slashes r.rel ≢ trim_slashes s.rel

abbrev pub IsListed : Repo → Placed → Type 0
IsListed r (b, paths) = r.is_worktree ≡ false → PlacedAt r b

-- What place returns for a checkout.
abbrev Found : Str → Builder → ℕ × Builder → Type 0
Found rel b₀ s = Leads b₀ s × (HasKind repo s × NamesAs rel b₀ s)

repo_not_dir : repo ≢ dir
repo_not_dir e = cc

place_repo-Found :
    (r : Repo) (b : Builder) → IsBuilt b → Holds (Found (trim_slashes r.rel) b) (place r.rel repo b)
place_repo-Found r b (s, d) =
    both-Holds (Leads b) (λ t. HasKind repo t × NamesAs (trim_slashes r.rel) b t)
      (place r.rel repo b) (place-Leads r.rel repo b repo_not_dir s)
      (both-Holds (HasKind repo) (NamesAs (trim_slashes r.rel) b) (place r.rel repo b)
        (place-HasKind r.rel repo b s) (place-NamesAs r.rel repo b s d))

pub if-cases :
    {S : Type 0} (T : S → Type 0) (c : Bool) (x y : Option S)
    → (c ≡ true → Holds T x)
    → (c ≡ false → Holds T y)
    → Holds T (if c then x else y)
if-cases T true x y h k = h refl
if-cases T false x y h k = k refl

abbrev with_checkout : Repo → ℕ → Builder → Builder
with_checkout r id b = record b { cells = change id (with_repo r) b.cells }

checkout-IsKinded :
    (r : Repo) (id : ℕ) (b : Builder)
    → HasKind repo (id, b)
    → (c : Cell) → cell_at id b.cells ≡ some c
    → IsKinded (with_repo r c).info
checkout-IsKinded r id b (c', at', kind) c at s q e =
    let same : some c' ≡ some c = sym at' ∙ at in
    let d : c' ≡ c = cc in repo_not_dir (sym kind ∙ ap (λ (x : Cell). x.info.kind) d ∙ e)

checkout_stays :
    (r y : Repo) (id : ℕ) (b b₁ : Builder)
    → Found (trim_slashes r.rel) b (id, b₁)
    → trim_slashes y.rel ≢ trim_slashes r.rel
    → PlacedAt y b
    → PlacedAt y (with_checkout r id b₁)
checkout_stays r y id b b₁ ((l, g), (t, (named, found))) apart (k, at_k, c, at, e) =
    let (c', at', same) = g.extends.cells k c at in
    let here : lookup (trim_slashes y.rel) b₁.nodes ≡ some k = named.grows _ k at_k in
    let other : id ≢ k = λ q. apart (named.distinct _ _ k here (found ∙ ap some q)) in
    (k, here, c', change-other id k (with_repo r) b₁.cells other ∙ at', same ∙ e)

checkout-Places :
    (r : Repo) (id : ℕ) (b b₁ : Builder) (paths : Dict ℕ)
    → Leads b (id, b₁)
    → Places b paths
    → Places (with_checkout r id b₁) (insert r.path id paths)
checkout-Places r id b b₁ paths (l, g) p q k h =
    let len = length-change id (with_repo r) b₁.cells in
    subst (λ n. k < n) (sym len) (within (Bool-cases (eqb r.path q)))
  where
    within : (eqb r.path q ≡ true) ⊎ (eqb r.path q ≡ false) → k < length b₁.cells
    within (inl y) =
        let a : lookup q (insert r.path id paths)
            ≡ (if eqb r.path q then some id else lookup q paths) =
          lookup-insert r.path q id paths in
        let f : lookup q (insert r.path id paths) ≡ some id = rw y at a in
        let e : some id ≡ some k = sym f ∙ h in
        let same : id ≡ k = cc in subst (λ n. n < length b₁.cells) same l
    within (inr n) =
        let a : lookup q (insert r.path id paths)
            ≡ (if eqb r.path q then some id else lookup q paths) =
          lookup-insert r.path q id paths in
        let f : lookup q (insert r.path id paths) ≡ lookup q paths = rw n at a in
        let e : lookup q paths ≡ some k = sym f ∙ h in Extends-lt b b₁ k g.extends (p q k e)

repo_placed-Stepped :
    (r : Repo) (b : Builder) (paths : Dict ℕ) (o : Option (ℕ × Builder))
    → r.is_worktree ≡ false
    → Places b paths
    → Holds (Found (trim_slashes r.rel) b) o
    → Holds (Stepped IsPlaced IsListed AreApart (place_repo) r (b, paths)) (repo_placed r paths o)
repo_placed-Stepped r b paths none w p h = tt
repo_placed-Stepped r b paths (some (id, b₁)) w p ((l, g), (t, (named, found))) =
    let (c, at, kind) = t in
    (
      (
        (
          change-IsSound id (with_repo r) (λ c. refl) b₁
              (λ d at_d k. checkout-IsKinded r id b₁ t d at_d) g.sound,
          named.distinct,
        ),
        checkout-Places r id b b₁ paths (l, g) p,
      ),
      (λ e. (id, found, with_repo r c, change-same id (with_repo r) b₁.cells c at, refl)),
      λ y apart q e. checkout_stays r y id b b₁ ((l, g), (t, (named, found))) (apart e w) (q e),
    )

pub place_repo-Stepped :
    (r : Repo) (p : Placed)
    → IsPlaced p
    → Holds (Stepped IsPlaced IsListed AreApart place_repo r p) (place_repo r p)
unfolding place_repo
place_repo-Stepped r (b, paths) i =
    if-cases (Stepped IsPlaced IsListed AreApart place_repo r (b, paths)) r.is_worktree
      (some (b, paths)) _ (λ w. (i, (λ e. absurd (cc (w, e))), λ y a q. q))
      (λ w. repo_placed-Stepped r b paths (place r.rel repo b) w i.1 (place_repo-Found r b i.0))
