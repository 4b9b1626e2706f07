-- ===== src/Tree/Build/Covering.antt =====
-- tree.go: the loops of Build, by what they bring about for each member of their lists.
use mathlib.Core.List.{Memᴰ}
use mathlib.Core.List.Memᴰ
use repo_man.Tree.Build.{each}
use repo_man.Tree.Build.Cells.{Holds}
use repo_man.Tree.Build.Naming.{map-Holds}
use repo_man.Base.{◌≡◌, refl, sym, subst, ◌⊎◌, inl, inr, List, [], ◌∷◌, Option, none, some}

-- The members of a list stand apart, each from those after it.
abbrev pub Apart : {A : Type 0} → (A → A → Type 0) → List A → Type 0
Apart R [] = Unit
Apart {A = A} R (x ∷ xs) = ((y : A) → Memᴰ y xs → R x y) × Apart R xs

-- A loop whose step for a member brings about Q of it, and keeps Q of those that stand apart.
module _ {A S : Type 0} (P : S → Type 0) (Q : A → S → Type 0) (R : A → A → Type 0)
    (f : A → S → Option S) where
  abbrev pub Stepped : A → S → S → Type 0
  Stepped x s s' = P s' × Q x s' × ((y : A) → R y x → Q y s → Q y s')

  abbrev pub Covered : List A → S → S → Type 0
  Covered xs s s' =
      P s'
      × ((x : A) → Memᴰ x xs → Q x s')
      × ((y : A) → ((x : A) → Memᴰ x xs → R y x) → Q y s → Q y s')

  module _ (step : (x : A) (s : S) → P s → Holds (Stepped x s) (f x s)) where
    each-none : (T : S → Type 0) (xs : List A) → Holds T (each f xs none)
    each-none T [] = tt
    each-none T (x ∷ xs) = tt

    Covered-cons :
        (x : A) (xs : List A) (s s₁ s₂ : S)
        → ((y : A) → Memᴰ y xs → R x y)
        → Stepped x s s₁
        → Covered xs s₁ s₂
        → Covered (x ∷ xs) s s₂
    Covered-cons x xs s s₁ s₂ a t c = (
      c.0,
      (λ y m. member y (Memᴰ.cases_cons m)),
      λ y r q. c.2 y (λ z m. r z (Memᴰ.tail m)) (t.2 y (r x (Memᴰ.head refl)) q),
    )
      where
        member : (y : A) → (y ≡ x) ⊎ Memᴰ y xs → Q y s₂
        member y (inl e) = subst (λ z. Q z s₂) (sym e) (c.2 x a t.1)
        member y (inr m) = c.1 y m

    pub each-Covered :
        (xs : List A) (s : S) → Apart R xs → P s → Holds (Covered xs s) (each f xs (some s))
    each-Covered [] s a p = (p, (λ x m. absurd (Memᴰ.not-nil m)), λ y r q. q)
    each-Covered (x ∷ xs) s a p = stepped (λ s₁ p₁. each-Covered xs s₁ a.1 p₁) (f x s) (step x s p)
      where
        stepped :
            ((s₁ : S) → P s₁ → Holds (Covered xs s₁) (each f xs (some s₁)))
            → (o : Option S) → Holds (Stepped x s) o
            → Holds (Covered (x ∷ xs) s) (each f xs o)
        stepped ih none h = each-none (Covered (x ∷ xs) s) xs
        stepped ih (some s₁) h =
            map-Holds (Covered xs s₁) (Covered (x ∷ xs) s) (each f xs (some s₁))
              (λ s₂ c. Covered-cons x xs s s₁ s₂ a.0 h c) (ih s₁ h.0)
