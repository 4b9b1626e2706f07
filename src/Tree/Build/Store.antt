-- ===== src/Tree/Build/Store.antt =====
-- tree.go: the store of the cells, under the two ways in which it changes.
use repo_man.Tree.Build.{Cell, change}
use repo_man.Base.{
  ℕ, zero, suc, ◌<◌, ◌≡◌, refl, ap, ◌≢◌, ◌⊎◌, inl, inr, List, [], ◌∷◌, ◌++◌, Option, none, some,
  arith, length,
}

unfoldable pub cell_at : ℕ → List Cell → Option Cell
cell_at n [] = none
cell_at zero (c ∷ cs) = some c
cell_at (suc n) (c ∷ cs) = cell_at n cs

pub length-change : (n : ℕ) (f : Cell → Cell) (cs : List Cell) → length (change n f cs) ≡ length cs
unfolding change
length-change n f [] = refl
length-change zero f (c ∷ cs) = refl
length-change (suc n) f (c ∷ cs) = ap suc (length-change n f cs)

pub cell_at-there : (n : ℕ) (cs : List Cell) → n < length cs → (c : Cell) × (cell_at n cs ≡ some c)
unfolding cell_at
cell_at-there n [] h = absurd (omega (arith, h))
cell_at-there zero (c ∷ cs) h = (c, refl)
cell_at-there (suc n) (c ∷ cs) h = cell_at-there n cs (omega (arith, h))

pub cell_at-lt : (n : ℕ) (cs : List Cell) (c : Cell) → cell_at n cs ≡ some c → n < length cs
unfolding cell_at
cell_at-lt n [] c h = absurd (cc (h))
cell_at-lt zero (d ∷ cs) c h = omega arith
cell_at-lt (suc n) (d ∷ cs) c h = let i = cell_at-lt n cs c h in omega (arith, i)

-- The cell that is changed, and the others.
pub change-same :
    (n : ℕ) (f : Cell → Cell) (cs : List Cell) (c : Cell)
    → cell_at n cs ≡ some c
    → cell_at n (change n f cs) ≡ some (f c)
unfolding cell_at change
change-same n f [] c h = absurd (cc (h))
change-same zero f (d ∷ cs) c h = let e : d ≡ c = cc in ap (λ x. some (f x)) e
change-same (suc n) f (d ∷ cs) c h = change-same n f cs c h

pub change-other :
    (n k : ℕ) (f : Cell → Cell) (cs : List Cell) → n ≢ k → cell_at k (change n f cs) ≡ cell_at k cs
unfolding cell_at change
change-other n k f [] h = refl
change-other zero zero f (d ∷ cs) h = absurd (h refl)
change-other zero (suc k) f (d ∷ cs) h = refl
change-other (suc n) zero f (d ∷ cs) h = refl
change-other (suc n) (suc k) f (d ∷ cs) h = change-other n k f cs (λ e. h (ap suc e))

pub append-old :
    (k : ℕ) (cs ds : List Cell) (c : Cell) → cell_at k cs ≡ some c → cell_at k (cs ++ ds) ≡ some c
unfolding cell_at
append-old k [] ds c h = absurd (cc (h))
append-old zero (d ∷ cs) ds c h = h
append-old (suc k) (d ∷ cs) ds c h = append-old k cs ds c h

pub append-new : (cs : List Cell) (c : Cell) → cell_at (length cs) (cs ++ c ∷ []) ≡ some c
unfolding cell_at
append-new [] c = refl
append-new (d ∷ cs) c = append-new cs c

-- A cell of an extended store is an old one, or the new one.
pub append-cases :
    (k : ℕ) (cs : List Cell) (d c : Cell)
    → cell_at k (cs ++ d ∷ []) ≡ some c
    → (cell_at k cs ≡ some c) ⊎ ((k ≡ length cs) × (c ≡ d))
unfolding cell_at
append-cases zero [] d c h = inr (refl, cc)
append-cases (suc k) [] d c h = absurd (cc (h))
append-cases zero (e ∷ cs) d c h = inl h
append-cases (suc k) (e ∷ cs) d c h = elim (append-cases k cs d c h) [
  | inl o ↦ inl o
  | inr (l, s) ↦ inr (ap suc l, s)
]

-- The cell at a place after a change, and the one before it.
pub change-cases :
    (n k : ℕ) (f : Cell → Cell) (cs : List Cell) (c : Cell)
    → cell_at k (change n f cs) ≡ some c
    → (cell_at k cs ≡ some c) ⊎ ((n ≡ k) × ((d : Cell) × (cell_at k cs ≡ some d) × (c ≡ f d)))
unfolding cell_at change
change-cases n k f [] c h = absurd (cc (h))
change-cases zero zero f (d ∷ cs) c h = inr (refl, (d, refl, cc))
change-cases zero (suc k) f (d ∷ cs) c h = inl h
change-cases (suc n) zero f (d ∷ cs) c h = inl h
change-cases (suc n) (suc k) f (d ∷ cs) c h = elim (change-cases n k f cs c h) [
  | inl o ↦ inl o
  | inr (e, r) ↦ inr (ap suc e, r)
]

-- A changed store has at each place a cell again.
pub change-kept :
    (n k : ℕ) (f : Cell → Cell) (cs : List Cell) (c : Cell)
    → cell_at k cs ≡ some c
    → (cell_at k (change n f cs) ≡ some c) ⊎ (cell_at k (change n f cs) ≡ some (f c))
unfolding cell_at change
change-kept n k f [] c h = absurd (cc (h))
change-kept zero zero f (d ∷ cs) c h = inr (let e : d ≡ c = cc in ap (λ x. some (f x)) e)
change-kept zero (suc k) f (d ∷ cs) c h = inl h
change-kept (suc n) zero f (d ∷ cs) c h = inl h
change-kept (suc n) (suc k) f (d ∷ cs) c h = change-kept n k f cs c h
