-- ===== src/Tree/Build/Sound.antt =====
-- tree.go: the pointers of the store. Each leads from a cell to a later one, and every cell but the
-- root is led to.
use mathlib.Core.List.{Memᴰ}
use mathlib.Core.List.Memᴰ
use repo_man.Model.{Repo}
use repo_man.Model.Node.{Info, dir}
use repo_man.Tree.Build.{Cell, Builder, add_child, change, link, register}
use repo_man.Tree.Build.Store.{
  cell_at, length-change, cell_at-there, change-same, append-old, append-cases, change-cases,
  change-kept,
}
use repo_man.Base.{
  ℕ, suc, ◌-◌, ◌<◌, ◌≡◌, refl, ap, sym, subst, ◌∙◌, ◌≢◌, ◌⊎◌, inl, inr, List, [], ◌∷◌, some, Str,
  arith, length, length-append, lookup, lookup-insert, ltb, ltb→lt, Bool-cases,
}

-- The cells that lead to a place.
abbrev pub Parent : ℕ → List Cell → Type 0
Parent k cs = (p : ℕ) × (c : Cell) × (cell_at p cs ≡ some c) × Memᴰ k c.children

-- A node with a checkout is no directory.
abbrev pub IsKinded : Info → Type 0
IsKinded i = (r : Repo) → i.repo ≡ some r → i.kind ≢ dir

pub record IsSound (b : Builder) : Type 0 where
  pub begun : 0 < length b.cells
  pub forward :
      (k : ℕ) (c : Cell)
      → cell_at k b.cells ≡ some c
      → (id : ℕ) → Memᴰ id c.children
      → (k < id) × (id < length b.cells)
  pub rooted : (k : ℕ) → 0 < k → k < length b.cells → Parent k b.cells
  pub named : (q : Str) (k : ℕ) → lookup q b.nodes ≡ some k → k < length b.cells
  pub kinded : (k : ℕ) (c : Cell) → cell_at k b.cells ≡ some c → IsKinded c.info

-- No cell loses its checkout.
pub record Extends (b b' : Builder) : Type 0 where
  pub cells :
      (k : ℕ) (c : Cell)
      → cell_at k b.cells ≡ some c
      → (c' : Cell) × (cell_at k b'.cells ≡ some c') × (c'.info.repo ≡ c.info.repo)

pub Extends-refl : (b : Builder) → Extends b b
Extends-refl b = record { cells = λ k c h. (c, h, refl) }

pub Extends-trans : (a b c : Builder) → Extends a b → Extends b c → Extends a c
Extends-trans a b c f g = record {
  cells = λ k x h.
      let (y, hy, ey) = f.cells k x h in let (z, hz, ez) = g.cells k y hy in (z, hz, ez ∙ ey);
}

-- A change that keeps the children and the kinds.
module _ (n : ℕ) (f : Cell → Cell) (same : (c : Cell) → (f c).children ≡ c.children) where
  change-Parent : (k : ℕ) (cs : List Cell) → Parent k cs → Parent k (change n f cs)
  change-Parent k cs (p, c, h, m) = elim (change-kept n p f cs c h) [
    | inl e ↦ (p, c, e, m)
    | inr e ↦ (p, f c, e, subst (Memᴰ k) (sym (same c)) m)
  ]

  pub change-IsSound :
      (b : Builder)
      → ((c : Cell) → cell_at n b.cells ≡ some c → IsKinded c.info → IsKinded (f c).info)
      → IsSound b
      → IsSound (record b { cells = change n f b.cells })
  change-IsSound b keep s = record {
    begun = subst (λ l. 0 < l) (sym len) s.begun;
    forward = λ k c h id m. elim (change-cases n k f b.cells c h) [
      | inl o ↦ let g = s.forward k c o id m in (g.0, subst (λ l. id < l) (sym len) g.1)
      | inr (e, (d, o, q)) ↦
          let g =
            s.forward k d o id (subst (Memᴰ id) (ap (λ (x : Cell). x.children) q ∙ same d) m) in
          (g.0, subst (λ l. id < l) (sym len) g.1)
    ];
    rooted = λ k z l. change-Parent k b.cells (s.rooted k z (subst (λ l. k < l) len l));
    named = λ q k h. subst (λ l. k < l) (sym len) (s.named q k h);
    kinded = λ k c h. elim (change-cases n k f b.cells c h) [
      | inl o ↦ s.kinded k c o
      | inr (e, (d, o, q)) ↦
          subst (λ (x : Cell). IsKinded x.info) (sym q)
            (keep d (subst (λ j. cell_at j b.cells ≡ some d) (sym e) o) (s.kinded k d o))
    ];
  }
    where
      len : length (change n f b.cells) ≡ length b.cells
      len = length-change n f b.cells

  pub change-Extends :
      (b : Builder)
      → ((c : Cell) → (f c).info.repo ≡ c.info.repo)
      → Extends b (record b { cells = change n f b.cells })
  change-Extends b keep = record {
    cells = λ k c h. elim (change-kept n k f b.cells c h) [
      | inl e ↦ (c, e, refl)
      | inr e ↦ (f c, e, keep c)
    ];
  }

-- A new cell, linked from one that is there.
module _ (parent : ℕ) (i : Info) (b : Builder) where
  abbrev new_cell : Cell
  new_cell = record { info = i; children = [] }

  abbrev changed : List Cell
  changed = change parent (add_child (length b.cells)) b.cells

  pub link-length : length (link parent i b).cells ≡ suc (length b.cells)
  unfolding link
  link-length =
      let a = length-append changed (new_cell ∷ []) in
      let c = length-change parent (add_child (length b.cells)) b.cells in omega (arith, a, c)

  old_cell :
      (k : ℕ) (c : Cell)
      → cell_at k b.cells ≡ some c
      → (cell_at k (link parent i b).cells ≡ some c)
        ⊎ (cell_at k (link parent i b).cells ≡ some (add_child (length b.cells) c))
  unfolding link
  old_cell k c h = elim (change-kept parent k (add_child (length b.cells)) b.cells c h) [
    | inl e ↦ inl (append-old k changed (new_cell ∷ []) c e)
    | inr e ↦ inr (append-old k changed (new_cell ∷ []) _ e)
  ]

  -- A cell of the new store: an old one, the parent with its new child, or the new one.
  data Linked (k : ℕ) (c : Cell) : Type 0 where
    kept : cell_at k b.cells ≡ some c → Linked k c
    parent_cell :
        (d : Cell)
        → parent ≡ k
        → cell_at k b.cells ≡ some d
        → c ≡ add_child (length b.cells) d
        → Linked k c
    fresh : k ≡ length b.cells → c ≡ new_cell → Linked k c

  link-cases : (k : ℕ) (c : Cell) → cell_at k (link parent i b).cells ≡ some c → Linked k c
  unfolding link
  link-cases k c h = elim (append-cases k changed new_cell c h) [
    | inr (l, q) ↦ fresh (l ∙ length-change parent (add_child (length b.cells)) b.cells) q
    | inl o ↦ elim (change-cases parent k (add_child (length b.cells)) b.cells c o) [
      | inl e ↦ kept e
      | inr (e, (d, g, q)) ↦ parent_cell d e g q
    ]
  ]

  pub link-Extends : Extends b (link parent i b)
  link-Extends = record {
    cells = λ k c h. elim (old_cell k c h) [
      | inl e ↦ (c, e, refl)
      | inr e ↦ (add_child (length b.cells) c, e, refl)
    ];
  }

  old-Parent : (k : ℕ) → Parent k b.cells → Parent k (link parent i b).cells
  old-Parent k (p, c, h, m) = elim (old_cell p c h) [
    | inl e ↦ (p, c, e, m)
    | inr e ↦ (p, add_child (length b.cells) c, e, Memᴰ.append_left (length b.cells ∷ []) m)
  ]

  new-Parent : parent < length b.cells → Parent (length b.cells) (link parent i b).cells
  unfolding link
  new-Parent l =
      let (c, h) = cell_at-there parent b.cells l in
      (
        parent,
        add_child (length b.cells) c,
        append-old parent changed (new_cell ∷ []) _
            (change-same parent (add_child (length b.cells)) b.cells c h),
        Memᴰ.append_right c.children (Memᴰ.head refl),
      )

  Linked-forward :
      IsSound b
      → parent < length b.cells
      → (k : ℕ) (c : Cell) → Linked k c
      → (id : ℕ) → Memᴰ id c.children
      → (k < id) × (id < suc (length b.cells))
  Linked-forward s l k c (kept o) id m = let g = s.forward k c o id m in (g.0, omega (arith, g.1))
  Linked-forward s l k c (parent_cell d e o q) id m =
      elim (Memᴰ.append_cases d.children (subst (Memᴰ id) (ap (λ (x : Cell). x.children) q) m)) [
        | inl old ↦ let g = s.forward k d o id old in (g.0, omega (arith, g.1))
        | inr new ↦ elim (Memᴰ.cases_cons new) [
          | inl same ↦ (omega (arith, l, e, same), omega (arith, same))
          | inr none_left ↦ absurd (Memᴰ.not-nil none_left)
        ]
      ]
  Linked-forward s l k c (fresh e q) id m =
      absurd (Memᴰ.not-nil (subst (Memᴰ id) (ap (λ (x : Cell). x.children) q) m))

  Linked-IsKinded : IsSound b → IsKinded i → (k : ℕ) (c : Cell) → Linked k c → IsKinded c.info
  Linked-IsKinded s t k c (kept o) = s.kinded k c o
  Linked-IsKinded s t k c (parent_cell d e o q) =
      subst (λ (x : Cell). IsKinded x.info) (sym q) (s.kinded k d o)
  Linked-IsKinded s t k c (fresh e q) = subst (λ (x : Cell). IsKinded x.info) (sym q) t

  Linked-rooted :
      IsSound b
      → parent < length b.cells
      → (k : ℕ) → 0 < k
      → k < suc (length b.cells)
      → Parent k (link parent i b).cells
  Linked-rooted s l k z h = elim (Bool-cases (ltb k (length b.cells))) [
    | inl y ↦ old-Parent k (s.rooted k z (ltb→lt k (length b.cells) y))
    | inr n ↦
        let e : length b.cells ≡ k = ground (arith, h, n) in
        subst (λ j. Parent j (link parent i b).cells) e (new-Parent l)
  ]

  pub link-IsSound : IsSound b → parent < length b.cells → IsKinded i → IsSound (link parent i b)
  link-IsSound s l t = record {
    begun = omega (arith, link-length);
    forward = λ k c h id m.
        let g = Linked-forward s l k c (link-cases k c h) id m in
        (g.0, omega (arith, g.1, link-length));
    rooted = λ k z h. Linked-rooted s l k z (omega (arith, h, link-length));
    named = λ q k h.
        let g : k < length b.cells = s.named q k (unfold link in h) in
        omega (arith, g, link-length);
    kinded = λ k c h. Linked-IsKinded s t k c (link-cases k c h);
  }

pub register-IsSound : (rel : Str) (b : Builder) → IsSound b → IsSound (register rel b)
unfolding register
register-IsSound rel b s = record {
  begun = s.begun;
  forward = s.forward;
  rooted = s.rooted;
  named = λ q k h.
      ground (arith, lookup-insert rel q (length b.cells - 1) b.nodes, s.begun, s.named q k, h);
  kinded = s.kinded;
}

pub register-Extends : (rel : Str) (b : Builder) → Extends b (register rel b)
unfolding register
register-Extends rel b = record { cells = λ k c h. (c, h, refl) }
