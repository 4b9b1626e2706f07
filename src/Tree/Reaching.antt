-- ===== src/Tree/Reaching.antt =====
-- tree.go: the tree that the pointers of a sound store make: every cell stands in it.
use mathlib.Core.List.{Memᴰ}
use mathlib.Core.List.Memᴰ
use repo_man.Model.Node.{Info, Node, node, Nodes, nil, cons}
use repo_man.Tree.Assembly.{stored, later, push, children_of, assemble, first_node}
use repo_man.Tree.Build.{Cell, Builder}
use repo_man.Tree.Build.Store.{cell_at, cell_at-there, cell_at-lt}
use repo_man.Tree.Build.Sound.{IsSound}
use repo_man.Tree.Finding.{Within, WithinAny}
use repo_man.Base.{
  ℕ, zero, suc, ◌+◌, ◌-◌, ◌<◌, ◌≡◌, refl, sym, subst, ◌∙◌, inl, inr, false, List, [], ◌∷◌, Option,
  none, some, arith, leb, length,
}

pub Within-self : (n : Node) → Within n n
unfolding Within
Within-self (node i ns) = inl refl

mutual
  unfolding Within

  -- A child of a node of a tree is a node of the tree.
  pub Within-child :
      (m : Node) (i : Info) (ns : Nodes) (root : Node)
      → WithinAny m ns
      → Within (node i ns) root
      → Within m root
  Within-child m i ns (node j ks) w (inl e) =
      let same : ns ≡ ks = cc in inr (subst (WithinAny m) same w)
  Within-child m i ns (node j ks) w (inr h) = inr (WithinAny-child m i ns ks w h)

  WithinAny-child :
      (m : Node) (i : Info) (ns ks : Nodes)
      → WithinAny m ns
      → WithinAny (node i ns) ks
      → WithinAny m ks
  WithinAny-child m i ns nil w h = h
  WithinAny-child m i ns (cons k ks) w (inl h) = inl (Within-child m i ns k w h)
  WithinAny-child m i ns (cons k ks) w (inr h) = inr (WithinAny-child m i ns ks w h)

pushed : (m : Node) (o : Option Node) (ns : Nodes) → WithinAny m ns → WithinAny m (push o ns)
unfolding Within
pushed m none ns w = w
pushed m (some n) ns w = inr w

later-some :
    (own id : ℕ) (rest : List Node) (m : Node)
    → own < id
    → stored (id - suc own) rest ≡ some m
    → later own id rest ≡ some m
later-some own id rest m l h = let e : leb id own ≡ false = ground (arith, l) in rw e h

children_of-mem :
    (own id : ℕ) (ids : List ℕ) (rest : List Node) (m : Node)
    → Memᴰ id ids
    → own < id
    → stored (id - suc own) rest ≡ some m
    → WithinAny m (children_of own ids rest)
unfolding children_of Within
children_of-mem own id [] rest m d l h = absurd (Memᴰ.not-nil d)
children_of-mem own id (x ∷ xs) rest m d l h = elim (Memᴰ.cases_cons d) [
  | inl e ↦
      let q : later own x rest ≡ some m =
        subst (λ j. later own j rest ≡ some m) e (later-some own id rest m l h) in
      rw q (inl (Within-self m))
  | inr t ↦
      pushed m (later own x rest) (children_of own xs rest) (children_of-mem own id xs rest m t l h)
]

-- The node of a cell: its fields, and its children.
pub record IsNodeOf (own k : ℕ) (cs : List Cell) (c : Cell) : Type 0 where
  pub children : Nodes
  pub at : stored k (assemble own cs) ≡ some (node c.info children)
  pub child :
      (id : ℕ) (m : Node)
      → Memᴰ id c.children
      → own + k < id
      → stored (id - own) (assemble own cs) ≡ some m
      → WithinAny m children

pub assemble-IsNodeOf :
    (own k : ℕ) (cs : List Cell) (c : Cell) → cell_at k cs ≡ some c → IsNodeOf own k cs c
unfolding assemble cell_at stored
assemble-IsNodeOf own k [] c h = absurd (cc (h))
assemble-IsNodeOf own zero (d ∷ cs) c h =
    let e : d ≡ c = cc in
    subst (IsNodeOf own zero (d ∷ cs)) e (record {
      children = children_of own d.children (assemble (suc own) cs);
      at = refl;
      child = λ id m t l g.
          let s : id - own ≡ suc (id - suc own) = omega (arith, l) in
          children_of-mem own id d.children (assemble (suc own) cs) m t (omega (arith, l))
            (subst (λ j. stored j (assemble own (d ∷ cs)) ≡ some m) s g);
    })
assemble-IsNodeOf own (suc k) (d ∷ cs) c h =
    let n = assemble-IsNodeOf (suc own) k cs c h in
    record {
      children = n.children;
      at = n.at;
      child = λ id m t l g.
          let s : id - own ≡ suc (id - suc own) = omega (arith, l) in
          n.child id m t (omega (arith, l))
            (subst (λ j. stored j (assemble own (d ∷ cs)) ≡ some m) s g);
    }

-- Every node of a sound store stands in the tree below the first one; f bounds its place.
reached :
    (f k : ℕ) (b : Builder) (root m : Node)
    → IsSound b
    → k < f
    → stored 0 (assemble 0 b.cells) ≡ some root
    → stored k (assemble 0 b.cells) ≡ some m
    → k < length b.cells
    → Within m root
reached zero k b root m s l z h len = absurd (omega (arith, l))
reached (suc f) zero b root m s l z h len =
    let e : some root ≡ some m = sym z ∙ h in
    let same : root ≡ m = cc in subst (λ n. Within n root) same (Within-self root)
reached (suc f) (suc k) b root m s l z h len =
    let (p, c, at, d) = s.rooted (suc k) (omega arith) len in
    let fw = s.forward p c at (suc k) d in
    let n = assemble-IsNodeOf 0 p b.cells c at in
    let whole : suc k ≡ suc k - 0 = omega arith in
    Within-child m c.info n.children root
      (n.child (suc k) m d (omega (arith, fw.0))
        (subst (λ j. stored j (assemble 0 b.cells) ≡ some m) whole h))
      (reached f p b root (node c.info n.children) s (omega (arith, l, fw.0)) z n.at
        (omega (arith, fw.0, len)))

first_stored : (ns : List Node) (n : Node) → stored 0 ns ≡ some n → first_node ns ≡ some n
unfolding stored
first_stored [] n h = h
first_stored (m ∷ ns) n h = h

-- The first node of a sound store is there, and below it every cell has a node with its fields.
pub assemble-reaches :
    (b : Builder)
    → IsSound b
    → (root : Node) × (first_node (assemble 0 b.cells) ≡ some root)
      × ((k : ℕ) (c : Cell)
          → cell_at k b.cells ≡ some c
          → (ns : Nodes) × Within (node c.info ns) root)
assemble-reaches b s =
    let (c₀, at₀) = cell_at-there 0 b.cells s.begun in
    let n₀ = assemble-IsNodeOf 0 0 b.cells c₀ at₀ in
    (
      node c₀.info n₀.children,
      first_stored (assemble 0 b.cells) (node c₀.info n₀.children) n₀.at,
      λ k c at.
          let n = assemble-IsNodeOf 0 k b.cells c at in
          (
            n.children,
            reached (suc k) k b (node c₀.info n₀.children) (node c.info n.children) s (omega arith)
                n₀.at n.at (cell_at-lt k b.cells c at),
          ),
    )
