-- ===== src/Tree/Keeping.antt =====
-- tree.go: Build as a whole keeps every checkout. Pruning leaves out directories alone, and the sort
-- none.
use mathlib.Core.List.{Memᴰ}
use repo_man.Model.{Repo}
use repo_man.Model.Node.{
  Kind, dir, repo, worktree, ghost, Info, Node, node, Nodes, nil, cons, info, insert_node,
  is_before, sort_node, sort_nodes,
}
use repo_man.Tree.{
  Summary, is_dropped, is_dir, holds, keep_child, prune, prune_children, finish_tree, summarize,
}
use repo_man.Tree.Assembly.{tree_of, build}
use repo_man.Tree.Build.{Input}
use repo_man.Tree.Build.Cells.{Holds}
use repo_man.Tree.Build.Checkouts.{IsComplete, place_all-IsComplete, place_all-IsSound}
use repo_man.Tree.Build.Sound.{IsSound}
use repo_man.Tree.Build.Covering.{Apart}
use repo_man.Tree.Build.Placing.{place_all_returns}
use repo_man.Tree.Build.Primaries.{AreApart}
use repo_man.Tree.Finding.{Within, WithinAny}
use repo_man.Tree.Reaching.{assemble-reaches}
use repo_man.Base.{
  ◌≡◌, refl, ap, sym, subst, ◌∙◌, ◌≢◌, ◌⊎◌, inl, inr, Bool, true, false, ◌&&◌, some, Dict,
  Bool-cases, lookup,
}

-- A node with the fields stands in a tree.
abbrev pub Shows : Info → Node → Type 0
Shows i n = (m : Node) × Within m n × (info m ≡ i)

abbrev ShowsAny : Info → Nodes → Type 0
ShowsAny i ns = (m : Node) × WithinAny m ns × (info m ≡ i)

dir_kind : (k : Kind) (x y : Bool) → (is_dir k && x && y) ≡ true → k ≡ dir
dir_kind dir x y h = refl
dir_kind repo x y h = absurd (cc (h))
dir_kind worktree x y h = absurd (cc (h))
dir_kind ghost x y h = absurd (cc (h))

not_empty : (k : Kind) (y : Bool) → (is_dir k && false && y) ≡ true → ⊥
not_empty dir y h = absurd (cc (h))
not_empty repo y h = absurd (cc (h))
not_empty worktree y h = absurd (cc (h))
not_empty ghost y h = absurd (cc (h))

-- A dropped node is an empty directory.
dropped_info :
    (parents : Dict Bool) (n : Node) (i : Info)
    → is_dropped parents n ≡ true
    → Shows i n
    → i.kind ≡ dir
unfolding is_dropped Within info
dropped_info parents (node j nil) i d (m, inl e, q) =
    let same : j ≡ i = sym (ap info e) ∙ q in
    subst (λ (x : Info). x.kind ≡ dir) same (dir_kind j.kind true (holds (lookup j.rel parents)) d)
dropped_info parents (node j nil) i d (m, inr w, q) = absurd w
dropped_info parents (node j (cons k ks)) i d s =
    absurd (not_empty j.kind (holds (lookup j.rel parents)) d)

later_shown : (i : Info) (n : Node) (ns : Nodes) → ShowsAny i ns → ShowsAny i (cons n ns)
unfolding Within
later_shown i n ns (m, w, q) = (m, inr w, q)

first_shown : (i : Info) (n : Node) (ns : Nodes) → Shows i n → ShowsAny i (cons n ns)
unfolding Within
first_shown i n ns (m, w, q) = (m, inl w, q)

below : (i j : Info) (ns : Nodes) → ShowsAny i ns → Shows i (node j ns)
unfolding Within
below i j ns (m, w, q) = (m, inr w, q)

keep_first :
    (parents : Dict Bool) (i : Info) (n : Node) (ns : Nodes)
    → i.kind ≢ dir
    → Shows i n
    → ShowsAny i (keep_child parents n ns)
unfolding keep_child
keep_first parents i n ns k s = elim (Bool-cases (is_dropped parents n)) [
  | inl y ↦ absurd (k (dropped_info parents n i y s))
  | inr e ↦ rw e (first_shown i n ns s)
]

keep_rest :
    (parents : Dict Bool) (i : Info) (n : Node) (ns : Nodes)
    → ShowsAny i ns
    → ShowsAny i (keep_child parents n ns)
unfolding keep_child
keep_rest parents i n ns s = elim (Bool-cases (is_dropped parents n)) [
  | inl y ↦ rw y s
  | inr e ↦ rw e (later_shown i n ns s)
]

mutual
  unfolding prune Within info

  prune-Shows :
      (parents : Dict Bool) (i : Info) (n m : Node)
      → i.kind ≢ dir
      → Within m n
      → info m ≡ i
      → Shows i (prune parents n)
  prune-Shows parents i (node j ns) m k (inl e) q =
      (node j (prune_children parents ns), inl refl, sym (ap info e) ∙ q)
  prune-Shows parents i (node j ns) m k (inr w) q =
      below i j (prune_children parents ns) (prune_children-Shows parents i ns m k w q)

  prune_children-Shows :
      (parents : Dict Bool) (i : Info) (ns : Nodes) (m : Node)
      → i.kind ≢ dir
      → WithinAny m ns
      → info m ≡ i
      → ShowsAny i (prune_children parents ns)
  prune_children-Shows parents i nil m k w q = absurd w
  prune_children-Shows parents i (cons n ns) m k (inl w) q =
      keep_first parents i (prune parents n) (prune_children parents ns) k
        (prune-Shows parents i n m k w q)
  prune_children-Shows parents i (cons n ns) m k (inr w) q =
      keep_rest parents i (prune parents n) (prune_children parents ns)
        (prune_children-Shows parents i ns m k w q)

insert_first : (i : Info) (n : Node) (ns : Nodes) → Shows i n → ShowsAny i (insert_node n ns)
unfolding insert_node
insert_first i n nil s = first_shown i n nil s
insert_first i n (cons x xs) s = elim (Bool-cases (is_before (info x) (info n))) [
  | inl y ↦ rw y (later_shown i x (insert_node n xs) (insert_first i n xs s))
  | inr e ↦ rw e (first_shown i n (cons x xs) s)
]

insert_rest : (i : Info) (n : Node) (ns : Nodes) → ShowsAny i ns → ShowsAny i (insert_node n ns)
unfolding insert_node Within
insert_rest i n nil (m, w, q) = absurd w
insert_rest i n (cons x xs) (m, w, q) = elim (Bool-cases (is_before (info x) (info n))) [
  | inl y ↦ rw y (moved (λ v. insert_rest i n xs (m, v, q)) w)
  | inr e ↦ rw e (m, inr w, q)
]
  where
    moved :
        (WithinAny m xs → ShowsAny i (insert_node n xs))
        → Within m x ⊎ WithinAny m xs
        → ShowsAny i (cons x (insert_node n xs))
    moved ih (inl v) = first_shown i x (insert_node n xs) (m, v, q)
    moved ih (inr v) = later_shown i x (insert_node n xs) (ih v)

mutual
  unfolding sort_node Within info

  sort-Shows : (i : Info) (n m : Node) → Within m n → info m ≡ i → Shows i (sort_node n)
  sort-Shows i (node j ns) m (inl e) q = (node j (sort_nodes ns), inl refl, sym (ap info e) ∙ q)
  sort-Shows i (node j ns) m (inr w) q = below i j (sort_nodes ns) (sort_nodes-Shows i ns m w q)

  sort_nodes-Shows :
      (i : Info) (ns : Nodes) (m : Node) → WithinAny m ns → info m ≡ i → ShowsAny i (sort_nodes ns)
  sort_nodes-Shows i nil m w q = absurd w
  sort_nodes-Shows i (cons n ns) m (inl w) q =
      insert_first i (sort_node n) (sort_nodes ns) (sort-Shows i n m w q)
  sort_nodes-Shows i (cons n ns) m (inr w) q =
      insert_rest i (sort_node n) (sort_nodes ns) (sort_nodes-Shows i ns m w q)

finish_tree-Shows :
    (parents : Dict Bool) (i : Info) (n m : Node)
    → i.kind ≢ dir
    → Within m n
    → info m ≡ i
    → Shows i (finish_tree parents n).0
unfolding finish_tree
finish_tree-Shows parents i n m k w q =
    let (p, v, e) = prune-Shows parents i n m k w q in sort-Shows i (prune parents n) p v e

-- Build ends and returns a tree with its summary, whatever its input is.
pub build_returns :
    (input : Input)
    → (root : Node) × (s : Summary) × (build input ≡ some (root, s)) × (s ≡ summarize root)
unfolding build tree_of finish_tree
build_returns input =
    let (b, e) = place_all_returns input in
    let s : IsSound b = subst (Holds IsSound) e (place_all-IsSound input) in
    let (root, f, at) = assemble-reaches b s in
    (
      (finish_tree b.worktree_parents root).0,
      (finish_tree b.worktree_parents root).1,
      rw (e, f) refl,
      refl,
    )

-- The tree that Build returns.
pub record IsTreeOf (input : Input) (root : Node) (s : Summary) : Type 0 where
  pub returned : build input ≡ some (root, s)
  pub shown :
      (r : Repo) → Memᴰ r input.repos → (m : Node) × Within m root × ((info m).repo ≡ some r)

-- No checkout is lost: where no two primary checkouts have one path, Build returns a tree, and each
-- checkout of the input, primary or worktree, and whether its primary is there or not, has a node in
-- that tree which carries it.
pub build-IsTreeOf :
    (input : Input)
    → Apart AreApart input.repos
    → (root : Node) × (s : Summary) × IsTreeOf input root s
unfolding build tree_of
build-IsTreeOf input a =
    let (b, e) = place_all_returns input in
    let c : IsComplete input.repos b =
      subst (Holds (IsComplete input.repos)) e (place_all-IsComplete input a) in
    let (root, f, reach) = assemble-reaches b c.0 in
    (
      (finish_tree b.worktree_parents root).0,
      (finish_tree b.worktree_parents root).1,
      record {
        returned = rw (e, f) refl;
        shown = λ r m.
            let (k, cell, at, q) = c.1 r m in
            let (ns, w) = reach k cell at in
            let (n, v, same) =
              finish_tree-Shows b.worktree_parents cell.info root (node cell.info ns)
                (c.0.kinded k cell at r q) w refl in
            (n, v, ap (λ (i : Info). i.repo) same ∙ q);
      },
    )
