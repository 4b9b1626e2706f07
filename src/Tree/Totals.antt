-- ===== src/Tree/Totals.antt =====
-- tree.go: what the pruning and the sort of the tree leave of its summary.
use repo_man.Model.Node.{
  Kind, dir, repo, worktree, ghost, Info, Node, node, Nodes, nil, cons, info, is_before,
  insert_node, sort_node, sort_nodes,
}
use repo_man.Model.{Repo}
use repo_man.Tree.{
  add_kind, add_repo, add_status, is_dir, is_dropped, keep_child, prune, prune_children, Summary,
  add_info, tally, tally_children, no_summary, summarize, finish_tree,
}
use repo_man.Base.{
  eqb, [], ◌+◌, ◌≡◌, refl, ap, sym, ◌∙◌, Bool, true, inl, inr, arith, Option, none, some, Dict,
  Bool-cases,
}

-- The sum of two summaries.
abbrev pub plus : Summary → Summary → Summary
plus s t = record {
  repos = s.repos + t.repos;
  worktrees = s.worktrees + t.worktrees;
  ghosts = s.ghosts + t.ghosts;
  dirty = s.dirty + t.dirty;
  ahead = s.ahead + t.ahead;
  behind = s.behind + t.behind;
  errors = s.errors + t.errors;
}

same_summary :
    (s t : Summary)
    → s.repos ≡ t.repos
    → s.worktrees ≡ t.worktrees
    → s.ghosts ≡ t.ghosts
    → s.dirty ≡ t.dirty
    → s.ahead ≡ t.ahead
    → s.behind ≡ t.behind
    → s.errors ≡ t.errors
    → s ≡ t
same_summary s t a b c d e f g = cc

plus_assoc : (s t u : Summary) → plus (plus s t) u ≡ plus s (plus t u)
plus_assoc s t u =
    same_summary _ _ (omega arith) (omega arith) (omega arith) (omega arith) (omega arith)
      (omega arith) (omega arith)

plus_comm : (s t : Summary) → plus s t ≡ plus t s
plus_comm s t =
    same_summary _ _ (omega arith) (omega arith) (omega arith) (omega arith) (omega arith)
      (omega arith) (omega arith)

plus_zero : (s : Summary) → plus s no_summary ≡ s
plus_zero s =
    same_summary _ _ (omega arith) (omega arith) (omega arith) (omega arith) (omega arith)
      (omega arith) (omega arith)

-- What one node counts for.
abbrev pub counts : Info → Summary
counts i = add_info i no_summary

zero_plus : (s : Summary) → plus no_summary s ≡ s
zero_plus s = plus_comm no_summary s ∙ plus_zero s

add_kind-plus : (k : Kind) (s t : Summary) → add_kind k (plus s t) ≡ plus (add_kind k s) t
add_kind-plus dir s t = refl
add_kind-plus repo s t =
    same_summary _ _ (omega arith) (omega arith) (omega arith) (omega arith) (omega arith)
      (omega arith) (omega arith)
add_kind-plus worktree s t =
    same_summary _ _ (omega arith) (omega arith) (omega arith) (omega arith) (omega arith)
      (omega arith) (omega arith)
add_kind-plus ghost s t =
    same_summary _ _ (omega arith) (omega arith) (omega arith) (omega arith) (omega arith)
      (omega arith) (omega arith)

add_repo-plus : (r : Option Repo) (s t : Summary) → add_repo r (plus s t) ≡ plus (add_repo r s) t
add_repo-plus none s t = refl
add_repo-plus (some r) s t = elim (Bool-cases (eqb r.error [])) [
  | inl y ↦ rw y (
      unfold add_status in
      same_summary _ _ (omega arith) (omega arith) (omega arith) (omega arith) (omega arith)
        (omega arith) (omega arith))
  | inr n ↦ rw n (
      same_summary _ _ (omega arith) (omega arith) (omega arith) (omega arith) (omega arith)
        (omega arith) (omega arith))
]

add_info-plus : (i : Info) (s : Summary) → add_info i s ≡ plus (counts i) s
unfolding add_info
add_info-plus i s =
    ap (add_info i) (sym (zero_plus s))
    ∙ ap (add_repo i.repo) (add_kind-plus i.kind no_summary s)
    ∙ add_repo-plus i.repo (add_kind i.kind no_summary) s

-- The total of a tree, by recursion.
unfoldable mutual
  pub total : Node → Summary
  total (node i ns) = plus (counts i) (total_children ns)

  pub total_children : Nodes → Summary
  total_children nil = no_summary
  total_children (cons n ns) = plus (total n) (total_children ns)

mutual
  unfolding tally total

  tally-plus : (n : Node) (s : Summary) → tally n s ≡ plus (total n) s
  tally-plus (node i ns) s =
      tally_children-plus ns (add_info i s)
      ∙ ap (plus (total_children ns)) (add_info-plus i s)
      ∙ sym (plus_assoc (total_children ns) (counts i) s)
      ∙ ap (λ t. plus t s) (plus_comm (total_children ns) (counts i))

  tally_children-plus :
      (ns : Nodes) (s : Summary) → tally_children ns s ≡ plus (total_children ns) s
  tally_children-plus nil s = sym (zero_plus s)
  tally_children-plus (cons n ns) s =
      tally_children-plus ns (tally n s)
      ∙ ap (plus (total_children ns)) (tally-plus n s)
      ∙ sym (plus_assoc (total_children ns) (total n) s)
      ∙ ap (λ t. plus t s) (plus_comm (total_children ns) (total n))

summarize-total : (n : Node) → summarize n ≡ total n
unfolding summarize
summarize-total n = tally-plus n no_summary ∙ plus_zero (total n)

swap : (s t u : Summary) → plus s (plus t u) ≡ plus t (plus s u)
swap s t u = sym (plus_assoc s t u) ∙ ap (λ v. plus v u) (plus_comm s t) ∙ plus_assoc t s u

total-insert_node :
    (n : Node) (ns : Nodes) → total_children (insert_node n ns) ≡ plus (total n) (total_children ns)
unfolding insert_node total
total-insert_node n nil = refl
total-insert_node n (cons m ms) = elim (Bool-cases (is_before (info m) (info n))) [
  | inl y ↦
      rw y (
        ap (plus (total m)) (total-insert_node n ms) ∙ swap (total m) (total n) (total_children ms))
  | inr y ↦ rw y refl
]

mutual
  unfolding sort_node total

  total-sort_node : (n : Node) → total (sort_node n) ≡ total n
  total-sort_node (node i ns) = ap (plus (counts i)) (total-sort_nodes ns)

  total-sort_nodes : (ns : Nodes) → total_children (sort_nodes ns) ≡ total_children ns
  total-sort_nodes nil = refl
  total-sort_nodes (cons n ns) =
      total-insert_node (sort_node n) (sort_nodes ns)
      ∙ ap (plus (total (sort_node n))) (total-sort_nodes ns)
      ∙ ap (λ s. plus s (total_children ns)) (total-sort_node n)

-- No directory of the tree carries the status of a checkout.
unfoldable mutual
  pub IsBare : Node → Type 0
  IsBare (node i ns) = (i.kind ≡ dir → i.repo ≡ none) × AreBare ns

  pub AreBare : Nodes → Type 0
  AreBare nil = Unit
  AreBare (cons n ns) = IsBare n × AreBare ns

counts_dir : (i : Info) → i.kind ≡ dir → i.repo ≡ none → counts i ≡ no_summary
unfolding add_info
counts_dir i k r = rw (k, r) refl

is_dir-dir : (k : Kind) → is_dir k ≡ true → k ≡ dir
is_dir-dir dir h = refl
is_dir-dir repo h = cc
is_dir-dir worktree h = cc
is_dir-dir ghost h = cc

-- A dropped node counts for nothing.
dropped :
    (parents : Dict Bool) (n : Node) → IsBare n → is_dropped parents n ≡ true → total n ≡ no_summary
unfolding IsBare is_dropped total
dropped parents (node i nil) b h =
    let d : is_dir i.kind ≡ true = ground arith in
    let k = is_dir-dir i.kind d in plus_zero (counts i) ∙ counts_dir i k (b.0 k)
dropped parents (node i (cons n ns)) b h = absurd (ground arith)

keep_child-AreBare :
    (parents : Dict Bool) (n : Node) (ns : Nodes)
    → IsBare n
    → AreBare ns
    → AreBare (keep_child parents n ns)
unfolding keep_child IsBare
keep_child-AreBare parents n ns b bs = elim (Bool-cases (is_dropped parents n)) [
  | inl y ↦ rw (y, keep_child) bs
  | inr y ↦ rw (y, keep_child) (b, bs)
]

total-keep_child :
    (parents : Dict Bool) (n : Node) (ns : Nodes)
    → IsBare n
    → total_children (keep_child parents n ns) ≡ plus (total n) (total_children ns)
unfolding keep_child total
total-keep_child parents n ns b = elim (Bool-cases (is_dropped parents n)) [
  | inl y ↦
      rw (y, keep_child)
        (sym (zero_plus (total_children ns))
          ∙ ap (λ s. plus s (total_children ns)) (sym (dropped parents n b y)))
  | inr y ↦ rw (y, keep_child) refl
]

mutual
  unfolding prune IsBare

  prune-IsBare : (parents : Dict Bool) (n : Node) → IsBare n → IsBare (prune parents n)
  prune-IsBare parents (node i ns) b = (b.0, prune_children-AreBare parents ns b.1)

  prune_children-AreBare :
      (parents : Dict Bool) (ns : Nodes) → AreBare ns → AreBare (prune_children parents ns)
  prune_children-AreBare parents nil b = tt
  prune_children-AreBare parents (cons n ns) b =
      keep_child-AreBare parents (prune parents n) (prune_children parents ns)
        (prune-IsBare parents n b.0) (prune_children-AreBare parents ns b.1)

mutual
  unfolding prune total IsBare

  total-prune : (parents : Dict Bool) (n : Node) → IsBare n → total (prune parents n) ≡ total n
  total-prune parents (node i ns) b = ap (plus (counts i)) (total-prune_children parents ns b.1)

  total-prune_children :
      (parents : Dict Bool) (ns : Nodes)
      → AreBare ns
      → total_children (prune_children parents ns) ≡ total_children ns
  total-prune_children parents nil b = refl
  total-prune_children parents (cons n ns) b =
      total-keep_child parents (prune parents n) (prune_children parents ns)
        (prune-IsBare parents n b.0)
      ∙ ap (plus (total (prune parents n))) (total-prune_children parents ns b.1)
      ∙ ap (λ s. plus s (total_children ns)) (total-prune parents n b.0)

-- The tree that Build returns, pruned of the emptied directories of worktrees and sorted, has the
-- summary of the assembled tree, where no node of kind dir carries a checkout's status.
pub finish_tree-summarize :
    (parents : Dict Bool) (root : Node)
    → IsBare root
    → (finish_tree parents root).1 ≡ summarize root
unfolding finish_tree
finish_tree-summarize parents root b =
    summarize-total (sort_node (prune parents root))
    ∙ total-sort_node (prune parents root)
    ∙ total-prune parents root b
    ∙ sym (summarize-total root)
