-- ===== src/Model/Node.antt =====
-- internal/model/model.go: Node, the display tree, and its Sort.
use repo_man.Model.{Repo, Ghost}
use repo_man.Base.{ℕ, Bool, Option, Str, to_lower, less_str, if◌then◌else◌, ◌==◌, ltb}

pub data Kind : Type 0 where
  dir repo worktree ghost : Kind

-- The fields of a node besides its children.
pub record Info : Type 0 where
  pub name : Str
  pub path : Str
  pub rel : Str
  pub kind : Kind
  pub repo : Option Repo
  pub ghost : Option Ghost

mutual
  pub data Node : Type 0 where
    node : Info → Nodes → Node

  pub data Nodes : Type 0 where
    nil : Nodes
    cons : Node → Nodes → Nodes

unfoldable pub info : Node → Info
info (node i ns) = i

unfoldable pub kind_rank : Kind → ℕ
kind_rank dir = 0
kind_rank repo = 1
kind_rank worktree = 1
kind_rank ghost = 1

-- The order of Sort.
unfoldable pub is_before : Info → Info → Bool
unfolding kind_rank to_lower less_str
is_before a b =
    if kind_rank a.kind == kind_rank b.kind
    then less_str (to_lower a.name) (to_lower b.name)
    else ltb (kind_rank a.kind) (kind_rank b.kind)

-- A node into sorted ones, before those that are equal.
unfoldable pub insert_node : Node → Nodes → Nodes
unfolding is_before info
insert_node x nil = cons x nil
insert_node x (cons y ys) =
    let rest = insert_node x ys in
    if is_before (info y) (info x) then cons y rest else cons x (cons y ys)

-- Node.Sort, a stable sort of the children at every level.
unfoldable mutual
  unfolding insert_node

  pub sort_node : Node → Node
  sort_node (node i ns) = node i (sort_nodes ns)

  pub sort_nodes : Nodes → Nodes
  sort_nodes nil = nil
  sort_nodes (cons n ns) = insert_node (sort_node n) (sort_nodes ns)
