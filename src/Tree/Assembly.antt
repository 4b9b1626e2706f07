-- ===== src/Tree/Assembly.antt =====
-- internal/tree/tree.go: Build as a whole. The nodes that it placed are cells of a store, which are
-- read here as the tree that their pointers make. A cell is stored after the one that points to
-- it, so the tree is read from the last cell to the first.
use repo_man.Model.Node.{Node, node, Nodes, nil, cons}
use repo_man.Tree.{Summary, finish_tree}
use repo_man.Tree.Build.{Cell, Builder, Input, place_all}
use repo_man.Base.{ℕ, zero, suc, ◌-◌, List, [], ◌∷◌, Option, none, some, leb, if◌then◌else◌}

-- The node stored at a place.
unfoldable pub stored : ℕ → List Node → Option Node
stored n [] = none
stored zero (x ∷ xs) = some x
stored (suc n) (x ∷ xs) = stored n xs

abbrev pub later : ℕ → ℕ → List Node → Option Node
later own id rest = if leb id own then none else stored (id - suc own) rest

abbrev pub push : Option Node → Nodes → Nodes
push none ns = ns
push (some n) ns = cons n ns

-- The children of the cell at the place `own`, among the nodes stored after it.
unfoldable pub children_of : ℕ → List ℕ → List Node → Nodes
unfolding stored
children_of own [] rest = nil
children_of own (id ∷ ids) rest = push (later own id rest) (children_of own ids rest)

unfoldable pub assemble : ℕ → List Cell → List Node
unfolding children_of
assemble own [] = []
assemble own (c ∷ cs) =
    let rest = assemble (suc own) cs in node c.info (children_of own c.children rest) ∷ rest

abbrev pub first_node : List Node → Option Node
first_node [] = none
first_node (n ∷ ns) = some n

-- The end of Build, on the root node.
abbrev pub finished : Builder → Option Node → Option (Node × Summary)
finished b none = none
finished b (some n) = some (finish_tree b.worktree_parents n)

unfoldable pub tree_of : Option Builder → Option (Node × Summary)
unfolding assemble finish_tree
tree_of none = none
tree_of (some b) = finished b (first_node (assemble 0 b.cells))

-- Build
unfoldable pub build : Input → Option (Node × Summary)
unfolding tree_of place_all
build input = tree_of (place_all input)
