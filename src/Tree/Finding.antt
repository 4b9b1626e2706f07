-- ===== src/Tree/Finding.antt =====
-- tree.go: what Find returns.
use repo_man.Model.Node.{Node, node, Nodes, nil, cons, info}
use repo_man.Tree.{search_node, search_children, find}
use repo_man.Safepath.{slash}
use repo_man.Base.{
  ◌≡◌, refl, ap, sym, ◌∙◌, ◌≢◌, ◌⊎◌, inl, inr, [], Option, none, some, Str, eqb, eqb→eq, eqb-ne,
  trim, ◌==◌, Bool-cases,
}

-- The node m stands in a tree.
unfoldable mutual
  pub Within : Node → Node → Type 0
  Within m (node i ns) = (m ≡ node i ns) ⊎ WithinAny m ns

  pub WithinAny : Node → Nodes → Type 0
  WithinAny m nil = ⊥
  WithinAny m (cons n ns) = Within m n ⊎ WithinAny m ns

found_stays : (rel : Str) (ns : Nodes) (m : Node) → search_children rel ns (some m) ≡ some m
unfolding search_node
found_stays rel nil m = refl
found_stays rel (cons n ns) m = found_stays rel ns m

-- What a search over the children finds, after a search that found `found`.
abbrev FromFirst : Str → Nodes → Node → Option Node → Type 0
FromFirst rel ns m found = (found ≡ some m) ⊎ (search_children rel ns none ≡ some m)

from_found :
    (rel : Str) (ns : Nodes) (m : Node) (found : Option Node)
    → search_children rel ns found ≡ some m
    → FromFirst rel ns m found
from_found rel ns m none h = inr h
from_found rel ns m (some k) h = inl (sym (found_stays rel ns k) ∙ h)

both_none :
    (rel : Str) (ns : Nodes) (found : Option Node)
    → search_children rel ns found ≡ none
    → (found ≡ none) × (search_children rel ns none ≡ none)
both_none rel ns none h = (refl, h)
both_none rel ns (some k) h = absurd (cc (found_stays rel ns k, h))

mutual
  unfolding search_node Within info

  search_node-some :
      (rel : Str) (n m : Node) → search_node rel n none ≡ some m → Within m n × ((info m).rel ≡ rel)
  search_node-some rel (node i ns) m h = elim (Bool-cases (eqb i.rel rel)) [
    | inl y ↦
        let h' : ◌≡◌ {A = Option Node} (some (node i ns)) (some m) = rw y at h in
        let same : m ≡ node i ns = cc in
        (inl same, ap (λ k. (info k).rel) same ∙ eqb→eq i.rel rel y)
    | inr y ↦ let c = search_children-some rel ns m (rw y at h) in (inr c.0, c.1)
  ]

  search_children-some :
      (rel : Str) (ns : Nodes) (m : Node)
      → search_children rel ns none ≡ some m
      → WithinAny m ns × ((info m).rel ≡ rel)
  search_children-some rel nil m h = absurd (cc (h))
  search_children-some rel (cons n ns) m h = elim (from_found rel ns m (search_node rel n none) h) [
    | inl y ↦ let c = search_node-some rel n m y in (inl c.0, c.1)
    | inr y ↦ let c = search_children-some rel ns m y in (inr c.0, c.1)
  ]

mutual
  unfolding search_node Within info

  search_node-none :
      (rel : Str) (n m : Node) → search_node rel n none ≡ none → Within m n → (info m).rel ≢ rel
  search_node-none rel (node i ns) m h w = elim (Bool-cases (eqb i.rel rel)) [
    | inl y ↦ let h' : ◌≡◌ {A = Option Node} (some (node i ns)) none = rw y at h in absurd (cc (h'))
    | inr y ↦ elim w [
      | inl q ↦ λ e. eqb-ne i.rel rel y (ap (λ k. (info k).rel) (sym q) ∙ e)
      | inr q ↦ search_children-none rel ns m (rw y at h) q
    ]
  ]

  search_children-none :
      (rel : Str) (ns : Nodes) (m : Node)
      → search_children rel ns none ≡ none
      → WithinAny m ns
      → (info m).rel ≢ rel
  search_children-none rel nil m h w = absurd w
  search_children-none rel (cons n ns) m h (inl w) =
      search_node-none rel n m (both_none rel ns (search_node rel n none) h).0 w
  search_children-none rel (cons n ns) m h (inr w) =
      search_children-none rel ns m (both_none rel ns (search_node rel n none) h).1 w

-- The path that Find looks for.
abbrev pub trimmed : Str → Str
trimmed rel = trim (λ c. c == slash) rel

-- Find returns the root for a path that is empty but for slashes, and for any other path a node of
-- the tree that stands at it, if the tree has one: it returns none only where no node stands there.
pub find-Within :
    (root : Node) (rel : Str)
    → (trimmed rel ≡ [] → find root rel ≡ some root)
      × ((m : Node)
          → find root rel ≡ some m
          → trimmed rel ≢ []
          → Within m root × ((info m).rel ≡ trimmed rel))
      × (find root rel ≡ none → (m : Node) → Within m root → (info m).rel ≢ trimmed rel)
unfolding find
find-Within root rel = elim (Bool-cases (eqb (trimmed rel) [])) [
  | inl y ↦ rw y (λ e. refl, λ m h n. absurd (n (eqb→eq (trimmed rel) [] y)), λ h. absurd (cc (h)))
  | inr y ↦ rw y (
    λ e. absurd (eqb-ne (trimmed rel) [] y e),
    λ m h n. search_node-some (trimmed rel) root m h,
    λ h m. search_node-none (trimmed rel) root m h,
  )
]
