-- ===== src/Index/Placing.antt =====
-- index.go: where FetchRepo fetches, told from the nodes of the tree.
use repo_man.Index.{Index}
use repo_man.Index.Fetching.{find_by_path, find_in, found_in, main_of, redirect, fetch_target}
use repo_man.Model.{Repo}
use repo_man.Model.Node.{Node, node, Nodes, nil, cons, info}
use repo_man.Tree.{Summary}
use repo_man.Tree.Finding.{Within, WithinAny}
use repo_man.Base.{
  ◌≡◌, refl, ap, sym, subst, ◌∙◌, ◌≢◌, ◌⊎◌, inl, inr, true, [], Option, none, some, Str, eqb,
  eqb→eq, eqb-ne, Bool-cases,
}

-- A node of the snapshot's tree that stands at the path.
pub record StandsAt (ix : Index) (path : Str) (m : Node) : Type 0 where
  pub root : Node
  pub summary : Summary
  pub shown : ix.snap.tree ≡ some (root, summary)
  pub within : Within m root
  pub at : (info m).path ≡ path

-- The node is a worktree whose main checkout is known.
pub record HasMain (m : Node) (main : Str) : Type 0 where
  pub repo : Repo
  pub checkout : (info m).repo ≡ some repo
  pub linked : repo.is_worktree ≡ true
  pub known : main ≢ []
  pub path : repo.main_path ≡ main

-- A fetch for a path is placed in the main checkout of a worktree that stands there, or at the path
-- itself where no node stands or one that is no worktree with a known main checkout.
abbrev pub IsPlace : Index → Str → Str → Type 0
IsPlace ix path place =
    ((m : Node) × StandsAt ix path m × HasMain m place)
    ⊎ ((place ≡ path)
        × (((m : Node) → ¬ (StandsAt ix path m))
            ⊎ ((m : Node) × StandsAt ix path m × ((main : Str) → ¬ (HasMain m main)))))

found_stays : (path : Str) (ns : Nodes) (m : Node) → find_in path ns (some m) ≡ some m
unfolding find_by_path
found_stays path nil m = refl
found_stays path (cons n ns) m = found_stays path ns m

abbrev FromFirst : Str → Nodes → Node → Option Node → Type 0
FromFirst path ns m found = (found ≡ some m) ⊎ (find_in path ns none ≡ some m)

from_found :
    (path : Str) (ns : Nodes) (m : Node) (found : Option Node)
    → find_in path ns found ≡ some m
    → FromFirst path ns m found
from_found path ns m none h = inr h
from_found path ns m (some k) h = inl (sym (found_stays path ns k) ∙ h)

both_none :
    (path : Str) (ns : Nodes) (found : Option Node)
    → find_in path ns found ≡ none
    → (found ≡ none) × (find_in path ns none ≡ none)
both_none path ns none h = (refl, h)
both_none path ns (some k) h = absurd (cc (found_stays path ns k, h))

mutual
  unfolding find_by_path Within info

  find_by_path-some :
      (path : Str) (n m : Node)
      → find_by_path path n none ≡ some m
      → Within m n × ((info m).path ≡ path)
  find_by_path-some path (node i ns) m h = elim (Bool-cases (eqb i.path path)) [
    | inl y ↦
        let h' : ◌≡◌ {A = Option Node} (some (node i ns)) (some m) = rw y at h in
        let same : m ≡ node i ns = cc in
        (inl same, ap (λ k. (info k).path) same ∙ eqb→eq i.path path y)
    | inr y ↦ let c = find_in-some path ns m (rw y at h) in (inr c.0, c.1)
  ]

  find_in-some :
      (path : Str) (ns : Nodes) (m : Node)
      → find_in path ns none ≡ some m
      → WithinAny m ns × ((info m).path ≡ path)
  find_in-some path nil m h = absurd (cc (h))
  find_in-some path (cons n ns) m h = elim (from_found path ns m (find_by_path path n none) h) [
    | inl y ↦ let c = find_by_path-some path n m y in (inl c.0, c.1)
    | inr y ↦ let c = find_in-some path ns m y in (inr c.0, c.1)
  ]

mutual
  unfolding find_by_path Within info

  find_by_path-none :
      (path : Str) (n m : Node)
      → find_by_path path n none ≡ none
      → Within m n
      → (info m).path ≢ path
  find_by_path-none path (node i ns) m h w = elim (Bool-cases (eqb i.path path)) [
    | inl y ↦ let h' : ◌≡◌ {A = Option Node} (some (node i ns)) none = rw y at h in absurd (cc (h'))
    | inr y ↦ elim w [
      | inl q ↦ λ e. eqb-ne i.path path y (ap (λ k. (info k).path) (sym q) ∙ e)
      | inr q ↦ find_in-none path ns m (rw y at h) q
    ]
  ]

  find_in-none :
      (path : Str) (ns : Nodes) (m : Node)
      → find_in path ns none ≡ none
      → WithinAny m ns
      → (info m).path ≢ path
  find_in-none path nil m h w = absurd w
  find_in-none path (cons n ns) m h (inl w) =
      find_by_path-none path n m (both_none path ns (find_by_path path n none) h).0 w
  find_in-none path (cons n ns) m h (inr w) =
      find_in-none path ns m (both_none path ns (find_by_path path n none) h).1 w

module _ (ix : Index) (path : Str) where
  found-StandsAt :
      (o : Option (Node × Summary)) (m : Node)
      → ix.snap.tree ≡ o
      → found_in path o ≡ some m
      → StandsAt ix path m
  found-StandsAt none m e h = absurd (cc (h))
  found-StandsAt (some (root, summary)) m e h =
      let q = find_by_path-some path root m h in
      record { root = root; summary = summary; shown = e; within = q.0; at = q.1 }

  unfound-StandsAt :
      (o : Option (Node × Summary)) (m : Node)
      → ix.snap.tree ≡ o
      → found_in path o ≡ none
      → ¬ (StandsAt ix path m)
  unfound-StandsAt none m e h s = absurd (cc (e, s.shown))
  unfound-StandsAt (some (root, summary)) m e h s =
      let same : root ≡ s.root = cc (e, s.shown) in
      find_by_path-none path root m h (subst (λ (r : Node). Within m r) (sym same) s.within) s.at

  main_of-HasMain :
      (m : Node) (o : Option Repo)
      → (info m).repo ≡ o
      → (HasMain m (main_of path o)
          ⊎ ((main_of path o ≡ path) × ((main : Str) → ¬ (HasMain m main))))
  main_of-HasMain m none e = inr (refl, λ main h. absurd (cc (e, h.checkout)))
  main_of-HasMain m (some r) e = elim (Bool-cases r.is_worktree) [
    | inr n ↦ rw n (
        inr (
          refl,
          λ main h. let same : r ≡ h.repo = cc (e, h.checkout) in absurd (cc (n, same, h.linked)),
        ))
    | inl y ↦ elim (Bool-cases (eqb r.main_path [])) [
      | inl z ↦
          rw (y, z)
            (inr (
              refl,
              λ main h.
                  let same : r ≡ h.repo = cc (e, h.checkout) in
                  h.known (
                    sym h.path
                    ∙ ap (λ (x : Repo). x.main_path) (sym same)
                    ∙ eqb→eq r.main_path [] z),
            ))
      | inr z ↦
          rw (y, z)
            (inl (record {
              repo = r;
              checkout = e;
              linked = y;
              known = eqb-ne r.main_path [] z;
              path = refl;
            }))
    ]
  ]

  placed : (o : Option Node) → found_in path ix.snap.tree ≡ o → IsPlace ix path (redirect path o)
  placed none h = inr (refl, inl (λ m. unfound-StandsAt ix.snap.tree m refl h))
  placed (some m) h =
      let s = found-StandsAt ix.snap.tree m refl h in
      elim (main_of-HasMain m (info m).repo refl) [
        | inl q ↦ inl (m, s, q)
        | inr (q, n) ↦ inr (q, inr (m, s, n))
      ]

  pub fetch_target-IsPlace : IsPlace ix path (fetch_target ix path)
  unfolding fetch_target
  fetch_target-IsPlace = placed (found_in path ix.snap.tree) refl
