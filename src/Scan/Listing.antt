-- ===== src/Scan/Listing.antt =====
-- scan.go: what Walk returns.
use mathlib.Core.List.Memᴰ
use repo_man.Scan.{
  DirEntry, Files, Candidate, Walk, Context, Outcome, check, process_dir, sorted, no_walk,
  walk_root, root_read, walk,
}
use repo_man.Scan.Walked.{
  Item, repo, plain, fault, In, Leads, Leads-same, Leads->>=, Leads-ok, Leads-check,
}
use repo_man.Scan.Completeness.{Below, Reports, process_dir-Leads, walk_children-Leads}
use repo_man.Base.{
  ℕ, zero, suc, ◌≡◌, refl, sym, subst, ◌⊎◌, inl, inr, ◌↔◌, false, List, [], Option, none, some, Str,
  ok, err, ◌>>=◌, less_str, less_str-asym, less_str_trans, sort_by-IsSorted, IsSorted, mem-sort_by,
}

-- What the directories below the root report, down to a depth.
abbrev pub Listed : Files → Item → ℕ → Str → Type 0
Listed fs x zero root = ⊥
Listed fs x (suc n) root =
    (es : List DirEntry) × ((fs.read_dir root ≡ some es) × Below (Reports fs x n) root [] es)

module _ (fs : Files) (ctx : Context) (root : Str) where
  walk_root-Leads :
      (max_depth : ℕ) (es : List DirEntry) (w : Walk)
      → fs.read_dir root ≡ some es
      → Leads ctx (λ x. Listed fs x max_depth root) w (walk_root fs ctx max_depth root es w)
  unfolding walk_root
  walk_root-Leads zero es w y = Leads-ok ctx w
  walk_root-Leads (suc n) es w y =
      Leads-same ctx (λ x. Below (Reports fs x n) root [] es) (λ x. Listed fs x (suc n) root) w _
        (λ x b. (es, (y, b)))
        (λ x (es', (y', b)). let q : es' ≡ es = cc in subst (Below (Reports fs x n) root []) q b)
        (walk_children-Leads fs ctx (λ x. Reports fs x n) (process_dir fs ctx n) root []
          (process_dir-Leads fs ctx n) es w)

  -- A readable root, after the first check.
  begun-Leads :
      (max_depth : ℕ) (es : List DirEntry)
      → fs.read_dir root ≡ some es
      → Leads ctx
          (λ x. ⊥ ⊎ Listed fs x max_depth root)
          no_walk
          (check ctx no_walk >>= walk_root fs ctx max_depth root es)
  begun-Leads n es y =
      Leads->>= ctx (λ x. ⊥) (λ x. Listed fs x n root) no_walk (check ctx no_walk) _
        (Leads-check ctx no_walk) (λ w. walk_root-Leads n es w y)

In-sorted : (x : Item) (w : Walk) → In x (sorted w) ↔ In x w
In-sorted (repo c) w = mem-sort_by _ c w.repos
In-sorted (plain r) w = mem-sort_by _ r w.dirs
In-sorted (fault e) w = (λ m. m, λ m. m)

not-In : (x : Item) → In x no_walk → ⊥
not-In (repo c) m = Memᴰ.not-nil m
not-In (plain r) m = Memᴰ.not-nil m
not-In (fault e) m = Memᴰ.not-nil m

-- The repositories and the directories stand in the order of their relative paths.
abbrev pub InOrder : Walk → Type 0
InOrder w = IsSorted (λ (c d : Candidate). less_str c.rel d.rel) w.repos × IsSorted less_str w.dirs

sorted-InOrder : (w : Walk) → InOrder (sorted w)
sorted-InOrder w = (
  sort_by-IsSorted _
      (record {
        asym = λ c d. less_str-asym c.rel d.rel;
        trans = λ b c d. less_str_trans b.rel c.rel d.rel;
      })
      w.repos,
  sort_by-IsSorted less_str (record { asym = less_str-asym; trans = less_str_trans }) w.dirs,
)

module _ (fs : Files) (ctx : Context) (max_depth : ℕ) (root : Str) where
  abbrev IsListing : Walk → Type 0
  IsListing res = ((x : Item) → In x res ↔ Listed fs x max_depth root) × InOrder res

  ended :
      (res : Walk) (r : Outcome)
      → Leads ctx (λ x. ⊥ ⊎ Listed fs x max_depth root) no_walk r
      → (r >>= (λ w. ok (sorted w))) ≡ ok res
      → IsListing res
  ended res (err e) l h = cc
  ended res (ok w) l h = subst IsListing same (λ x. (to x, from x), sorted-InOrder w)
    where
      same : sorted w ≡ res
      same = cc

      to : (x : Item) → In x (sorted w) → Listed fs x max_depth root
      to x m = elim (l.forth x ((In-sorted x w).0 m)) [
        | inl o ↦ absurd (not-In x o)
        | inr (inl b) ↦ absurd b
        | inr (inr p) ↦ p
      ]

      from : (x : Item) → Listed fs x max_depth root → In x (sorted w)
      from x p = (In-sorted x w).1 (l.back x (inr (inr p)))

  -- Where Walk returns a result, it holds exactly what the directories below the root report down to
  -- maxDepth levels, in the order of the relative paths: every checkout, every plain directory, and
  -- every fault.
  pub walk-Listed : (res : Walk) → walk fs ctx max_depth root ≡ ok res → IsListing res
  unfolding walk
  walk-Listed res h = read (fs.read_dir root) refl (check ctx no_walk) refl h
    where
      read :
          (o : Option (List DirEntry))
          → fs.read_dir root ≡ o
          → (c : Outcome) → check ctx no_walk ≡ c
          → (c >>= (λ w. root_read fs ctx max_depth root w o) >>= (λ w. ok (sorted w))) ≡ ok res
          → IsListing res
      read none n (ok w) d h = absurd (cc (h))
      read none n (err e) d h = absurd (cc (h))
      read (some es) y c d h =
          ended res (c >>= walk_root fs ctx max_depth root es)
            (subst
              (λ c.
                Leads ctx (λ x. ⊥ ⊎ Listed fs x max_depth root) no_walk
                  (c >>= walk_root fs ctx max_depth root es))
              d (begun-Leads fs ctx root max_depth es y))
            h

  -- Walk returns a result where the root can be read and no check of the context fails.
  pub walk_returns :
      (es : List DirEntry)
      → fs.read_dir root ≡ some es
      → ((n : ℕ) → ctx n ≡ false)
      → (res : Walk) × (walk fs ctx max_depth root ≡ ok res)
  unfolding walk
  walk_returns es y live =
      subst
        (λ o.
          (res : Walk) × ((check ctx no_walk
              >>= (λ w. root_read fs ctx max_depth root w o)
              >>= (λ w. ok (sorted w)))
            ≡ ok res))
        (sym y) (final _ (begun-Leads fs ctx root max_depth es y))
    where
      final :
          (r : Outcome)
          → Leads ctx (λ x. ⊥ ⊎ Listed fs x max_depth root) no_walk r
          → (res : Walk) × ((r >>= (λ w. ok (sorted w))) ≡ ok res)
      final (ok w) l = (sorted w, refl)
      final (err e) l = absurd (cc (live l.1.0, l.1.1))
