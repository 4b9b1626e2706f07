-- ===== src/Scan/Completeness.antt =====
-- scan.go: the walk lists exactly what a search of the directories below the root reports.
use mathlib.Core.List.{Memᴰ}
use mathlib.Core.List.Memᴰ
use repo_man.Safepath.{join_path}
use repo_man.Scan.{
  DirEntry, Files, Fault, unreadable, Walk, Context, Outcome, is_walked, child_rel, git_entry,
  classify, walk_children, process_listed, process_read, process_dir,
}
use repo_man.Scan.Walked.{
  Item, repo, plain, fault, Adds-errs, Adds-dir, Adds-checkout, Leads, Leads-same, Leads->>=,
  Leads-ok, Leads-checked,
}
use repo_man.Base.{
  ℕ, zero, suc, ◌≡◌, refl, ap, subst, ◌∙◌, ◌⊎◌, inl, inr, true, false, List, [], ◌∷◌, Option, none,
  some, Str, ok, if◌then◌else◌, Bool-cases,
}

-- What the directories among the entries report.
pub record Below (R : Str → Str → Type 0) (abs rel : Str) (es : List DirEntry) : Type 0 where
  pub entry : DirEntry
  pub listed : Memᴰ entry es
  pub walked : is_walked entry ≡ true
  pub reported : R (join_path abs entry.name) (child_rel rel entry.name)

-- What a directory reports: that it cannot be read; the checkout that it is, and the faults of its
-- .git file; or itself, and what D says of its entries.
pub data Here (fs : Files) (x : Item) (D : List DirEntry → Type 0) (abs rel : Str) : Type 0 where
  closed : fs.read_dir abs ≡ none → x ≡ fault (unreadable rel) → Here fs x D abs rel
  checkout :
      (es : List DirEntry) (e : DirEntry)
      → fs.read_dir abs ≡ some es
      → git_entry es ≡ some e
      → x ≡ repo (classify fs abs rel e).0
      → Here fs x D abs rel
  bad_checkout :
      (es : List DirEntry) (e : DirEntry) (f : Fault)
      → fs.read_dir abs ≡ some es
      → git_entry es ≡ some e
      → Memᴰ f (classify fs abs rel e).1
      → x ≡ fault f
      → Here fs x D abs rel
  directory :
      (es : List DirEntry)
      → fs.read_dir abs ≡ some es
      → git_entry es ≡ none
      → x ≡ plain rel
      → Here fs x D abs rel
  inside :
      (es : List DirEntry)
      → fs.read_dir abs ≡ some es
      → git_entry es ≡ none
      → D es
      → Here fs x D abs rel

-- What a directory reports, with the directories down to some levels below it.
unfoldable pub Reports : Files → Item → ℕ → Str → Str → Type 0
Reports fs x zero abs rel = Here fs x (λ es. ⊥) abs rel
Reports fs x (suc n) abs rel = Here fs x (Below (Reports fs x n) abs rel) abs rel

no_entry : (R : Str → Str → Type 0) (abs rel : Str) → Below R abs rel [] → ⊥
no_entry R abs rel b = Memᴰ.not-nil b.listed

-- The entry is walked, and what its directory reports.
abbrev First : (Str → Str → Type 0) → Str → Str → DirEntry → Type 0
First R abs rel e = (is_walked e ≡ true) × R (join_path abs e.name) (child_rel rel e.name)

one_more :
    (R : Str → Str → Type 0) (abs rel : Str) (e : DirEntry) (es : List DirEntry)
    → First R abs rel e ⊎ Below R abs rel es
    → Below R abs rel (e ∷ es)
one_more R abs rel e es (inl (w, r)) = record {
  entry = e;
  listed = Memᴰ.head refl;
  walked = w;
  reported = r;
}
one_more R abs rel e es (inr b) = record {
  entry = b.entry;
  listed = Memᴰ.tail b.listed;
  walked = b.walked;
  reported = b.reported;
}

one_less :
    (R : Str → Str → Type 0) (abs rel : Str) (e : DirEntry) (es : List DirEntry)
    → Below R abs rel (e ∷ es)
    → First R abs rel e ⊎ Below R abs rel es
one_less R abs rel e es b = pick b.listed
  where
    pick : Memᴰ b.entry (e ∷ es) → First R abs rel e ⊎ Below R abs rel es
    pick (Memᴰ.head q) = inl (subst (First R abs rel) q (b.walked, b.reported))
    pick (Memᴰ.tail m) =
        inr (record { entry = b.entry; listed = m; walked = b.walked; reported = b.reported })

-- What a directory reports in each of the three cases.
module _ (fs : Files) (x : Item) (D : List DirEntry → Type 0) (abs rel : Str) where
  closed_reports :
      fs.read_dir abs ≡ none
      → Here fs x D abs rel
      → (f : Fault) × (Memᴰ f (unreadable rel ∷ []) × (x ≡ fault f))
  closed_reports n (closed m q) = (unreadable rel, (Memᴰ.head refl, q))
  closed_reports n (checkout es e y g q) = absurd (cc)
  closed_reports n (bad_checkout es e f y g m q) = absurd (cc)
  closed_reports n (directory es y g q) = absurd (cc)
  closed_reports n (inside es y g d) = absurd (cc)

  checkout_reports :
      (es : List DirEntry) (e : DirEntry)
      → fs.read_dir abs ≡ some es
      → git_entry es ≡ some e
      → Here fs x D abs rel
      → (x ≡ repo (classify fs abs rel e).0)
        ⊎ ((f : Fault) × (Memᴰ f (classify fs abs rel e).1 × (x ≡ fault f)))
  checkout_reports es e y g (closed m q) = absurd (cc)
  checkout_reports es e y g (checkout es' e' y' g' q) =
      let i : es' ≡ es = cc in
      let g″ : git_entry es ≡ some e' = subst (λ l. git_entry l ≡ some e') i g' in
      let j : e' ≡ e = cc in inl (subst (λ i. x ≡ repo (classify fs abs rel i).0) j q)
  checkout_reports es e y g (bad_checkout es' e' f y' g' m q) =
      let i : es' ≡ es = cc in
      let g″ : git_entry es ≡ some e' = subst (λ l. git_entry l ≡ some e') i g' in
      let j : e' ≡ e = cc in inr (f, (subst (λ i. Memᴰ f (classify fs abs rel i).1) j m, q))
  checkout_reports es e y g (directory es' y' g' q) =
      let i : es' ≡ es = cc in
      let g″ : git_entry es ≡ none = subst (λ l. git_entry l ≡ none) i g' in absurd (cc)
  checkout_reports es e y g (inside es' y' g' d) =
      let i : es' ≡ es = cc in
      let g″ : git_entry es ≡ none = subst (λ l. git_entry l ≡ none) i g' in absurd (cc)

  directory_reports :
      (es : List DirEntry)
      → fs.read_dir abs ≡ some es
      → git_entry es ≡ none
      → Here fs x D abs rel
      → (x ≡ plain rel) ⊎ D es
  directory_reports es y g (closed m q) = absurd (cc)
  directory_reports es y g (checkout es' e' y' g' q) =
      let i : es' ≡ es = cc in
      let g″ : git_entry es ≡ some e' = subst (λ l. git_entry l ≡ some e') i g' in absurd (cc)
  directory_reports es y g (bad_checkout es' e' f y' g' m q) =
      let i : es' ≡ es = cc in
      let g″ : git_entry es ≡ some e' = subst (λ l. git_entry l ≡ some e') i g' in absurd (cc)
  directory_reports es y g (directory es' y' g' q) = inl q
  directory_reports es y g (inside es' y' g' d) = let i : es' ≡ es = cc in inr (subst D i d)

module _ (fs : Files) (ctx : Context) where
  pub walk_children-Leads :
      (R : Item → Str → Str → Type 0) (process : Str → Str → Walk → Outcome) (abs rel : Str)
      → ((a r : Str) (w : Walk) → Leads ctx (λ x. R x a r) w (process a r w))
      → (es : List DirEntry) (w : Walk)
      → Leads ctx (λ x. Below (R x) abs rel es) w (walk_children fs ctx process abs rel es w)
  unfolding walk_children
  walk_children-Leads R process abs rel h [] w =
      Leads-same ctx (λ x. ⊥) (λ x. Below (R x) abs rel []) w (ok w) (λ x b. absurd b)
        (λ x. no_entry (R x) abs rel) (Leads-ok ctx w)
  walk_children-Leads R process abs rel h (e ∷ es) w =
      Leads-same ctx (λ x. First (R x) abs rel e ⊎ Below (R x) abs rel es)
        (λ x. Below (R x) abs rel (e ∷ es)) w _ (λ x. one_more (R x) abs rel e es)
        (λ x. one_less (R x) abs rel e es)
        (Leads->>= ctx (λ x. First (R x) abs rel e) (λ x. Below (R x) abs rel es) w _ _
          (Leads-checked ctx (λ x. First (R x) abs rel e) w _ first)
          (walk_children-Leads R process abs rel h es))
    where
      first :
          (w₁ : Walk)
          → Leads ctx
              (λ x. First (R x) abs rel e)
              w₁
              (if is_walked e
                then process (join_path abs e.name) (child_rel rel e.name) w₁
                else ok w₁)
      first w₁ = elim (Bool-cases (is_walked e)) [
        | inl y ↦ rw y (Leads-same ctx _ _ w₁ _ (λ x r. (refl, r)) (λ x f. f.1) (h _ _ w₁))
        | inr n ↦ rw n (
            Leads-same ctx (λ x. ⊥)
              (λ x. (false ≡ true) × R x (join_path abs e.name) (child_rel rel e.name)) w₁ (ok w₁)
              (λ x b. absurd b) (λ x f. absurd (cc (f.0))) (Leads-ok ctx w₁))
      ]

  process_listed-Leads :
      (D : Item → List DirEntry → Type 0) (descend : List DirEntry → Walk → Outcome) (abs rel : Str)
      → ((es : List DirEntry) (w : Walk) → Leads ctx (λ x. D x es) w (descend es w))
      → (es : List DirEntry) (w : Walk) (o : Option DirEntry) → fs.read_dir abs ≡ some es
      → git_entry es ≡ o
      → Leads ctx (λ x. Here fs x (D x) abs rel) w (process_listed fs descend abs rel es w o)
  process_listed-Leads D descend abs rel h es w none y n =
      Leads-same ctx (λ x. (x ≡ plain rel) ⊎ D x es) (λ x. Here fs x (D x) abs rel) w _
        (λ x c. elim c [ inl q ↦ directory es y n q | inr d ↦ inside es y n d ])
        (λ x. directory_reports fs x (D x) abs rel es y n)
        (Leads->>= ctx (λ x. x ≡ plain rel) (λ x. D x es) w (ok _) (descend es) (Adds-dir w rel)
          (h es))
  process_listed-Leads D descend abs rel h es w (some e) y g =
      Leads-same ctx _ (λ x. Here fs x (D x) abs rel) w (ok _)
        (λ x c. elim c [
          | inl q ↦ checkout es e y g q
          | inr (f, (m, q)) ↦ bad_checkout es e f y g m q
        ])
        (λ x. checkout_reports fs x (D x) abs rel es e y g)
        (Adds-checkout w (classify fs abs rel e))

  process_read-Leads :
      (D : Item → List DirEntry → Type 0) (descend : List DirEntry → Walk → Outcome) (abs rel : Str)
      → ((es : List DirEntry) (w : Walk) → Leads ctx (λ x. D x es) w (descend es w))
      → (w : Walk) (o : Option (List DirEntry)) → fs.read_dir abs ≡ o
      → Leads ctx (λ x. Here fs x (D x) abs rel) w (process_read fs descend abs rel w o)
  process_read-Leads D descend abs rel h w (some es) y =
      process_listed-Leads D descend abs rel h es w (git_entry es) y refl
  process_read-Leads D descend abs rel h w none n =
      Leads-same ctx _ (λ x. Here fs x (D x) abs rel) w (ok _) one_fault
        (λ x. closed_reports fs x (D x) abs rel n) (Adds-errs w (unreadable rel ∷ []))
    where
      one_fault :
          (x : Item)
          → ((f : Fault) × (Memᴰ f (unreadable rel ∷ []) × (x ≡ fault f)))
          → Here fs x (D x) abs rel
      one_fault x (f, (Memᴰ.head q, r)) = closed n (r ∙ ap fault q)
      one_fault x (f, (Memᴰ.tail m, r)) = absurd (Memᴰ.not-nil m)

  pub process_dir-Leads :
      (n : ℕ) (abs rel : Str) (w : Walk)
      → Leads ctx (λ x. Reports fs x n abs rel) w (process_dir fs ctx n abs rel w)
  unfolding process_dir Reports
  process_dir-Leads zero abs rel w =
      Leads-checked ctx (λ x. Reports fs x zero abs rel) w _
        (λ w₁.
          process_read-Leads (λ x es. ⊥) (λ es w₂. ok w₂) abs rel (λ es w₂. Leads-ok ctx w₂) w₁ _
            refl)
  process_dir-Leads (suc n) abs rel w =
      Leads-checked ctx (λ x. Reports fs x (suc n) abs rel) w _
        (λ w₁.
          process_read-Leads (λ x. Below (Reports fs x n) abs rel)
            (walk_children fs ctx (process_dir fs ctx n) abs rel) abs rel
            (walk_children-Leads (λ x. Reports fs x n) (process_dir fs ctx n) abs rel
              (process_dir-Leads n))
            w₁ _ refl)
