-- ===== src/Safepath/Resolving.antt =====
-- safepath.go: what Resolve accepts, and where an accepted path lies.
use mathlib.Core.List.{reverse-append, reverse-reverse}
use repo_man.Safepath.{
  slash, dot, PathError, nul_byte, absolute, outside_root, clean, assemble, join_path,
  contains_path, check_segments, normalize, resolve, resolve_rel,
}
use repo_man.Safepath.Cleaning.{
  IsSafe, IsElement, elements, elements-IsElement, clean-elements, clean-assemble, elements_below,
  check_segments-none, check_segments-IsSafe, All-IsElement,
}
use repo_man.Base.{
  ℕ, ◌≡◌, refl, ap, sym, ◌∙◌, ◌≢◌, ◌⊎◌, inl, inr, true, false, ◌||◌, List, [], ◌∷◌, ◌++◌, arith,
  Str, Result, ok, err, reverse, eqb, eqb→eq, has_prefix, has_prefix-append, has_char, Lacks, split,
  join, join-append, join-split, split-ne-nil, split-Lacks, All, All-append, All-reverse,
  if◌then◌else◌, append_assoc, Bool-cases, Option-cases, ◌==◌,
}

below : List Str → List Str → Str
below top ss = slash ∷ join (top ++ ss) (slash ∷ [])

join_path-below :
    (p r : Str)
    → All IsSafe (split r slash)
    → join_path (slash ∷ p) r ≡ below (reverse (elements p)) (split r slash)
unfolding join_path below
join_path-below p r h =
    clean-elements (p ++ slash ∷ r)
    ∙ ap (assemble true) (elements_below p r h)
    ∙ unfold assemble in
      ap (λ (ss : List Str). slash ∷ join ss (slash ∷ []))
        (reverse-append (reverse (split r slash)) (elements p)
          ∙ ap (λ (ss : List Str). reverse (elements p) ++ ss) (reverse-reverse (split r slash)))

-- The root's own elements make the cleaned root.
clean-root : (p : Str) → clean (slash ∷ p) ≡ slash ∷ join (reverse (elements p)) (slash ∷ [])
clean-root p = clean-elements p ∙ unfold assemble in refl

clean-below :
    (p r : Str)
    → All IsSafe (split r slash)
    → clean (below (reverse (elements p)) (split r slash))
      ≡ below (reverse (elements p)) (split r slash)
clean-below p r h = ap clean same ∙ clean-assemble out safe ∙ sym same
  where
    out : List Str
    out = reverse (split r slash) ++ elements p

    safe : All IsElement out
    safe =
        All-append IsElement (reverse (split r slash)) (elements p)
          (All-reverse IsElement (split r slash) (All-IsElement _ h (split-Lacks r slash)))
          (elements-IsElement p)

    same : below (reverse (elements p)) (split r slash) ≡ assemble true out
    same =
        unfold below assemble in
        ap (λ (ss : List Str). slash ∷ join ss (slash ∷ []))
          (sym (
            reverse-append (reverse (split r slash)) (elements p)
            ∙ ap (λ (ss : List Str). reverse (elements p) ++ ss) (reverse-reverse (split r slash))))

-- Below a root that is not "/", the text of the root, a slash, and the relative path.
below_text :
    (top : List Str) (r : Str)
    → top ≢ []
    → below top (split r slash) ≡ (slash ∷ join top (slash ∷ [])) ++ slash ∷ r
unfolding below
below_text [] r h = absurd (h refl)
below_text (t ∷ top) r h = glue (split r slash) (split-ne-nil r slash) (join-split r slash)
  where
    glue :
        (ss : List Str)
        → ss ≢ []
        → join ss (slash ∷ []) ≡ r
        → ◌≡◌ {A = Str}
            (slash ∷ join ((t ∷ top) ++ ss) (slash ∷ []))
            ((slash ∷ join (t ∷ top) (slash ∷ [])) ++ slash ∷ r)
    glue [] n e = absurd (n refl)
    glue (s ∷ ss) n e = rw (join-append t top s ss (slash ∷ []), e) refl

not_top : (p : Str) → clean (slash ∷ p) ≢ slash ∷ [] → reverse (elements p) ≢ []
not_top p h e = h (clean-root p ∙ (rw e (unfold join in refl)))

pub join_path_text :
    (p r : Str)
    → clean (slash ∷ p) ≢ slash ∷ []
    → All IsSafe (split r slash)
    → join_path (slash ∷ p) r ≡ clean (slash ∷ p) ++ slash ∷ r
join_path_text p r n h =
    join_path-below p r h ∙ below_text (reverse (elements p)) r (not_top p n) ∙ rw (clean-root p)

pub clean-join_path :
    (p r : Str)
    → All IsSafe (split r slash)
    → clean (join_path (slash ∷ p) r) ≡ join_path (slash ∷ p) r
clean-join_path p r h = rw (join_path-below p r h) (clean-below p r h)

contains_below :
    (p r : Str)
    → clean (slash ∷ p) ≢ slash ∷ []
    → All IsSafe (split r slash)
    → contains_path (slash ∷ p) (join_path (slash ∷ p) r) ≡ true
unfolding contains_path
contains_below p r n h =
    rw (clean-join_path p r h, join_path_text p r n h) (prefixed (clean (slash ∷ p)))
  where
    prefixed :
        (c : Str) → (eqb (c ++ slash ∷ r) c || has_prefix (c ++ slash ∷ r) (c ++ slash ∷ [])) ≡ true
    prefixed c =
        let e : (c ++ slash ∷ []) ++ r ≡ c ++ slash ∷ r = simp append_assoc in
        let q : has_prefix (c ++ slash ∷ r) (c ++ slash ∷ []) ≡ true =
          rw (← e) (has_prefix-append (c ++ slash ∷ []) r) in
        ground arith

safe_start :
    (r : Str)
    → All IsSafe (split r slash)
    → ((eqb r [] || eqb r dot) ≡ false) × (has_prefix r (slash ∷ []) ≡ false)
safe_start [] h = absurd (unfold split in h.0)
safe_start (c ∷ s) h = elim (Bool-cases (c == slash)) [
  | inl e ↦ absurd (opens c s e h)
  | inr e ↦ elim (Bool-cases (eqb (c ∷ s) dot)) [
    | inl d ↦ absurd (dotted (c ∷ s) (eqb→eq (c ∷ s) dot d) h)
    | inr d ↦ (unfold eqb in d, unfold has_prefix in ground arith)
  ]
]
  where
    opens : (c : ℕ) (s : Str) → (c == slash) ≡ true → All IsSafe (split (c ∷ s) slash) → ⊥
    opens c s e h = unfold split in (rw e at h).0

    dotted : (r : Str) → r ≡ dot → All IsSafe (split r slash) → ⊥
    dotted r e h = unfold split in (rw e at h).0.0 refl

-- Resolve on a path whose elements are safe comes to the test of containment.
resolve_safe :
    (root r : Str)
    → All IsSafe (split r slash)
    → Lacks 0 r
    → resolve_rel root r ≡ (
        if contains_path root (join_path root r)
        then ok (join_path root r, r)
        else err outside_root)
unfolding resolve_rel
resolve_safe root r h z =
    let s = safe_start r h in rw (s.0, z, s.1, check_segments-IsSafe (split r slash) h)

-- An accepted path that is not the root has safe elements.
resolve_rel-ok :
    (root r abs clean_rel : Str)
    → resolve_rel root r ≡ ok (abs, clean_rel)
    → ((clean_rel ≡ []) × (abs ≡ root))
      ⊎ (All IsSafe (split r slash) × Lacks 0 r × (clean_rel ≡ r) × (abs ≡ join_path root r))
unfolding resolve_rel
resolve_rel-ok root r abs clean_rel h = elim (Bool-cases (eqb r [] || eqb r dot)) [
  | inl e ↦ let q : Outcome (ok (root, [])) = rw e at h in inl (ground arith)
  | inr e ↦ elim (Bool-cases (has_char 0 r)) [
    | inl z ↦ let q : Outcome (err nul_byte) = rw (e, z) at h in absurd (cc)
    | inr z ↦ elim (Bool-cases (has_prefix r (slash ∷ []))) [
      | inl s ↦ let q : Outcome (err absolute) = rw (e, z, s) at h in absurd (cc)
      | inr s ↦ elim (Option-cases (check_segments (split r slash))) [
        | inr (x, c) ↦ let q : Outcome (err x) = rw (e, z, s, c) at h in absurd (cc)
        | inl c ↦ elim (Bool-cases (contains_path root (join_path root r))) [
          | inr out ↦ let q : Outcome (err outside_root) = rw (e, z, s, c, out) at h in absurd (cc)
          | inl inside ↦
              let q : Outcome (ok (join_path root r, r)) = rw (e, z, s, c, inside) at h in
              inr (check_segments-none _ c, z, ground arith, ground arith)
        ]
      ]
    ]
  ]
]
  where
    Outcome : Result PathError (Str × Str) → Type 0
    Outcome x = x ≡ ok (abs, clean_rel)

eqb_root : (p : Str) → eqb (slash ∷ p) [] ≡ false
unfolding eqb
eqb_root p = refl

resolve-rooted : (p rel : Str) → resolve (slash ∷ p) rel ≡ resolve_rel (slash ∷ p) (normalize rel)
unfolding resolve
resolve-rooted p rel = rw (eqb_root p)

-- Under a rooted root whose cleaned form is not "/": a path resolves when every element of its
-- normalized form is safe (not empty, no dot and no dash at its start) and it holds no NUL, to
-- the cleaned root, a slash and the normalized path, with nothing resolved away. Whatever else
-- resolves gives the root itself, with an empty relative path.
pub resolve_accepts :
    (p rel : Str)
    → clean (slash ∷ p) ≢ slash ∷ []
    → (All IsSafe (split (normalize rel) slash) × Lacks 0 (normalize rel)
        → resolve (slash ∷ p) rel ≡ ok (clean (slash ∷ p) ++ slash ∷ normalize rel, normalize rel))
      × ((abs clean_rel : Str)
          → resolve (slash ∷ p) rel ≡ ok (abs, clean_rel)
          → ((clean_rel ≡ []) × (abs ≡ slash ∷ p))
            ⊎ (All IsSafe (split (normalize rel) slash)
                × Lacks 0 (normalize rel)
                × (clean_rel ≡ normalize rel)
                × (abs ≡ clean (slash ∷ p) ++ slash ∷ normalize rel)))
resolve_accepts p rel n = (complete, sound)
  where
    r : Str
    r = normalize rel

    complete :
        All IsSafe (split (normalize rel) slash) × Lacks 0 (normalize rel)
        → resolve (slash ∷ p) rel ≡ ok (clean (slash ∷ p) ++ slash ∷ normalize rel, normalize rel)
    complete (h, z) =
        resolve-rooted p rel
        ∙ resolve_safe (slash ∷ p) r h z
        ∙ rw (contains_below p r n h) (rw (join_path_text p r n h))

    sound :
        (abs clean_rel : Str)
        → resolve (slash ∷ p) rel ≡ ok (abs, clean_rel)
        → ((clean_rel ≡ []) × (abs ≡ slash ∷ p))
          ⊎ (All IsSafe (split (normalize rel) slash)
              × Lacks 0 (normalize rel)
              × (clean_rel ≡ normalize rel)
              × (abs ≡ clean (slash ∷ p) ++ slash ∷ normalize rel))
    sound abs clean_rel h =
        told (resolve_rel-ok (slash ∷ p) r abs clean_rel (sym (resolve-rooted p rel) ∙ h))
      where
        told :
            ((clean_rel ≡ []) × (abs ≡ slash ∷ p))
              ⊎ (All IsSafe (split r slash)
                  × Lacks 0 r
                  × (clean_rel ≡ r)
                  × (abs ≡ join_path (slash ∷ p) r))
            → ((clean_rel ≡ []) × (abs ≡ slash ∷ p))
              ⊎ (All IsSafe (split r slash)
                  × Lacks 0 r
                  × (clean_rel ≡ r)
                  × (abs ≡ clean (slash ∷ p) ++ slash ∷ r))
        told (inl q) = inl q
        told (inr (h, z, e, j)) = inr (h, z, e, j ∙ join_path_text p r n h)

no_top : (top : List Str) → All IsElement top → join top (slash ∷ []) ≡ [] → top ≡ []
unfolding join
no_top [] h e = refl
no_top (t ∷ []) h e = absurd (h.0.0 e)
no_top ([] ∷ u ∷ top) h e = absurd (h.0.0 refl)
no_top ((c ∷ t) ∷ u ∷ top) h e = cc

join_path-slash :
    (p r : Str)
    → clean (slash ∷ p) ≡ slash ∷ []
    → All IsSafe (split r slash)
    → join_path (slash ∷ p) r ≡ slash ∷ r
join_path-slash p r e h =
    join_path-below p r h
    ∙ ap (λ (top : List Str). below top (split r slash)) empty
    ∙ unfold below in ap (λ (s : Str). slash ∷ s) (join-split r slash)
  where
    rooted : slash ∷ join (reverse (elements p)) (slash ∷ []) ≡ slash ∷ []
    rooted = sym (clean-root p) ∙ e

    empty : reverse (elements p) ≡ []
    empty =
        no_top (reverse (elements p)) (All-reverse IsElement (elements p) (elements-IsElement p))
          (cc (rooted))

not_below_slash :
    (p r : Str)
    → clean (slash ∷ p) ≡ slash ∷ []
    → All IsSafe (split r slash)
    → contains_path (slash ∷ p) (join_path (slash ∷ p) r) ≡ false
unfolding contains_path
not_below_slash p r e h =
    let s = safe_start r h in
    rw (clean-join_path p r h, join_path-slash p r e h, e) (unfold eqb has_prefix in ground arith)

-- Where the root cleans to "/", a path whose normalized elements are all safe and that holds no
-- NUL is refused as outside the root; so whatever does resolve is the root itself, with an empty
-- relative path.
pub resolve_under_slash :
    (p rel : Str)
    → clean (slash ∷ p) ≡ slash ∷ []
    → (All IsSafe (split (normalize rel) slash)
        → Lacks 0 (normalize rel)
        → resolve (slash ∷ p) rel ≡ err outside_root)
      × ((abs clean_rel : Str)
          → resolve (slash ∷ p) rel ≡ ok (abs, clean_rel)
          → (clean_rel ≡ []) × (abs ≡ slash ∷ p))
resolve_under_slash p rel e = (
  outside,
  λ abs clean_rel h.
      only abs clean_rel h
        (resolve_rel-ok (slash ∷ p) (normalize rel) abs clean_rel (sym (resolve-rooted p rel) ∙ h)),
)
  where
    outside :
        All IsSafe (split (normalize rel) slash)
        → Lacks 0 (normalize rel)
        → resolve (slash ∷ p) rel ≡ err outside_root
    outside h z =
        resolve-rooted p rel
        ∙ resolve_safe (slash ∷ p) (normalize rel) h z
        ∙ rw (not_below_slash p (normalize rel) e h)

    only :
        (abs clean_rel : Str)
        → resolve (slash ∷ p) rel ≡ ok (abs, clean_rel)
        → ((clean_rel ≡ []) × (abs ≡ slash ∷ p))
          ⊎ (All IsSafe (split (normalize rel) slash)
              × Lacks 0 (normalize rel)
              × (clean_rel ≡ normalize rel)
              × (abs ≡ join_path (slash ∷ p) (normalize rel)))
        → (clean_rel ≡ []) × (abs ≡ slash ∷ p)
    only abs clean_rel h (inl q) = q
    only abs clean_rel h (inr (s, z, c, a)) = absurd (cc (h, outside s z))
