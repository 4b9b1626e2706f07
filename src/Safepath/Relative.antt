-- ===== src/Safepath/Relative.antt =====
-- internal/safepath/safepath.go: Rel. filepath.Rel on two cleaned paths, one below the other, is
-- what follows the first one and its slash.
use repo_man.Safepath.{PathError, outside_root, clean, contains_path, normalize, resolve, slash}
use repo_man.Safepath.Resolving.{join_path_text, clean-join_path, resolve_accepts}
use repo_man.Base.{
  ◌≡◌, refl, ap, sym, subst, ◌∙◌, ◌≢◌, inl, inr, true, false, [], ◌∷◌, ◌++◌, append_assoc, arith,
  Str, Result, ok, err, eqb, eqb_refl, has_prefix, has_prefix-append, drop_prefix, if◌then◌else◌,
}

unfoldable pub relative : Str → Str → Result PathError Str
unfolding contains_path clean eqb drop_prefix
relative root path =
    if contains_path root path
    then if eqb (clean path) (clean root)
      then ok []
      else ok (drop_prefix (clean path) (clean root ++ slash ∷ []))
    else err outside_root

drop_prefix-append : (p s : Str) → drop_prefix (p ++ s) p ≡ s
unfolding drop_prefix
drop_prefix-append [] s = refl
drop_prefix-append (x ∷ p) s = drop_prefix-append p s

longer : (r s : Str) → eqb (r ++ slash ∷ s) r ≡ false
unfolding eqb
longer [] s = refl
longer (c ∷ r) s = ground (arith, longer r s)

relative_self : (root : Str) → relative root root ≡ ok []
unfolding relative contains_path
relative_self root = rw (eqb_refl (clean root)) refl

relative-below :
    (root path n : Str) → clean path ≡ clean root ++ slash ∷ n → relative root path ≡ ok n
unfolding relative contains_path
relative-below root path n e =
    let l = longer (clean root) n in
    let a : clean root ++ slash ∷ n ≡ (clean root ++ slash ∷ []) ++ n =
      sym (append_assoc (clean root) (slash ∷ []) n) in
    let p : has_prefix (clean root ++ slash ∷ n) (clean root ++ slash ∷ []) ≡ true =
      subst (λ t. has_prefix t (clean root ++ slash ∷ []) ≡ true) (sym a)
        (has_prefix-append (clean root ++ slash ∷ []) n) in
    let d : drop_prefix (clean root ++ slash ∷ n) (clean root ++ slash ∷ []) ≡ n =
      ap (λ t. drop_prefix t (clean root ++ slash ∷ [])) a
      ∙ drop_prefix-append (clean root ++ slash ∷ []) n in
    rw (e, l, p, d) refl

-- Rel undoes Resolve: under a rooted root that does not clean to "/", the path that Resolve returns
-- has, relative to the root, the clean relative path that Resolve returns with it.
pub relative-resolve :
    (p rel abs clean_rel : Str)
    → clean (slash ∷ p) ≢ slash ∷ []
    → resolve (slash ∷ p) rel ≡ ok (abs, clean_rel)
    → relative (slash ∷ p) abs ≡ ok clean_rel
relative-resolve p rel abs clean_rel n h = elim ((resolve_accepts p rel n).1 abs clean_rel h) [
  | inl (c, a) ↦ rw (c, a) (relative_self (slash ∷ p))
  | inr (safe, z, c, a) ↦
      let text = join_path_text p (normalize rel) n safe in
      let same : clean abs ≡ clean (slash ∷ p) ++ slash ∷ normalize rel =
        ap clean (a ∙ sym text) ∙ clean-join_path p (normalize rel) safe ∙ text in
      rw c (relative-below (slash ∷ p) abs (normalize rel) same)
]
