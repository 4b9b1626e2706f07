-- ===== src/Safepath/Existing.antt =====
-- safepath.go: what ResolveExisting guarantees.
use repo_man.Safepath.{
  FileSystem, ExistingError, unresolved, no_target, resolves_outside, no_info, not_directory, slash,
  clean, PathError, contains_path, resolve, check_existing, resolve_existing,
}
use repo_man.Base.{
  ◌≡◌, refl, ap, sym, subst, ◌∙◌, ◌⊎◌, Bool, true, false, not, [], ◌∷◌, ◌++◌, append_assoc, Option,
  none, some, Str, Result, ok, err, if◌then◌else◌, ◌&&◌, Bool-cases, inl, inr, arith, eqb, eqb_refl,
  eqb→eq, has_prefix, has_prefix-append,
}

-- The path is the root, or goes on behind the root and a slash, as Clean writes both.
abbrev pub IsUnder : Str → Str → Type 0
IsUnder root path =
    (clean path ≡ clean root) ⊎ ((rest : Str) × (clean path ≡ clean root ++ slash ∷ rest))

has_prefix-split : (s p : Str) → has_prefix s p ≡ true → (rest : Str) × (s ≡ p ++ rest)
unfolding has_prefix
has_prefix-split s [] h = (s, refl)
has_prefix-split [] (y ∷ p) h = absurd (cc (h))
has_prefix-split (x ∷ s) (y ∷ p) h =
    let e : (x ≡ y) × (has_prefix s p ≡ true) = ground arith in
    let q = has_prefix-split s p e.1 in (q.0, cc)

contains_path-IsUnder : (root path : Str) → contains_path root path ≡ true → IsUnder root path
unfolding contains_path
contains_path-IsUnder root path h = elim (Bool-cases (eqb (clean path) (clean root))) [
  | inl y ↦ inl (eqb→eq (clean path) (clean root) y)
  | inr n ↦
      let q = has_prefix-split (clean path) (clean root ++ slash ∷ []) (rw n at h) in
      inr (q.0, q.1 ∙ append_assoc (clean root) (slash ∷ []) q.0)
]

IsUnder-contains_path : (root path : Str) → IsUnder root path → contains_path root path ≡ true
unfolding contains_path
IsUnder-contains_path root path (inl e) = rw (e, eqb_refl (clean root)) refl
IsUnder-contains_path root path (inr (rest, e)) =
    let p : has_prefix (clean path) (clean root ++ slash ∷ []) ≡ true =
      subst (λ t. has_prefix t (clean root ++ slash ∷ []) ≡ true)
        (append_assoc (clean root) (slash ∷ []) rest ∙ sym e)
        (has_prefix-append (clean root ++ slash ∷ []) rest) in
    ground (arith, p)

-- A target that was resolved: a symlink led to it from a path that Resolve accepts.
pub record IsTarget (fs : FileSystem) (root rel : Str) (want_dir : Bool) (target clean_rel : Str)
    : Type 0 where
  pub abs : Str
  pub accepted : resolve root rel ≡ ok (abs, clean_rel)
  pub linked : fs.eval_symlinks abs ≡ some target
  pub contained : IsUnder root target
  pub is_dir : Bool
  pub present : fs.stat_is_dir target ≡ some is_dir
  pub directory : want_dir ≡ true → is_dir ≡ true

statted :
    (fs : FileSystem) (root rel : Str) (want_dir : Bool) (c abs found target clean_rel : Str)
    (info : Option Bool)
    → resolve root rel ≡ ok (abs, c)
    → fs.eval_symlinks abs ≡ some found
    → contains_path root found ≡ true
    → fs.stat_is_dir found ≡ info
    → ◌≡◌ {A = Result ExistingError (Str × Str)}
        (elim info [
          | none ↦ err no_info
          | some is_dir ↦ if want_dir && not is_dir then err not_directory else ok (found, c)
        ])
        (ok (target, clean_rel))
    → IsTarget fs root rel want_dir target clean_rel
statted fs root rel want_dir c abs found target clean_rel none a l k s h = cc
statted fs root rel want_dir c abs found target clean_rel (some d) a l k s h =
    elim (Bool-cases (want_dir && not d)) [
      | inl bad ↦
          let q : ◌≡◌ {A = Result ExistingError (Str × Str)} (err not_directory)
              (ok (target, clean_rel)) =
            rw bad at h in
          cc
      | inr good ↦
          let q : ◌≡◌ {A = Result ExistingError (Str × Str)} (ok (found, c))
              (ok (target, clean_rel)) =
            rw good at h in
          let t : found ≡ target = cc in
          let r : c ≡ clean_rel = cc in
          record {
            abs = abs;
            accepted = a ∙ ap (λ x. ok (abs, x)) r;
            linked = l ∙ ap some t;
            contained =
                contains_path-IsUnder root target (subst (λ x. contains_path root x ≡ true) t k);
            is_dir = d;
            present = subst (λ x. fs.stat_is_dir x ≡ some d) t s;
            directory = λ w. ground arith;
          }
    ]

linked :
    (fs : FileSystem) (root rel : Str) (want_dir : Bool) (c abs target clean_rel : Str)
    (found : Option Str)
    → resolve root rel ≡ ok (abs, c)
    → fs.eval_symlinks abs ≡ found
    → check_existing fs root want_dir c abs ≡ ok (target, clean_rel)
    → IsTarget fs root rel want_dir target clean_rel
unfolding check_existing
linked fs root rel want_dir c abs target clean_rel none a l h =
    let q : ◌≡◌ {A = Result ExistingError (Str × Str)} (err no_target) (ok (target, clean_rel)) =
      rw (l, check_existing) at h in
    cc
linked fs root rel want_dir c abs target clean_rel (some f) a l h =
    elim (Bool-cases (contains_path root f)) [
      | inl y ↦
          statted fs root rel want_dir c abs f target clean_rel (fs.stat_is_dir f) a l y refl
            (rw (l, y, check_existing) at h)
      | inr n ↦
          let q : ◌≡◌ {A = Result ExistingError (Str × Str)} (err resolves_outside)
              (ok (target, clean_rel)) =
            rw (l, n, check_existing) at h in
          cc
    ]

resolve_existing-ok :
    (fs : FileSystem) (root rel : Str) (want_dir : Bool) (target clean_rel : Str)
    → resolve_existing fs root rel want_dir ≡ ok (target, clean_rel)
    → IsTarget fs root rel want_dir target clean_rel
unfolding resolve_existing
resolve_existing-ok fs root rel want_dir target clean_rel h = resolved (resolve root rel) refl h
  where
    resolved :
        (m : Result PathError (Str × Str))
        → resolve root rel ≡ m
        → ◌≡◌ {A = Result ExistingError (Str × Str)}
            (elim m [
              | err e ↦ err (unresolved e)
              | ok (abs, c) ↦ check_existing fs root want_dir c abs
            ])
            (ok (target, clean_rel))
        → IsTarget fs root rel want_dir target clean_rel
    resolved (err e) a q = cc
    resolved (ok (abs, c)) a q =
        linked fs root rel want_dir c abs target clean_rel (fs.eval_symlinks abs) a refl q

IsTarget-ok :
    (fs : FileSystem) (root rel : Str) (want_dir : Bool) (target clean_rel : Str)
    → IsTarget fs root rel want_dir target clean_rel
    → resolve_existing fs root rel want_dir ≡ ok (target, clean_rel)
unfolding resolve_existing check_existing
IsTarget-ok fs root rel want_dir target clean_rel t =
    rw (t.accepted, resolve_existing)
      (rw (t.linked, check_existing)
        (rw (IsUnder-contains_path root target t.contained, t.present, check_existing)
          (rw wanted refl)))
  where
    wanted : (want_dir && not t.is_dir) ≡ false
    wanted = elim (Bool-cases want_dir) [ inl y ↦ rw (y, t.directory y) refl | inr n ↦ rw n refl ]

-- ResolveExisting returns a target and a relative path exactly where Resolve accepts the path, with
-- that relative path, the symlinks behind the path that Resolve gives lead to the target, the
-- target exists and is the root or goes on behind the root and a slash, as Clean writes both, and it
-- is a directory if one is wanted.
pub resolve_existing-IsTarget :
    (fs : FileSystem) (root rel : Str) (want_dir : Bool) (target clean_rel : Str)
    → (resolve_existing fs root rel want_dir ≡ ok (target, clean_rel)
        → IsTarget fs root rel want_dir target clean_rel)
      × (IsTarget fs root rel want_dir target clean_rel
          → resolve_existing fs root rel want_dir ≡ ok (target, clean_rel))
resolve_existing-IsTarget fs root rel want_dir target clean_rel = (
  resolve_existing-ok fs root rel want_dir target clean_rel,
  IsTarget-ok fs root rel want_dir target clean_rel,
)
