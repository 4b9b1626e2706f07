-- ===== src/Safepath/Tests.antt =====
-- The theorems on internal/safepath at concrete inputs.
use repo_man.Safepath.{
  FileSystem, resolve_existing, check_existing, resolve_rel, check_segments, contains_path,
  join_path, outside_root, slash, clean, normalize, resolve, clean_segs, assemble, slashed,
}
use repo_man.Safepath.Cleaning.{IsSafe}
use repo_man.Safepath.Existing.{IsTarget, resolve_existing-IsTarget}
use repo_man.Safepath.Resolving.{resolve_accepts, resolve_under_slash}
use repo_man.Safepath.Relative.{relative, relative-resolve}
use repo_man.Base.{
  true, some, ◌≡◌, refl, ◌⊎◌, [], ◌∷◌, ◌++◌, Str, codes, All, ok, err, split, join, Lacks, has_char,
  has_prefix, trim, trim_left, trim_right, trim_space, eqb, eqb-ne,
}

-- The root "/srv" without its slash, and a target below it.
abbrev srv : Str
srv = codes "srv"

abbrev owner : Str
owner = codes "jo"

resolve_accepts_example :
    (All IsSafe (split (normalize owner) slash) × Lacks 0 (normalize owner)
      → resolve (slash ∷ srv) owner
        ≡ ok (clean (slash ∷ srv) ++ slash ∷ normalize owner, normalize owner))
    × ((abs clean_rel : Str)
        → resolve (slash ∷ srv) owner ≡ ok (abs, clean_rel)
        → ((clean_rel ≡ []) × (abs ≡ slash ∷ srv))
          ⊎ (All IsSafe (split (normalize owner) slash)
              × Lacks 0 (normalize owner)
              × (clean_rel ≡ normalize owner)
              × (abs ≡ clean (slash ∷ srv) ++ slash ∷ normalize owner)))
unfolding clean split eqb clean_segs assemble join has_prefix
resolve_accepts_example = resolve_accepts srv owner (eqb-ne _ _ refl)

resolve_under_slash_example :
    (All IsSafe (split (normalize owner) slash)
      → Lacks 0 (normalize owner)
      → resolve (slash ∷ []) owner ≡ err outside_root)
    × ((abs clean_rel : Str)
        → resolve (slash ∷ []) owner ≡ ok (abs, clean_rel)
        → (clean_rel ≡ []) × (abs ≡ slash ∷ []))
unfolding clean split eqb clean_segs assemble join has_prefix
resolve_under_slash_example = resolve_under_slash [] owner refl

-- Every path is a directory and no symlink.
abbrev plain_files : FileSystem
plain_files = record { eval_symlinks = λ p. some p; stat_is_dir = λ p. some true }

existing_owner : resolve_existing plain_files (slash ∷ srv) owner true ≡ ok (codes "/srv/jo", owner)
unfolding resolve_existing check_existing resolve resolve_rel normalize trim trim_left trim_right
    trim_space slashed check_segments contains_path join_path clean clean_segs assemble split join
    eqb has_prefix has_char
existing_owner = refl

resolve_existing-IsTarget_example :
    (resolve_existing plain_files (slash ∷ srv) owner true ≡ ok (codes "/srv/jo", owner)
      → IsTarget plain_files (slash ∷ srv) owner true (codes "/srv/jo") owner)
    × (IsTarget plain_files (slash ∷ srv) owner true (codes "/srv/jo") owner
        → resolve_existing plain_files (slash ∷ srv) owner true ≡ ok (codes "/srv/jo", owner))
resolve_existing-IsTarget_example =
    resolve_existing-IsTarget plain_files (slash ∷ srv) owner true (codes "/srv/jo") owner

owner_resolved : resolve (slash ∷ srv) owner ≡ ok (codes "/srv/jo", owner)
unfolding resolve resolve_rel check_segments contains_path join_path clean split eqb clean_segs
    assemble join has_prefix has_char normalize trim trim_left trim_right trim_space slashed
owner_resolved = refl

relative-resolve_example : relative (slash ∷ srv) (codes "/srv/jo") ≡ ok owner
unfolding clean split eqb clean_segs assemble join has_prefix
relative-resolve_example =
    relative-resolve srv owner (codes "/srv/jo") owner (eqb-ne _ _ refl) owner_resolved
