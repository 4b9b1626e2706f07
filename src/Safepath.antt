-- ===== src/Safepath.antt =====
-- internal/safepath/safepath.go: request paths confined to the root. Paths are those of a Unix
-- system; Clean and Join of path/filepath are written out from their documentation.
pub mod Cleaning
pub mod Resolving
pub mod Names
pub mod Existing
pub mod Relative
mod Tests
use repo_man.Base.{
  ℕ, Bool, true, false, not, ◌&&◌, ◌||◌, List, [], ◌∷◌, ◌++◌, Option, none, some, map, reverse, Str,
  Result, ok, err, eqb, has_prefix, has_char, contains_any, any, trim, trim_space, split, join,
  keep, byte_len, ltb, ◌==◌, if◌then◌else◌, codes,
}

abbrev pub slash : ℕ
slash = b'/'

abbrev pub dot : Str
dot = b'.' ∷ []

abbrev pub dot_dot : Str
dot_dot = b'.' ∷ b'.' ∷ []

-- One element of a path for filepath.Clean: `out` holds the elements so far, the last one first.
unfoldable pub clean_seg : Bool → List Str → Str → List Str
unfolding eqb
clean_seg rooted [] seg =
    if eqb seg [] || eqb seg dot
    then []
    else if eqb seg dot_dot
    then (if rooted then [] else seg ∷ [])
    else seg ∷ []
clean_seg rooted (s ∷ out) seg =
    if eqb seg [] || eqb seg dot
    then s ∷ out
    else if eqb seg dot_dot
    then (if eqb s dot_dot then seg ∷ s ∷ out else out)
    else seg ∷ s ∷ out

unfoldable pub clean_segs : Bool → List Str → List Str → List Str
unfolding clean_seg
clean_segs rooted out [] = out
clean_segs rooted out (seg ∷ segs) = clean_segs rooted (clean_seg rooted out seg) segs

-- The path that the elements make.
unfoldable pub assemble : Bool → List Str → Str
unfolding join
assemble true out = slash ∷ join (reverse out) (slash ∷ [])
assemble false [] = dot
assemble false (s ∷ out) = join (reverse (s ∷ out)) (slash ∷ [])

-- filepath.Clean
unfoldable pub clean : Str → Str
unfolding has_prefix clean_segs assemble split
clean p =
    let rooted = has_prefix p (slash ∷ []) in assemble rooted (clean_segs rooted [] (split p slash))

-- filepath.Join of two elements, neither of them empty.
unfoldable pub join_path : Str → Str → Str
join_path a b = clean (a ++ slash ∷ b)

unfoldable pub contains_path : Str → Str → Bool
contains_path root path =
    let r = clean root in let p = clean path in eqb p r || has_prefix p (r ++ slash ∷ [])

pub data PathError : Type 0 where
  empty_root nul_byte absolute relative_element dot_prefix dash_prefix outside_root : PathError

-- The case for one element in the loop of Resolve.
unfoldable pub check_segment : Str → Option PathError
unfolding eqb has_prefix
check_segment seg =
    if eqb seg [] || eqb seg dot || eqb seg dot_dot
    then some relative_element
    else if has_prefix seg dot
    then some dot_prefix
    else if has_prefix seg (b'-' ∷ [])
    then some dash_prefix
    else none

unfoldable pub check_segments : List Str → Option PathError
unfolding check_segment
check_segments [] = none
check_segments (s ∷ ss) = elim (check_segment s) [ some e ↦ some e | none ↦ check_segments ss ]

unfoldable pub slashed : ℕ → ℕ
slashed c = if c == b'\\' then slash else c

-- The space, then the leading and trailing slashes, are trimmed; a backslash counts as a slash.
unfoldable pub normalize : Str → Str
unfolding trim trim_space slashed
normalize rel = trim (λ c. c == slash) (map slashed (trim_space rel))

-- Resolve from the normalized path on: the absolute path and the cleaned relative path.
unfoldable pub resolve_rel : Str → Str → Result PathError (Str × Str)
resolve_rel root r =
    if eqb r [] || eqb r dot
    then ok (root, [])
    else if has_char 0 r
    then err nul_byte
    else if has_prefix r (slash ∷ [])
    then err absolute
    else elim (check_segments (split r slash)) [
      | some e ↦ err e
      | none ↦
          let abs = join_path root r in
          if contains_path root abs then ok (abs, r) else err outside_root
    ]

unfoldable pub resolve : Str → Str → Result PathError (Str × Str)
unfolding resolve_rel
resolve root rel = if eqb root [] then err empty_root else resolve_rel root (normalize rel)

pub data ExistingError : Type 0 where
  unresolved : PathError → ExistingError
  no_target resolves_outside no_info not_directory : ExistingError

-- What filepath.EvalSymlinks makes of a path, and whether os.Stat finds a directory there; none
-- where they fail.
pub record FileSystem : Type 0 where
  pub eval_symlinks : Str → Option Str
  pub stat_is_dir : Str → Option Bool

-- ResolveExisting from the resolved path on.
unfoldable pub check_existing :
    FileSystem → Str → Bool → Str → Str → Result ExistingError (Str × Str)
check_existing fs root want_dir clean_rel abs = elim (fs.eval_symlinks abs) [
  | none ↦ err no_target
  | some resolved ↦
      if contains_path root resolved
      then elim (fs.stat_is_dir resolved) [
        | none ↦ err no_info
        | some is_dir ↦
            if want_dir && not is_dir then err not_directory else ok (resolved, clean_rel)
      ]
      else err resolves_outside
]

unfoldable pub resolve_existing : FileSystem → Str → Str → Bool → Result ExistingError (Str × Str)
unfolding check_existing
resolve_existing fs root rel want_dir = elim (resolve root rel) [
  | err e ↦ err (unresolved e)
  | ok (abs, clean_rel) ↦ check_existing fs root want_dir clean_rel abs
]

pub data NameError : Type 0 where
  empty_name reserved_name dot_name separator dash_name too_long control_char : NameError

unfoldable pub is_control : ℕ → Bool
is_control r = ltb r 0x20 || r == 0x7F

unfoldable pub valid_name : Str → Option NameError
valid_name s =
    if eqb s []
    then some empty_name
    else if eqb s dot || eqb s dot_dot
    then some reserved_name
    else if has_prefix s dot
    then some dot_name
    else if contains_any s (slash ∷ b'\\' ∷ [])
    then some separator
    else if has_prefix s (b'-' ∷ [])
    then some dash_name
    else if ltb 255 (byte_len s)
    then some too_long
    else if any is_control s
    then some control_char
    else none

-- filepath.Dir: the cleaned text up to the last slash.
unfoldable pub dir_prefix : List Str → Str
dir_prefix [] = []
dir_prefix (p ∷ []) = []
dir_prefix (p ∷ q ∷ ps) = p ++ slash ∷ dir_prefix (q ∷ ps)

unfoldable pub parent_dir : Str → Str
unfolding clean split dir_prefix
parent_dir p = clean (dir_prefix (split p slash))

-- The last element that is not empty.
unfoldable pub last_element : List Str → Option Str
unfolding eqb
last_element [] = none
last_element (s ∷ ss) = elim (last_element ss) [
  | some e ↦ some e
  | none ↦ if eqb s [] then none else some s
]

-- filepath.Base and path.Base: the trailing slashes are dropped first.
unfoldable pub base_name : Str → Str
unfolding last_element split
base_name p =
    if eqb p [] then dot else elim (last_element (split p slash)) [ none ↦ slash ∷ [] | some e ↦ e ]

abbrev pub not_empty : Str → Bool
not_empty s = not (eqb s [])

-- path.Join: the elements that are not empty, cleaned; "" where all are.
unfoldable pub join_elements : List Str → Str
unfolding eqb keep join clean
join_elements ss =
    if eqb (join (keep not_empty ss) (slash ∷ [])) []
    then []
    else clean (join (keep not_empty ss) (slash ∷ []))
