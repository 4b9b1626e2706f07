-- ===== src/Tree/Build/Ancestors.antt =====
-- tree.go: path.Dir leads from every path to the root, so the recursion of dir ends.
use mathlib.Core.List.{reverse-cons}
use repo_man.Safepath.{slash, dot, clean_seg, clean_segs, assemble, clean, dir_prefix, parent_dir}
use repo_man.Tree.Build.{trim_slashes}
use repo_man.Base.{
  ℕ, suc, ◌+◌, ◌-◌, ◌≤◌, ◌<◌, ◌≡◌, refl, ap, ◌∙◌, ◌⊎◌, inl, inr, Bool, true, false, arith, List, [],
  ◌∷◌, ◌++◌, reverse, Str, eqb, length, length-append, has_prefix, has_char, Lacks, All, split,
  split-append, split_whole, split-Lacks, join, join-split, trim, trim_left, trim_right, ◌==◌,
}

-- The length of path elements with a slash for each, and the same without the empty ones.
abbrev total_len : List Str → ℕ
total_len [] = 0
total_len (s ∷ ss) = suc (length s) + total_len ss

abbrev seg_len : Str → ℕ
seg_len [] = 0
seg_len (c ∷ s) = suc (suc (length s))

abbrev segs_len : List Str → ℕ
segs_len [] = 0
segs_len (s ∷ ss) = seg_len s + segs_len ss

seg_len-le : (s : Str) → seg_len s ≤ suc (length s)
seg_len-le [] = omega arith
seg_len-le (c ∷ s) = omega arith

segs_len-append : (xs ys : List Str) → segs_len (xs ++ ys) ≡ segs_len xs + segs_len ys
segs_len-append [] ys = omega arith
segs_len-append (x ∷ xs) ys = omega (arith, segs_len-append xs ys)

total_len-append : (xs ys : List Str) → total_len (xs ++ ys) ≡ total_len xs + total_len ys
total_len-append [] ys = omega arith
total_len-append (x ∷ xs) ys = omega (arith, total_len-append xs ys)

total_len-reverse : (xs : List Str) → total_len (reverse xs) ≡ total_len xs
total_len-reverse [] = refl
total_len-reverse (x ∷ xs) =
    rw (reverse-cons x xs)
      (omega (arith, total_len-append (reverse xs) (x ∷ []), total_len-reverse xs))

clean_seg-le :
    (rooted : Bool) (out : List Str) (seg : Str)
    → total_len (clean_seg rooted out seg) ≤ total_len out + seg_len seg
unfolding clean_seg eqb
clean_seg-le rooted [] [] = omega arith
clean_seg-le rooted (s ∷ out) [] = omega arith
clean_seg-le rooted [] (c ∷ seg) = ground arith
clean_seg-le rooted (s ∷ out) (c ∷ seg) = ground arith

clean_segs-le :
    (rooted : Bool) (out segs : List Str)
    → total_len (clean_segs rooted out segs) ≤ total_len out + segs_len segs
unfolding clean_segs
clean_segs-le rooted out [] = omega arith
clean_segs-le rooted out (seg ∷ segs) =
    omega (arith, clean_segs-le rooted (clean_seg rooted out seg) segs, clean_seg-le rooted out seg)

length-join-le : (ss : List Str) → length (join ss (slash ∷ [])) ≤ total_len ss - 1
unfolding join
length-join-le [] = omega arith
length-join-le (s ∷ []) = omega arith
length-join-le (s ∷ t ∷ ss) =
    omega (arith, length-append s (slash ∷ join (t ∷ ss) (slash ∷ [])), length-join-le (t ∷ ss))

dir_prefix-join-le : (ss : List Str) → length (dir_prefix ss) ≤ length (join ss (slash ∷ []))
unfolding join dir_prefix
dir_prefix-join-le [] = omega arith
dir_prefix-join-le (s ∷ []) = omega arith
dir_prefix-join-le (s ∷ t ∷ ss) = omega (
  arith,
  length-append s (slash ∷ join (t ∷ ss) (slash ∷ [])),
  length-append s (slash ∷ dir_prefix (t ∷ ss)),
  dir_prefix-join-le (t ∷ ss),
)

split-dir_prefix :
    (p q : Str) (ps : List Str)
    → Lacks slash p
    → split (dir_prefix (p ∷ q ∷ ps)) slash ≡ p ∷ split (dir_prefix (q ∷ ps)) slash
split-dir_prefix p q ps l =
    unfold dir_prefix in
    split-append p (dir_prefix (q ∷ ps)) slash
    ∙ ap (λ (ss : List Str). ss ++ split (dir_prefix (q ∷ ps)) slash) (split_whole p slash l)

length-dir_prefix :
    (p q : Str) (ps : List Str)
    → length (dir_prefix (p ∷ q ∷ ps)) ≡ length p + suc (length (dir_prefix (q ∷ ps)))
unfolding dir_prefix
length-dir_prefix p q ps = length-append p (slash ∷ dir_prefix (q ∷ ps))

-- The elements of the prefix are no longer than it, and shorter where it begins with a slash.
segs_len-dir_prefix :
    (ss : List Str)
    → All (Lacks slash) ss
    → segs_len (split (dir_prefix ss) slash) ≤ length (dir_prefix ss)
segs_len-dir_prefix [] l = unfold dir_prefix split in omega arith
segs_len-dir_prefix (p ∷ []) l = unfold dir_prefix split in omega arith
segs_len-dir_prefix (p ∷ q ∷ ps) l =
    rw (split-dir_prefix p q ps l.0)
      (omega (arith, seg_len-le p, segs_len-dir_prefix (q ∷ ps) l.1, length-dir_prefix p q ps))

rooted_prefix :
    (ss : List Str)
    → All (Lacks slash) ss
    → has_prefix (dir_prefix ss) (slash ∷ []) ≡ true
    → suc (segs_len (split (dir_prefix ss) slash)) ≤ length (dir_prefix ss)
rooted_prefix [] l h = absurd (unfold dir_prefix has_prefix in cc (h))
rooted_prefix (p ∷ []) l h = absurd (unfold dir_prefix has_prefix in cc (h))
rooted_prefix ([] ∷ q ∷ ps) l h =
    rw (split-dir_prefix [] q ps l.0)
      (omega (arith, segs_len-dir_prefix (q ∷ ps) l.1, length-dir_prefix [] q ps))
rooted_prefix ((c ∷ p) ∷ q ∷ ps) l h = absurd (clash l.0 h)
  where
    clash : Lacks slash (c ∷ p) → has_prefix (dir_prefix ((c ∷ p) ∷ q ∷ ps)) (slash ∷ []) ≡ true → ⊥
    clash m h = unfold dir_prefix has_prefix has_char in ground arith

-- A path that is shorter, or one at which dir stops.
abbrev pub Ends : Str → Str → Type 0
Ends r d = (length d < length r) ⊎ ((d ≡ dot) ⊎ (d ≡ slash ∷ []))

assemble-Ends :
    (r : Str) (rooted : Bool) (out : List Str) (n : ℕ)
    → total_len out ≤ n
    → n ≤ length r
    → (rooted ≡ true → suc n ≤ length r)
    → Ends r (assemble rooted out)
unfolding assemble join
assemble-Ends r true [] n a b c = inr (inr refl)
assemble-Ends r false [] n a b c = inr (inl refl)
assemble-Ends r true (s ∷ out) n a b c =
    inl (omega (arith, a, c refl, length-join-le (reverse (s ∷ out)), total_len-reverse (s ∷ out)))
assemble-Ends r false (s ∷ out) n a b c =
    inl (omega (arith, a, b, length-join-le (reverse (s ∷ out)), total_len-reverse (s ∷ out)))

-- path.Dir of a path is shorter than it, or is "." or "/".
pub parent_dir-Ends : (r : Str) → Ends r (parent_dir r)
unfolding parent_dir clean
parent_dir-Ends r =
    let ss = split r slash in
    let p = dir_prefix ss in
    let l = split-Lacks r slash in
    let rooted = has_prefix p (slash ∷ []) in
    let j : length (join ss (slash ∷ [])) ≡ length r = ap length (join-split r slash) in
    let k : length p ≤ length r = omega (arith, dir_prefix-join-le ss, j) in
    assemble-Ends r rooted (clean_segs rooted [] (split p slash)) (segs_len (split p slash))
      (omega (arith, clean_segs-le rooted [] (split p slash)))
      (omega (arith, segs_len-dir_prefix ss l, k)) (λ h. omega (arith, rooted_prefix ss l h, k))

length-trim_left-le : (p : ℕ → Bool) (s : Str) → length (trim_left p s) ≤ length s
unfolding trim_left
length-trim_left-le p [] = omega arith
length-trim_left-le p (c ∷ s) = ground (arith, length-trim_left-le p s)

length-reverse : (s : Str) → length (reverse s) ≡ length s
length-reverse [] = refl
length-reverse (c ∷ s) =
    rw (reverse-cons c s) (omega (arith, length-append (reverse s) (c ∷ []), length-reverse s))

pub length-trim_slashes-le : (s : Str) → length (trim_slashes s) ≤ length s
unfolding trim_slashes trim trim_right
length-trim_slashes-le s =
    let p : ℕ → Bool = λ c. c == slash in
    let t = trim_left p s in
    omega (
      arith,
      length-trim_left-le p s,
      length-reverse t,
      length-trim_left-le p (reverse t),
      length-reverse (trim_left p (reverse t)),
    )
