-- ===== src/Safepath/Cleaning.antt =====
-- filepath.Clean on the paths that Resolve makes.
use mathlib.Core.List.{reverse-cons, reverse-reverse}
use repo_man.Safepath.{
  slash, dot, dot_dot, clean, clean_seg, clean_segs, assemble, check_segment, check_segments,
}
use repo_man.Base.{
  ◌≡◌, refl, ap, ◌∙◌, ◌≢◌, Bool, true, false, ◌||◌, List, [], ◌∷◌, ◌++◌, none, some, arith, Str,
  reverse, eqb, eqb_iff, eqb→eq, eqb-nil, has_prefix, split, join, split-append, split-join,
  split-Lacks, Lacks, All-reverse, All, append_assoc, append-nil, inl, inr, Bool-cases,
  Option-cases,
}

-- An element that Clean keeps and Resolve accepts: not empty, and no dot or dash at its start.
abbrev pub IsSafe : Str → Type 0
IsSafe [] = ⊥
IsSafe (c ∷ s) = (c ≢ b'.') × (c ≢ b'-')

pub check_segment-none : (s : Str) → check_segment s ≡ none → IsSafe s
unfolding check_segment
check_segment-none [] h = cc
check_segment-none (c ∷ s) h = ground arith

pub check_segment-IsSafe : (s : Str) → IsSafe s → check_segment s ≡ none
unfolding check_segment
check_segment-IsSafe [] h = absurd h
check_segment-IsSafe (c ∷ s) h = ground arith

pub check_segments-none : (ss : List Str) → check_segments ss ≡ none → All IsSafe ss
unfolding check_segments
check_segments-none [] h = tt
check_segments-none (s ∷ ss) h = elim (Option-cases (check_segment s)) [
  | inl e ↦ (check_segment-none s e, check_segments-none ss (rw (e, check_segments) at h))
  | inr (x, e) ↦ let bad : some x ≡ none = rw (e, check_segments) at h in cc
]

pub check_segments-IsSafe : (ss : List Str) → All IsSafe ss → check_segments ss ≡ none
unfolding check_segments
check_segments-IsSafe [] h = refl
check_segments-IsSafe (s ∷ ss) h =
    rw (check_segment-IsSafe s h.0, check_segments) (check_segments-IsSafe ss h.1)

-- An element that stays as it is under Clean.
abbrev pub IsElement : Str → Type 0
IsElement s = (s ≢ []) × (s ≢ dot) × (s ≢ dot_dot) × Lacks slash s

pub IsSafe-IsElement : (s : Str) → IsSafe s → Lacks slash s → IsElement s
IsSafe-IsElement [] h l = absurd h
IsSafe-IsElement (c ∷ s) h l = (λ e. cc, λ e. h.0 (ground arith), λ e. h.0 (ground arith), l)

pub All-IsElement : (ss : List Str) → All IsSafe ss → All (Lacks slash) ss → All IsElement ss
All-IsElement [] h l = tt
All-IsElement (s ∷ ss) h l = (IsSafe-IsElement s h.0 l.0, All-IsElement ss h.1 l.1)

eqb_ne : (s t : Str) → s ≢ t → eqb s t ≡ false
eqb_ne s t h = ground (arith, eqb_iff s t)

clean_seg-push : (out : List Str) (s : Str) → IsElement s → clean_seg true out s ≡ s ∷ out
unfolding clean_seg
clean_seg-push [] s h = rw (eqb-nil s h.0, eqb_ne s dot h.1, eqb_ne s dot_dot h.2)
clean_seg-push (o ∷ out) s h = rw (eqb-nil s h.0, eqb_ne s dot h.1, eqb_ne s dot_dot h.2)

pub clean_segs-push :
    (out ss : List Str) → All IsElement ss → clean_segs true out ss ≡ reverse ss ++ out
unfolding clean_segs
clean_segs-push out [] h = refl
clean_segs-push out (s ∷ ss) h =
    ap (λ o. clean_segs true o ss) (clean_seg-push out s h.0)
    ∙ clean_segs-push (s ∷ out) ss h.1
    ∙ rw (reverse-cons s ss) (simp append_assoc)

not_eqb : (s t : Str) → eqb s t ≡ false → s ≢ t
not_eqb s t h e = ground (arith, eqb_iff s t)

clean_seg_dropped :
    (out : List Str) (s : Str) → (eqb s [] || eqb s dot) ≡ true → clean_seg true out s ≡ out
unfolding clean_seg
clean_seg_dropped [] s h = rw h
clean_seg_dropped (o ∷ out) s h = rw h

clean_seg-IsElement :
    (out : List Str) (s : Str)
    → Lacks slash s
    → All IsElement out
    → All IsElement (clean_seg true out s)
unfolding clean_seg
clean_seg-IsElement out s l h = elim (Bool-cases (eqb s [])) [
  | inl e ↦ dropped out h (clean_seg_dropped out s (rw e))
  | inr e ↦ elim (Bool-cases (eqb s dot)) [
    | inl d ↦ dropped out h (clean_seg_dropped out s (rw (e, d)))
    | inr d ↦ elim (Bool-cases (eqb s dot_dot)) [
      | inl u ↦ raised out h (rw (eqb→eq s dot_dot u))
      | inr u ↦
          let n : IsElement s = (not_eqb s [] e, not_eqb s dot d, not_eqb s dot_dot u, l) in
          rw (clean_seg-push out s n) (n, h)
    ]
  ]
]
  where
    dropped :
        (o : List Str)
        → All IsElement o
        → clean_seg true out s ≡ o
        → All IsElement (clean_seg true out s)
    dropped o h e = rw e h

    raised :
        (out' : List Str)
        → All IsElement out'
        → clean_seg true out' s ≡ clean_seg true out' dot_dot
        → All IsElement (clean_seg true out' s)
    raised [] h e = rw e tt
    raised (o ∷ out') h e = rw e (rw (eqb_ne o dot_dot h.0.2) h.1)

pub clean_segs-IsElement :
    (out ss : List Str)
    → All (Lacks slash) ss
    → All IsElement out
    → All IsElement (clean_segs true out ss)
unfolding clean_segs
clean_segs-IsElement out [] l h = h
clean_segs-IsElement out (s ∷ ss) l h =
    clean_segs-IsElement (clean_seg true out s) ss l.1 (clean_seg-IsElement out s l.0 h)

pub clean_segs-append :
    (rooted : Bool) (out ss ts : List Str)
    → clean_segs rooted out (ss ++ ts) ≡ clean_segs rooted (clean_segs rooted out ss) ts
unfolding clean_segs
clean_segs-append rooted out [] ts = refl
clean_segs-append rooted out (s ∷ ss) ts = clean_segs-append rooted (clean_seg rooted out s) ss ts

-- The elements of a cleaned path, the last one first, for a path behind a leading slash.
pub elements : Str → List Str
elements p = clean_segs true [] (split (slash ∷ p) slash)

pub elements-IsElement : (p : Str) → All IsElement (elements p)
unfolding elements
elements-IsElement p =
    clean_segs-IsElement [] (split (slash ∷ p) slash) (split-Lacks (slash ∷ p) slash) tt

pub clean-elements : (p : Str) → clean (slash ∷ p) ≡ assemble true (elements p)
unfolding elements clean has_prefix
clean-elements p = refl

All-Lacks : (ss : List Str) → All IsElement ss → All (Lacks slash) ss
All-Lacks [] h = tt
All-Lacks (s ∷ ss) h = (h.0.3, All-Lacks ss h.1)

split-slash : (s : Str) → split (slash ∷ s) slash ≡ [] ∷ split s slash
unfolding split
split-slash s = refl

elements-join : (ss : List Str) → All IsElement ss → elements (join ss (slash ∷ [])) ≡ reverse ss
unfolding elements
elements-join [] h = unfold split join clean_segs clean_seg in refl
elements-join (s ∷ ss) h =
    ap (clean_segs true [])
      (split-slash _ ∙ ap (λ (p : List Str). [] ∷ p) (split-join s ss slash (All-Lacks (s ∷ ss) h)))
    ∙ unfold clean_segs clean_seg in (clean_segs-push [] (s ∷ ss) h ∙ append-nil _)

-- A path that elements make is clean.
pub elements-assemble :
    (out : List Str) → All IsElement out → elements (join (reverse out) (slash ∷ [])) ≡ out
elements-assemble out h =
    elements-join (reverse out) (All-reverse IsElement out h) ∙ reverse-reverse out

pub clean-assemble :
    (out : List Str) → All IsElement out → clean (assemble true out) ≡ assemble true out
clean-assemble out h =
    unfold assemble in
    clean-elements (join (reverse out) (slash ∷ [])) ∙ rw (elements-assemble out h)

-- A path below a root adds its elements to the root's.
pub elements_below :
    (p r : Str)
    → All IsSafe (split r slash)
    → elements (p ++ slash ∷ r) ≡ reverse (split r slash) ++ elements p
unfolding elements
elements_below p r h =
    ap (clean_segs true []) (split-append (slash ∷ p) r slash)
    ∙ clean_segs-append true [] (split (slash ∷ p) slash) (split r slash)
    ∙ clean_segs-push _ (split r slash) (All-IsElement _ h (split-Lacks r slash))
