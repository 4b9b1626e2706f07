-- ===== src/Base/Splits.antt =====
-- Laws of split and join at one character.
use mathlib.Core.Path.{◌≡◌, refl, ap, ◌∙◌}
use mathlib.Core.Logic.{◌≢◌, inl, inr}
use mathlib.Core.Bool.{Bool, true, false}
use mathlib.Core.List.{List, [], ◌∷◌, ◌++◌, append_assoc, reverse, reverse-cons}
use Prim.Native.Nat.{ℕ}
use native.Mathlib.Omega.{arith}
use repo_man.Base.Tests.{◌==◌, Bool-cases}
use repo_man.Base.Lists.{All}
use mathlib.Core.Option.{some}
use repo_man.Base.Text.{Str, cut, split, join, push_char, has_char, trim_left, trim_right}

-- The character does not stand in the text.
abbrev pub Lacks : ℕ → Str → Type 0
Lacks c s = has_char c s ≡ false

-- The last of the parts that are left.
unfoldable pub last_part : List Str → Str
last_part [] = []
last_part (p ∷ []) = p
last_part (p ∷ q ∷ ps) = last_part (q ∷ ps)

pub push_char-ne-nil : (c : ℕ) (ps : List Str) → push_char c ps ≢ []
push_char-ne-nil c [] h = cc
push_char-ne-nil c (p ∷ ps) h = cc

pub split-ne-nil : (s : Str) (c : ℕ) → split s c ≢ []
unfolding split
split-ne-nil [] c h = cc
split-ne-nil (x ∷ s) c h = ground (arith, push_char-ne-nil x (split s c))

push_char-append :
    (c : ℕ) (ps qs : List Str) → ps ≢ [] → push_char c (ps ++ qs) ≡ push_char c ps ++ qs
push_char-append c [] qs h = absurd (h refl)
push_char-append c (p ∷ ps) qs h = refl

pub split-append : (s e : Str) (c : ℕ) → split (s ++ c ∷ e) c ≡ split s c ++ split e c
unfolding split
split-append [] e c = ground arith
split-append (x ∷ s) e c =
    ground (arith, split-append s e c, push_char-append x (split s c) (split e c), split-ne-nil s c)

pub split_whole : (s : Str) (c : ℕ) → Lacks c s → split s c ≡ s ∷ []
unfolding split has_char
split_whole [] c h = refl
split_whole (x ∷ s) c h = ground (arith, split_whole s c)

pub last_part-append : (ps qs : List Str) → qs ≢ [] → last_part (ps ++ qs) ≡ last_part qs
unfolding last_part
last_part-append [] qs h = refl
last_part-append (p ∷ []) [] h = absurd (h refl)
last_part-append (p ∷ []) (q ∷ qs) h = refl
last_part-append (p ∷ r ∷ ps) qs h = last_part-append (r ∷ ps) qs h

push_char-Lacks :
    (x c : ℕ) (ps : List Str) → (x == c) ≡ false → All (Lacks c) ps → All (Lacks c) (push_char x ps)
unfolding has_char
push_char-Lacks x c [] e h = (ground arith, tt)
push_char-Lacks x c (p ∷ ps) e h = (ground arith, h.1)

-- No part of a split holds the separator.
pub split-Lacks : (s : Str) (c : ℕ) → All (Lacks c) (split s c)
unfolding split has_char
split-Lacks [] c = (refl, tt)
split-Lacks (x ∷ s) c = elim (Bool-cases (x == c)) [
  | inl e ↦ rw e (refl, split-Lacks s c)
  | inr e ↦ rw e (push_char-Lacks x c (split s c) e (split-Lacks s c))
]

-- The parts of a split joined again.
pub join-split : (s : Str) (c : ℕ) → join (split s c) (c ∷ []) ≡ s
unfolding split join
join-split [] c = refl
join-split (x ∷ s) c = elim (Bool-cases (x == c)) [
  | inl e ↦ rw e (opened (split s c) (split-ne-nil s c) (join-split s c) (ground arith))
  | inr e ↦ rw e (pushed (split s c) (split-ne-nil s c) ∙ ap (λ t. x ∷ t) (join-split s c))
]
  where
    opened :
        (ps : List Str) → ps ≢ [] → join ps (c ∷ []) ≡ s → x ≡ c → join ([] ∷ ps) (c ∷ []) ≡ x ∷ s
    opened [] n h e = absurd (n refl)
    opened (p ∷ ps) n h e = cc

    pushed : (ps : List Str) → ps ≢ [] → join (push_char x ps) (c ∷ []) ≡ x ∷ join ps (c ∷ [])
    pushed [] n = absurd (n refl)
    pushed (p ∷ []) n = refl
    pushed (p ∷ q ∷ ps) n = refl

-- Parts that do not hold the separator, split again.
pub split-join :
    (p : Str) (ps : List Str) (c : ℕ)
    → All (Lacks c) (p ∷ ps)
    → split (join (p ∷ ps) (c ∷ [])) c ≡ p ∷ ps
unfolding join
split-join p [] c h = split_whole p c h.0
split-join p (q ∷ ps) c h =
    split-append p (join (q ∷ ps) (c ∷ [])) c
    ∙ (rw (split_whole p c h.0, split-join q ps c h.1) refl)

pub join-append :
    (p : Str) (ps : List Str) (q : Str) (qs : List Str) (sep : Str)
    → join ((p ∷ ps) ++ q ∷ qs) sep ≡ join (p ∷ ps) sep ++ (sep ++ join (q ∷ qs) sep)
unfolding join
join-append p [] q qs sep = refl
join-append p (r ∷ ps) q qs sep = rw (join-append r ps q qs sep) (simp append_assoc)

has_char-append : (c : ℕ) (s t : Str) → Lacks c s → Lacks c t → Lacks c (s ++ t)
unfolding has_char
has_char-append c [] t h k = k
has_char-append c (x ∷ s) t h k = ground (arith, has_char-append c s t)

Lacks-reverse : (c : ℕ) (s : Str) → Lacks c s → Lacks c (reverse s)
Lacks-reverse c [] h = h
Lacks-reverse c (x ∷ s) h = rw (reverse-cons x s) (
    has_char-append c (reverse s) (x ∷ []) (Lacks-reverse c s (unfold has_char in ground arith))
      (unfold has_char in ground arith))

trim_left-Lacks : (c : ℕ) (p : ℕ → Bool) (s : Str) → Lacks c s → Lacks c (trim_left p s)
unfolding trim_left has_char
trim_left-Lacks c p [] h = h
trim_left-Lacks c p (x ∷ s) h = ground (arith, trim_left-Lacks c p s)

-- Trimming takes characters away only.
pub trim_right-Lacks : (c : ℕ) (p : ℕ → Bool) (s : Str) → Lacks c s → Lacks c (trim_right p s)
unfolding trim_right
trim_right-Lacks c p s h =
    Lacks-reverse c (trim_left p (reverse s))
      (trim_left-Lacks c p (reverse s) (Lacks-reverse c s h))

pub last_part-Lacks : (c : ℕ) (ps : List Str) → All (Lacks c) ps → Lacks c (last_part ps)
unfolding last_part has_char
last_part-Lacks c [] h = refl
last_part-Lacks c (p ∷ []) h = h.0
last_part-Lacks c (p ∷ q ∷ ps) h = last_part-Lacks c (q ∷ ps) h.1

pub cut-append : (s more : Str) (c : ℕ) → Lacks c s → cut c (s ++ c ∷ more) ≡ some (s, more)
unfolding cut has_char
cut-append [] more c h = let e : (c == c) ≡ true = ground arith in rw (e, cut) refl
cut-append (x ∷ s) more c h =
    let n : (x == c) ≡ false = ground arith in
    let t : has_char c s ≡ false = ground arith in rw (n, cut) (rw (cut-append s more c t) refl)
