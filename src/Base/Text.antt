-- ===== src/Base/Text.antt =====
-- Go strings as lists of code points, and the functions of package strings that the program calls.
-- A string is taken to be valid UTF-8, so prefixes, splits and comparisons are the same on code
-- points as on bytes; `byte_len` gives the length in bytes. `to_lower` folds the ASCII letters.
use Prim.Native.Char.{code}
use Prim.Native.Nat.{ℕ, zero, suc, ◌+◌, ◌-◌}
use Prim.Native.String.{String}
use mathlib.Core.Path.{◌≡◌, refl}
use mathlib.Core.Logic.{◌↔◌, ◌≢◌}
use mathlib.Core.Bool.{Bool, true, false, ◌&&◌, ◌||◌}
use mathlib.Core.Option.{Option, none, some}
use mathlib.Core.List.{List, [], ◌∷◌, ◌++◌, reverse, map}
use native.Mathlib.Omega.{arith}
use repo_man.Base.Tests.{if◌then◌else◌, ◌==◌, ltb, leb}

abbrev pub Str : Type 0
Str = List ℕ

abbrev pub codes : String → Str
codes String.[] = []
codes (String.◌∷◌ c s) = code c ∷ codes s

unfoldable pub eqb : Str → Str → Bool
eqb [] [] = true
eqb [] (y ∷ ys) = false
eqb (x ∷ xs) [] = false
eqb (x ∷ xs) (y ∷ ys) = x == y && eqb xs ys

pub eqb_refl : (s : Str) → eqb s s ≡ true
unfolding eqb
eqb_refl [] = refl
eqb_refl (x ∷ xs) = ground (arith, eqb_refl xs)

pub eqb→eq : (s t : Str) → eqb s t ≡ true → s ≡ t
unfolding eqb
eqb→eq [] [] h = refl
eqb→eq [] (y ∷ ys) h = cc
eqb→eq (x ∷ xs) [] h = cc
eqb→eq (x ∷ xs) (y ∷ ys) h = ground (arith, eqb→eq xs ys)

pub eqb_iff : (s t : Str) → (eqb s t ≡ true) ↔ (s ≡ t)
eqb_iff s t = (eqb→eq s t, λ e. rw e (eqb_refl t))

pub eqb-ne : (s t : Str) → eqb s t ≡ false → s ≢ t
eqb-ne s t h e = ground (arith, eqb_iff s t)

pub eqb-nil : (s : Str) → s ≢ [] → eqb s [] ≡ false
unfolding eqb
eqb-nil [] h = absurd (h refl)
eqb-nil (c ∷ s) h = refl

-- strings.HasPrefix(s, p)
unfoldable pub has_prefix : Str → Str → Bool
has_prefix s [] = true
has_prefix [] (y ∷ p) = false
has_prefix (x ∷ s) (y ∷ p) = x == y && has_prefix s p

pub has_prefix-append : (p s : Str) → has_prefix (p ++ s) p ≡ true
unfolding has_prefix
has_prefix-append [] s = refl
has_prefix-append (x ∷ p) s = ground (arith, has_prefix-append p s)

-- strings.TrimPrefix(s, p)
unfoldable pub drop_prefix : Str → Str → Str
drop_prefix s [] = s
drop_prefix [] (y ∷ p) = []
drop_prefix (x ∷ s) (y ∷ p) = drop_prefix s p

unfoldable pub trim_prefix : Str → Str → Str
unfolding has_prefix drop_prefix
trim_prefix s p = if has_prefix s p then drop_prefix s p else s

-- strings.TrimSuffix(s, p)
unfoldable pub trim_suffix : Str → Str → Str
unfolding trim_prefix
trim_suffix s p = reverse (trim_prefix (reverse s) (reverse p))

-- strings.ContainsRune, and strings.ContainsAny over a list of characters.
unfoldable pub has_char : ℕ → Str → Bool
has_char c [] = false
has_char c (x ∷ s) = x == c || has_char c s

unfoldable pub contains_any : Str → Str → Bool
unfolding has_char
contains_any [] cs = false
contains_any (x ∷ s) cs = has_char x cs || contains_any s cs

-- strings.Contains(s, p)
unfoldable pub contains : Str → Str → Bool
unfolding has_prefix
contains [] p = has_prefix [] p
contains (x ∷ s) p = has_prefix (x ∷ s) p || contains s p

-- strings.TrimLeftFunc and strings.TrimRightFunc.
unfoldable pub trim_left : (ℕ → Bool) → Str → Str
trim_left p [] = []
trim_left p (x ∷ s) = let rest = trim_left p s in if p x then rest else x ∷ s

unfoldable pub trim_right : (ℕ → Bool) → Str → Str
unfolding trim_left
trim_right p s = reverse (trim_left p (reverse s))

unfoldable pub trim : (ℕ → Bool) → Str → Str
unfolding trim_left trim_right
trim p s = trim_right p (trim_left p s)

-- unicode.IsSpace
unfoldable pub is_space : ℕ → Bool
is_space c =
    (leb 9 c && leb c 13)
    || c == 0x20
    || c == 0x85
    || c == 0xA0
    || c == 0x1680
    || (leb 0x2000 c && leb c 0x200A)
    || c == 0x2028
    || c == 0x2029
    || c == 0x202F
    || c == 0x205F
    || c == 0x3000

-- strings.TrimSpace
unfoldable pub trim_space : Str → Str
unfolding trim is_space
trim_space s = trim is_space s

-- strings.ToLower, on the ASCII letters.
unfoldable pub lower_char : ℕ → ℕ
lower_char c = if leb b'A' c && leb c b'Z' then c + 32 else c

unfoldable pub to_lower : Str → Str
unfolding lower_char
to_lower s = map lower_char s

-- strings.Split(s, sep) at one character; it returns one part at least.
abbrev pub push_char : ℕ → List Str → List Str
push_char c [] = (c ∷ []) ∷ []
push_char c (p ∷ ps) = (c ∷ p) ∷ ps

unfoldable pub split : Str → ℕ → List Str
split [] sep = [] ∷ []
split (c ∷ s) sep = let rest = split s sep in if c == sep then [] ∷ rest else push_char c rest

-- strings.Cut at one character: the text before the first `c`, and what follows it.
unfoldable pub cut : ℕ → Str → Option (Str × Str)
cut c [] = none
cut c (x ∷ s) = elim (x == c) [
  | true ↦ some ([], s)
  | false ↦ elim (cut c s) [ none ↦ none | some (a, b) ↦ some (x ∷ a, b) ]
]

-- strings.SplitN(s, sep, n) for n > 0.
unfoldable pub split_n : ℕ → Str → ℕ → List Str
unfolding cut
split_n zero s c = []
split_n (suc zero) s c = s ∷ []
split_n (suc (suc n)) s c = elim (cut c s) [ none ↦ s ∷ [] | some (a, b) ↦ a ∷ split_n (suc n) b c ]

-- strings.Join(parts, sep)
unfoldable pub join : List Str → Str → Str
join [] sep = []
join (p ∷ []) sep = p
join (p ∷ q ∷ ps) sep = p ++ (sep ++ join (q ∷ ps) sep)

-- The width of a code point in UTF-8, and len(s).
unfoldable pub rune_len : ℕ → ℕ
rune_len c = if ltb c 0x80 then 1 else if ltb c 0x800 then 2 else if ltb c 0x10000 then 3 else 4

unfoldable pub byte_len : Str → ℕ
unfolding rune_len
byte_len [] = 0
byte_len (c ∷ s) = rune_len c + byte_len s

-- s[:n] on the bytes; a code point that the cut splits is left out whole.
unfoldable pub take_bytes : ℕ → Str → Str
unfolding rune_len
take_bytes n [] = []
take_bytes n (c ∷ s) = if leb (rune_len c) n then c ∷ take_bytes (n - rune_len c) s else []

-- strings.Cut at a text: what stands before its first occurrence, and what follows it.
unfoldable pub cut_text : Str → Str → Option (Str × Str)
unfolding has_prefix drop_prefix
cut_text p [] = if has_prefix [] p then some ([], []) else none
cut_text p (c ∷ s) = elim (has_prefix (c ∷ s) p) [
  | true ↦ some ([], drop_prefix (c ∷ s) p)
  | false ↦ elim (cut_text p s) [ none ↦ none | some (a, b) ↦ some (c ∷ a, b) ]
]
