-- ===== src/Safepath/Names.antt =====
-- safepath.go: which names ValidName accepts.
use repo_man.Safepath.{slash, dot, dot_dot, valid_name, is_control}
use repo_man.Safepath.Cleaning.{IsSafe}
use repo_man.Base.{
  ℕ, ◌≤◌, ◌≡◌, refl, ◌≢◌, ◌↔◌, false, ◌||◌, [], ◌∷◌, none, arith, Str, eqb, has_prefix, has_char,
  contains_any, any, byte_len, All,
}

-- A character of a name.
abbrev pub IsNameChar : ℕ → Type 0
IsNameChar c = (0x20 ≤ c) × (c ≢ 0x7F) × (c ≢ slash) × (c ≢ b'\\')

-- One directory name: not empty, no dot and no dash at its start, no separator, no control
-- character, and at most 255 bytes.
pub record IsName (s : Str) : Type 0 where
  pub safe : IsSafe s
  pub chars : All IsNameChar s
  pub short : byte_len s ≤ 255

chars-IsNameChar :
    (s : Str)
    → contains_any s (slash ∷ b'\\' ∷ []) ≡ false
    → any is_control s ≡ false
    → All IsNameChar s
unfolding contains_any has_char any is_control
chars-IsNameChar [] h k = tt
chars-IsNameChar (c ∷ s) h k = ground (arith, chars-IsNameChar s)

IsNameChar-chars :
    (s : Str)
    → All IsNameChar s
    → (contains_any s (slash ∷ b'\\' ∷ []) ≡ false) × (any is_control s ≡ false)
unfolding contains_any has_char any is_control
IsNameChar-chars [] h = (refl, refl)
IsNameChar-chars (c ∷ s) h = ground (arith, IsNameChar-chars s h.1)

-- The test of the first character, after the tests of "", "." and "..".
starts :
    (s : Str)
    → IsSafe s
    → (eqb s [] ≡ false)
      × ((eqb s dot || eqb s dot_dot) ≡ false)
      × (has_prefix s dot ≡ false)
      × (has_prefix s (b'-' ∷ []) ≡ false)
unfolding eqb has_prefix
starts [] h = absurd h
starts (c ∷ s) h = ground arith

started :
    (s : Str)
    → eqb s [] ≡ false
    → has_prefix s dot ≡ false
    → has_prefix s (b'-' ∷ []) ≡ false
    → IsSafe s
unfolding eqb has_prefix
started [] e d h = cc
started (c ∷ s) e d h = ground arith

-- ValidName accepts exactly the names of IsName.
pub valid_name-none : (s : Str) → (valid_name s ≡ none) ↔ IsName s
valid_name-none s = (sound, complete)
  where
    complete : IsName s → valid_name s ≡ none
    complete n =
        let st = starts s n.safe in
        let ch = IsNameChar-chars s n.chars in unfold valid_name in ground arith

    sound : valid_name s ≡ none → IsName s
    sound h = record {
      safe =
          started s (unfold valid_name in ground arith) (unfold valid_name in ground arith)
            (unfold valid_name in ground arith);
      chars =
          chars-IsNameChar s (unfold valid_name in ground arith)
            (unfold valid_name in ground arith);
      short = unfold valid_name in ground arith;
    }
