-- ===== src/Base/Ints.antt =====
-- Go's int, 64 bits wide, and strconv.Atoi.
use Prim.Native.Nat.{ℕ, zero, suc, ◌+◌, ◌-◌, ◌*◌, ◌^◌}
use mathlib.Core.Bool.{Bool, true, false, ◌&&◌}
use mathlib.Core.List.{[], ◌∷◌}
use mathlib.Core.Option.{Option, none, some}
use repo_man.Base.Tests.{if◌then◌else◌, ◌==◌, ltb, leb}
use repo_man.Base.Text.{Str}

pub data ℤ : Type 0 where
  pos negsuc : ℕ → ℤ

unfoldable pub neg : ℕ → ℤ
neg zero = pos zero
neg (suc n) = negsuc n

-- The value of a row of digits; a value past 64 bits ends the reading there.
unfoldable pub digits_value : ℕ → Str → Option ℕ
digits_value acc [] = some acc
digits_value acc (c ∷ s) =
    let n = acc * 10 + (c - b'0') in
    let rest = digits_value n s in
    if leb b'0' c && leb c b'9' then if leb (2 ^ 64) n then some (2 ^ 64) else rest else none

-- The value, held within 63 bits.
unfoldable pub clamp : Bool → ℕ → ℤ
unfolding neg
clamp false n = pos (if ltb n (2 ^ 63) then n else 2 ^ 63 - 1)
clamp true n = neg (if ltb (2 ^ 63) n then 2 ^ 63 else n)

unfoldable pub signed : Bool → Str → ℤ
unfolding digits_value clamp
signed minus [] = pos 0
signed minus (c ∷ s) = elim (digits_value 0 (c ∷ s)) [ none ↦ pos 0 | some n ↦ clamp minus n ]

-- The value that strconv.Atoi returns, with its error or without.
unfoldable pub atoi : Str → ℤ
unfolding signed
atoi [] = pos 0
atoi (c ∷ s) =
    if c == b'-' then signed true s else if c == b'+' then signed false s else signed false (c ∷ s)
