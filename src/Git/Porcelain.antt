-- ===== src/Git/Porcelain.antt =====
-- internal/git/status.go: parsePorcelainV2 and parseAheadBehind. Texts are bytes here.
pub mod RoundTrip
use repo_man.Base.{
  ℕ, ◌+◌, ◌-◌, Bool, true, false, not, List, [], ◌∷◌, Str, codes, ℤ, pos, atoi, eqb, has_prefix,
  trim_prefix, drop_prefix, split, split_n, cut, map, keep, leb, length, if◌then◌else◌, ◌==◌, ◌&&◌,
  ◌||◌,
}

-- porcelainStatus
pub record Porcelain : Type 0 where
  pub branch : Str
  pub detached : Bool
  pub upstream : Str
  pub ahead : ℤ
  pub behind : ℤ
  pub staged : ℕ
  pub unstaged : ℕ
  pub conflicted : ℕ
  pub untracked : ℕ

abbrev pub blank : Porcelain
blank = record {
  branch = [];
  detached = false;
  upstream = [];
  ahead = pos 0;
  behind = pos 0;
  staged = 0;
  unstaged = 0;
  conflicted = 0;
  untracked = 0;
}

-- strings.Fields, on the ASCII white space.
abbrev pub plain_space : ℕ → ℕ
plain_space c = if leb 9 c && leb c 13 then b' ' else c

unfoldable pub fields : Str → List Str
unfolding split keep eqb
fields s = keep (λ f. not (eqb f [])) (split (map plain_space s) b' ')

-- The loop over the fields.
unfoldable pub ahead_behind : List Str → ℤ → ℤ → ℤ × ℤ
unfolding has_prefix atoi trim_prefix
ahead_behind [] a b = (a, b)
ahead_behind (f ∷ fs) a b =
    if has_prefix f (b'+' ∷ [])
    then ahead_behind fs (atoi (trim_prefix f (b'+' ∷ []))) b
    else if has_prefix f (b'-' ∷ [])
    then ahead_behind fs a (atoi (trim_prefix f (b'-' ∷ [])))
    else ahead_behind fs a b

unfoldable pub parse_ahead_behind : Str → ℤ × ℤ
unfolding ahead_behind fields
parse_ahead_behind v = ahead_behind (fields v) (pos 0) (pos 0)

-- The XY field of a changed entry.
abbrev pub count_xy : List Str → Porcelain → Porcelain
count_xy (code ∷ (x ∷ y ∷ []) ∷ more) s = record s {
  staged = if x == b'.' then s.staged else s.staged + 1;
  unstaged = if y == b'.' then s.unstaged else s.unstaged + 1;
}
count_xy more s = s

abbrev set_head : Str → Porcelain → Porcelain
set_head h s =
    if eqb h (codes "(detached)") then record s { detached = true } else record s { branch = h }

abbrev set_ahead_behind : ℤ × ℤ → Porcelain → Porcelain
set_ahead_behind (a, b) s = record s { ahead = a; behind = b }

-- One token that is not empty: what it adds, and whether the next token belongs to it.
unfoldable pub read_record : Str → Porcelain → Porcelain × Bool
unfolding has_prefix trim_prefix parse_ahead_behind split_n eqb
read_record line s =
    if has_prefix line (codes "# branch.oid ")
    then (s, false)
    else if has_prefix line (codes "# branch.head ")
    then (set_head (trim_prefix line (codes "# branch.head ")) s, false)
    else if has_prefix line (codes "# branch.upstream ")
    then (record s { upstream = trim_prefix line (codes "# branch.upstream ") }, false)
    else if has_prefix line (codes "# branch.ab ")
    then (set_ahead_behind (parse_ahead_behind (trim_prefix line (codes "# branch.ab "))) s, false)
    else if has_prefix line (codes "1 ") || has_prefix line (codes "2 ")
    then (count_xy (split_n 3 line b' ') s, has_prefix line (b'2' ∷ []))
    else if has_prefix line (codes "u ")
    then (record s { conflicted = s.conflicted + 1 }, false)
    else if has_prefix line (codes "? ")
    then (record s { untracked = s.untracked + 1 }, false)
    else (s, false)

-- The loop over the tokens; `skip` says that the next token belongs to the record before it.
unfoldable pub read_tokens : Bool → List Str → Porcelain → Porcelain
unfolding read_record eqb
read_tokens skip [] s = s
read_tokens true (t ∷ ts) s = read_tokens false ts s
read_tokens false (t ∷ ts) s =
    let (s', skip) = read_record t s in
    if eqb t [] then read_tokens false ts s else read_tokens skip ts s'

unfoldable pub parse_porcelain_v2 : Str → Porcelain
unfolding read_tokens split
parse_porcelain_v2 out = read_tokens false (split out 0) blank
