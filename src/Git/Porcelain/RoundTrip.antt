-- ===== src/Git/Porcelain/RoundTrip.antt =====
-- status.go: the parser reads back the records that git status writes with -z.
use repo_man.Git.Porcelain.{
  Porcelain, blank, fields, ahead_behind, parse_ahead_behind, count_xy, set_ahead_behind,
  read_record, read_tokens, parse_porcelain_v2, plain_space,
}
use repo_man.Base.{
  ℕ, ◌+◌, ◌≡◌, refl, ap, ◌∙◌, ◌≢◌, true, false, List, [], ◌∷◌, ◌++◌, arith, Str, codes, pos, atoi,
  eqb, eqb_iff, eqb-nil, has_prefix, has_prefix-append, trim_prefix, drop_prefix, split,
  split_whole, split-append, split_n, cut-append, map, keep, if◌then◌else◌, ◌==◌, All, Lacks,
  has_char, append_assoc,
}

-- A record of git status --porcelain=v2 --branch: the header lines, the ordinary, renamed and
-- unmerged entries, and the untracked and ignored paths. `rest` is what follows the XY field.
pub data Record : Type 0 where
  oid head upstream : Str → Record
  detached_head : Record
  ahead_of : Str → Str → Record
  changed : ℕ → ℕ → Str → Record
  renamed : ℕ → ℕ → Str → Str → Record
  unmerged untracked ignored : Str → Record

-- The NUL-terminated tokens of a record.
unfoldable pub tokens : Record → List Str
tokens (oid s) = (codes "# branch.oid " ++ s) ∷ []
tokens (head s) = (codes "# branch.head " ++ s) ∷ []
tokens (upstream s) = (codes "# branch.upstream " ++ s) ∷ []
tokens detached_head = codes "# branch.head (detached)" ∷ []
tokens (ahead_of a b) = (codes "# branch.ab +" ++ (a ++ b' ' ∷ b'-' ∷ b)) ∷ []
tokens (changed x y rest) = (codes "1 " ++ x ∷ y ∷ b' ' ∷ rest) ∷ []
tokens (renamed x y rest orig) = (codes "2 " ++ x ∷ y ∷ b' ' ∷ rest) ∷ orig ∷ []
tokens (unmerged rest) = (codes "u " ++ rest) ∷ []
tokens (untracked path) = (codes "? " ++ path) ∷ []
tokens (ignored path) = (codes "! " ++ path) ∷ []

unfoldable pub print_tokens : List Str → Str
print_tokens [] = []
print_tokens (t ∷ ts) = t ++ 0 ∷ print_tokens ts

unfoldable pub print : List Record → Str
unfolding print_tokens tokens
print [] = []
print (r ∷ rs) = print_tokens (tokens r) ++ print rs

-- What the status counts for one side of an XY field.
abbrev pub dirt : ℕ → ℕ
dirt x = if x == b'.' then 0 else 1

-- The status that one record adds to.
unfoldable pub tally : Record → Porcelain → Porcelain
tally (oid h) s = s
tally (head h) s = record s { branch = h }
tally (upstream u) s = record s { upstream = u }
tally detached_head s = record s { detached = true }
tally (ahead_of a b) s = record s { ahead = atoi a; behind = atoi b }
tally (changed x y rest) s = record s { staged = s.staged + dirt x; unstaged = s.unstaged + dirt y }
tally (renamed x y rest orig) s = record s {
  staged = s.staged + dirt x;
  unstaged = s.unstaged + dirt y;
}
tally (unmerged rest) s = record s { conflicted = s.conflicted + 1 }
tally (untracked path) s = record s { untracked = s.untracked + 1 }
tally (ignored path) s = s

unfoldable pub tally_all : List Record → Porcelain → Porcelain
unfolding tally
tally_all [] s = s
tally_all (r ∷ rs) s = tally_all rs (tally r s)

-- A number as git writes it: no white space within.
abbrev pub IsWord : Str → Type 0
IsWord = All (λ c. (plain_space c == b' ') ≡ false)

-- A record that git can write: no NUL in a token, no branch of the name "(detached)", words for the
-- counts, and an XY field that is not white.
abbrev pub IsWritten : Record → Type 0
IsWritten (head h) = h ≢ codes "(detached)"
IsWritten (ahead_of a b) = IsWord a × IsWord b
IsWritten (changed x y rest) = ((x == b' ') ≡ false) × ((y == b' ') ≡ false)
IsWritten (renamed x y rest orig) = ((x == b' ') ≡ false) × ((y == b' ') ≡ false)
IsWritten r = Unit

split-print_tokens :
    (ts : List Str) (more : Str)
    → All (Lacks 0) ts
    → split (print_tokens ts ++ more) 0 ≡ ts ++ split more 0
unfolding print_tokens
split-print_tokens [] more h = refl
split-print_tokens (t ∷ ts) more h =
    ap (λ s. split s 0) (append_assoc t (0 ∷ print_tokens ts) more)
    ∙ split-append t (print_tokens ts ++ more) 0
    ∙ rw (split_whole t 0 h.0) (ap (λ xs. t ∷ xs) (split-print_tokens ts more h.1))

split_n-three :
    (s t rest : Str) (c : ℕ)
    → Lacks c s
    → Lacks c t
    → split_n 3 (s ++ c ∷ (t ++ c ∷ rest)) c ≡ s ∷ t ∷ rest ∷ []
unfolding split_n
split_n-three s t rest c hs ht =
    rw (cut-append s (t ++ c ∷ rest) c hs, split_n) (rw (cut-append t rest c ht, split_n) refl)

count_xy-tally :
    (kind x y : ℕ) (rest : Str) (s : Porcelain)
    → (kind == b' ') ≡ false
    → (x == b' ') ≡ false
    → (y == b' ') ≡ false
    → count_xy (split_n 3 (kind ∷ b' ' ∷ x ∷ y ∷ b' ' ∷ rest) b' ') s
      ≡ record s { staged = s.staged + dirt x; unstaged = s.unstaged + dirt y }
count_xy-tally kind x y rest s k hx hy =
    ap (λ fs. count_xy fs s)
      (split_n-three (kind ∷ []) (x ∷ y ∷ []) rest b' ' (unfold has_char in ground arith)
        (unfold has_char in ground arith))
    ∙ counted
  where
    counted :
        count_xy ((kind ∷ []) ∷ (x ∷ y ∷ []) ∷ rest ∷ []) s
        ≡ record s { staged = s.staged + dirt x; unstaged = s.unstaged + dirt y }
    counted = ground arith

trim_prefix-append : (p s : Str) → trim_prefix (p ++ s) p ≡ s
unfolding trim_prefix
trim_prefix-append p s = rw has_prefix-append (drops p s)
  where
    drops : (q t : Str) → drop_prefix (q ++ t) q ≡ t
    drops [] t = unfold drop_prefix in refl
    drops (c ∷ q) t = unfold drop_prefix in drops q t

word_kept : (s : Str) → IsWord s → (map plain_space s ≡ s) × Lacks b' ' s
unfolding has_char
word_kept [] w = (refl, refl)
word_kept (c ∷ s) w =
    let rest = word_kept s w.1 in
    let e : plain_space c ≡ c = ground arith in
    let n : (c == b' ') ≡ false = ground arith in (rw (e, rest.0) refl, rw (n, rest.1) refl)

map_space-append : (s t : Str) → map plain_space (s ++ t) ≡ map plain_space s ++ map plain_space t
map_space-append [] t = refl
map_space-append (c ∷ s) t = ap (λ r. plain_space c ∷ r) (map_space-append s t)

-- The two signed words of a "# branch.ab" line.
fields-pair :
    (s t : Str) → IsWord s → IsWord t → s ≢ [] → t ≢ [] → fields (s ++ b' ' ∷ t) ≡ s ∷ t ∷ []
unfolding fields keep
fields-pair s t hs ht ns nt = rw (map_space-append s (b' ' ∷ t)) (
    rw ((word_kept s hs).0, (word_kept t ht).0)
      (rw (split-append s t b' ') (
        rw (split_whole s b' ' (word_kept s hs).1, split_whole t b' ' (word_kept t ht).1)
          (rw (eqb-nil s ns, eqb-nil t nt) refl))))

parse_ahead_behind-pair :
    (a b : Str)
    → IsWord a
    → IsWord b
    → parse_ahead_behind ((b'+' ∷ a) ++ b' ' ∷ b'-' ∷ b) ≡ (atoi a, atoi b)
unfolding parse_ahead_behind ahead_behind has_prefix trim_prefix drop_prefix
parse_ahead_behind-pair a b ha hb =
    ap (λ fs. ahead_behind fs (pos 0) (pos 0))
      (fields-pair (b'+' ∷ a) (b'-' ∷ b) (refl, ha) (refl, hb) (λ h. cc) (λ h. cc))

not_detached : (h : Str) → h ≢ codes "(detached)" → eqb h (codes "(detached)") ≡ false
not_detached h n = ground (arith, eqb_iff h (codes "(detached)"))

read_record-tally :
    (r : Record) (ts : List Str) (s : Porcelain)
    → IsWritten r
    → read_tokens false (tokens r ++ ts) s ≡ read_tokens false ts (tally r s)
unfolding tokens tally read_tokens read_record has_prefix eqb
read_record-tally (oid h) ts s w = refl
read_record-tally (head h) ts s w = rw trim_prefix-append (rw (not_detached h w) refl)
read_record-tally (upstream u) ts s w = rw trim_prefix-append refl
read_record-tally detached_head ts s w = refl
read_record-tally (ahead_of a b) ts s w =
    ap (λ v. read_tokens false ts (set_ahead_behind v s)) (parse_ahead_behind-pair a b w.0 w.1)
read_record-tally (changed x y rest) ts s w = rw (count_xy-tally b'1' x y rest s refl w.0 w.1) refl
read_record-tally (renamed x y rest orig) ts s w =
    rw (count_xy-tally b'2' x y rest s refl w.0 w.1) refl
read_record-tally (unmerged rest) ts s w = refl
read_record-tally (untracked path) ts s w = refl
read_record-tally (ignored path) ts s w = refl

-- No token of the record holds a NUL.
abbrev pub IsTerminated : Record → Type 0
IsTerminated r = All (Lacks 0) (tokens r)

read_tokens-print :
    (rs : List Record) (s : Porcelain)
    → All IsWritten rs
    → All IsTerminated rs
    → read_tokens false (split (print rs) 0) s ≡ tally_all rs s
unfolding print tally_all
read_tokens-print [] s w t = unfold split read_tokens eqb in refl
read_tokens-print (r ∷ rs) s w t =
    ap (λ ts. read_tokens false ts s) (split-print_tokens (tokens r) (print rs) t.0)
    ∙ read_record-tally r (split (print rs) 0) s w.0
    ∙ read_tokens-print rs (tally r s) w.1 t.1

-- The parser reads what git writes: on the records of a status in any order, each of them followed
-- by a NUL, with no NUL within, it finds the sum of what each record says on its own. The second
-- path of a rename, whatever it holds, counts for nothing.
pub parse_porcelain_v2-print :
    (rs : List Record)
    → All IsWritten rs
    → All IsTerminated rs
    → parse_porcelain_v2 (print rs) ≡ tally_all rs blank
unfolding parse_porcelain_v2
parse_porcelain_v2-print rs w t = read_tokens-print rs blank w t
