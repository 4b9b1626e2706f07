-- ===== src/Jobs/Tail.antt =====
-- internal/jobs/jobs.go, tailBuffer: the tail of a job's output, as bytes.
use repo_man.Base.{
  ℕ, ◌-◌, ◌*◌, ◌^◌, ◌≤◌, ◌≡◌, ap, ◌∙◌, Bool, not, ◌||◌, List, [], ◌∷◌, ◌++◌, map, arith, Str,
  length, length-append, length-drop, drop, drop-append, drop-drop, keep, eqb, split, join,
  last_part, trim_right, trim_right-Lacks, last_part-Lacks, eqb_iff, ◌≢◌, ltb, if◌then◌else◌, ◌==◌,
  append_assoc, append-nil, All, Lacks, split-Lacks, Bool-cases, inl, inr, sym,
}

-- 16 << 10
abbrev pub max_output : ℕ
max_output = 16 * 2 ^ 10

-- tailBuffer.Write, with the buffer's limit.
unfoldable pub write : ℕ → List ℕ → List ℕ → List ℕ
write limit b p =
    let b' = b ++ p in if ltb limit (length b') then drop (length b' - limit) b' else b'

unfoldable pub is_blank : ℕ → Bool
is_blank c = c == b' ' || c == b'\t'

-- What is left of a line: the text behind its last carriage return, without trailing blanks.
unfoldable pub settle : Str → Str
settle line = trim_right is_blank (last_part (split line b'\r'))

unfoldable pub kept_lines : List ℕ → List Str
kept_lines b = keep (λ line. not (eqb line [])) (map settle (split b b'\n'))

-- tailBuffer.String
unfoldable pub render : List ℕ → Str
unfolding kept_lines join
render b = join (kept_lines b) (b'\n' ∷ [])

unfoldable pub write_all : ℕ → List ℕ → List (List ℕ) → List ℕ
unfolding write
write_all limit b [] = b
write_all limit b (p ∷ ps) = write_all limit (write limit b p) ps

-- The last bytes of a text.
unfoldable pub tail_of : ℕ → List ℕ → List ℕ
tail_of limit s = drop (length s - limit) s

-- All that was written.
unfoldable pub flat : List (List ℕ) → List ℕ
flat [] = []
flat (p ∷ ps) = p ++ flat ps

write-tail_of : (limit : ℕ) (b p : List ℕ) → write limit b p ≡ tail_of limit (b ++ p)
unfolding write tail_of
write-tail_of limit b p = elim (Bool-cases (ltb limit (length (b ++ p)))) [
  | inl e ↦ rw e
  | inr e ↦ let z : length (b ++ p) - limit ≡ 0 = ground arith in rw (e, z)
]

tail_of-tail_of :
    (limit : ℕ) (b p : List ℕ) → tail_of limit (tail_of limit b ++ p) ≡ tail_of limit (b ++ p)
unfolding tail_of
tail_of-tail_of limit b p =
    let k = length b - limit in
    let e : drop k b ++ p ≡ drop k (b ++ p) = sym (drop-append k b p (omega arith)) in
    rw e (
      drop-drop (length (drop k (b ++ p)) - limit) k (b ++ p)
      ∙ ap (λ n. drop n (b ++ p)) (omega (arith, length-drop k (b ++ p), length-append b p)))

written :
    (limit : ℕ) (s : List ℕ) (ps : List (List ℕ))
    → write_all limit (tail_of limit s) ps ≡ tail_of limit (s ++ flat ps)
unfolding write_all flat
written limit s [] = rw append-nil
written limit s (p ∷ ps) =
    ap (λ b. write_all limit b ps)
      (write-tail_of limit (tail_of limit s) p ∙ tail_of-tail_of limit s p)
    ∙ written limit (s ++ p) ps
    ∙ ap (tail_of limit) (append_assoc s p (flat ps))

tail_of-nil : (limit : ℕ) → tail_of limit [] ≡ []
unfolding tail_of
tail_of-nil limit = let z : 0 - limit ≡ 0 = omega arith in rw z

tail_of-le : (limit : ℕ) (s : List ℕ) → length (tail_of limit s) ≤ limit
unfolding tail_of
tail_of-le limit s = omega (arith, length-drop (length s - limit) s)

-- After any writes to an empty buffer, the buffer holds the last `limit` bytes of all that was
-- written, and all of it while that is not more.
pub write_all-tail_of :
    (limit : ℕ) (ps : List (List ℕ))
    → (write_all limit [] ps ≡ tail_of limit (flat ps)) × (length (write_all limit [] ps) ≤ limit)
write_all-tail_of limit ps = (e, rw e (tail_of-le limit (flat ps)))
  where
    e : write_all limit [] ps ≡ tail_of limit (flat ps)
    e = ap (λ b. write_all limit b ps) (sym (tail_of-nil limit)) ∙ written limit [] ps

settle-Lacks : (line : Str) → Lacks b'\r' (settle line)
unfolding settle
settle-Lacks line =
    trim_right-Lacks b'\r' is_blank (last_part (split line b'\r'))
      (last_part-Lacks b'\r' (split line b'\r') (split-Lacks line b'\r'))

kept :
    (lines : List Str)
    → All
        (λ line. Lacks b'\r' line × (line ≢ []))
        (keep (λ line. not (eqb line [])) (map settle lines))
unfolding keep
kept [] = tt
kept (l ∷ lines) = elim (Bool-cases (eqb (settle l) [])) [
  | inl e ↦ rw e (kept lines)
  | inr e ↦ rw e ((settle-Lacks l, ground (arith, eqb_iff (settle l) [])), kept lines)
]

-- No line that `String` returns holds a carriage return, or is empty.
pub kept_lines-Lacks : (b : List ℕ) → All (λ line. Lacks b'\r' line × (line ≢ [])) (kept_lines b)
unfolding kept_lines
kept_lines-Lacks b = kept (split b b'\n')
