-- ===== src/Index/Warnings.antt =====
-- index.go: the warnings of reportInspectFailures.
use repo_man.Model.{Repo}
use repo_man.Index.Scanning.{
  is_failed, inspect_warning, max_inspect_warnings, more_warning, warn_each,
  report_inspect_failures,
}
use repo_man.Base.{
  ℕ, zero, suc, ◌+◌, ◌-◌, ◌≤◌, ◌≡◌, refl, false, List, [], ◌∷◌, ◌++◌, map, Str, arith, length, keep,
  ltb, Bool-cases, inl, inr, if◌then◌else◌, ◌==◌,
}

-- The first members of a list.
unfoldable pub take {ℓ} : {A : Type ℓ} → ℕ → List A → List A
take zero xs = []
take (suc n) [] = []
take (suc n) (x ∷ xs) = x ∷ take n xs

-- The warnings of the first checkouts, and one that counts the rest.
unfoldable pub capped : (ℕ → Str) → ℕ → ℕ → List Repo → List Str
unfolding take
capped digits room total rs =
    map inspect_warning (take room rs)
    ++ (if ltb room (length rs)
        then more_warning digits (total - max_inspect_warnings) ∷ []
        else [])

warn_each-capped :
    (digits : ℕ → Str) (total room n : ℕ) (rs : List Repo)
    → n + room ≡ max_inspect_warnings
    → warn_each digits total n rs ≡ capped digits room total rs
unfolding warn_each capped take
warn_each-capped digits total zero n [] h = refl
warn_each-capped digits total zero n (r ∷ rs) h = ground (arith, h)
warn_each-capped digits total (suc room) n [] h = ground arith
warn_each-capped digits total (suc room) n (r ∷ rs) h =
    let i : warn_each digits total (suc n) rs ≡ capped digits room total rs =
      warn_each-capped digits total room (suc n) rs (omega (arith, h)) in
    let e : (n == max_inspect_warnings) ≡ false = ground (arith, h) in
    let l : ltb (suc room) (suc (length rs)) ≡ ltb room (length rs) = ground arith in
    rw (e, i, capped, l) refl

length-warn_each-le :
    (digits : ℕ → Str) (total n : ℕ) (rs : List Repo)
    → n ≤ max_inspect_warnings
    → length (warn_each digits total n rs) + n ≤ 6
unfolding warn_each
length-warn_each-le digits total n [] h = omega (arith, h)
length-warn_each-le digits total n (r ∷ rs) h = elim (Bool-cases (n == max_inspect_warnings)) [
  | inl y ↦ rw y (ground (arith, h))
  | inr y ↦ rw y (
      let l : suc n ≤ max_inspect_warnings = ground (arith, h, y) in
      omega (arith, length-warn_each-le digits total (suc n) rs l))
]

-- The warnings of a scan about its checkouts are those of the first five that could not be
-- inspected, in order, and where there are more, one that counts the rest; none of them stands
-- where every checkout was inspected, and they are six at most.
pub report_inspect_failures-capped :
    (digits : ℕ → Str) (repos : List Repo)
    → (report_inspect_failures digits repos ≡ (
        map inspect_warning (take 5 (keep is_failed repos))
        ++ (if ltb 5 (length (keep is_failed repos))
            then more_warning digits (length (keep is_failed repos) - 5) ∷ []
            else [])))
      × (length (report_inspect_failures digits repos) ≤ 6)
unfolding report_inspect_failures
report_inspect_failures-capped digits repos =
    let failed = keep is_failed repos in
    (
      unfold capped in warn_each-capped digits (length failed) 5 0 failed (omega arith),
      omega (arith, length-warn_each-le digits (length failed) 0 failed (omega arith)),
    )
