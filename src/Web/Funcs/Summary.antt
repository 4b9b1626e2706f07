-- ===== src/Web/Funcs/Summary.antt =====
-- funcs.go: errSummary undoes what gitError puts before a message.
use repo_man.Git.Commands.{git_error, excerpt, hint}
use repo_man.Web.Funcs.{err_summary}
use repo_man.Base.{
  ◌≡◌, refl, ◌≢◌, false, List, [], ◌∷◌, ◌++◌, some, arith, Str, codes, eqb, eqb_iff, eqb-nil,
  has_prefix, drop_prefix, cut_text, contains, join, trim_space, if◌then◌else◌, Bool-cases, inl,
  inr,
}

-- A command line without ": ".
abbrev pub IsPlain : Str → Type 0
IsPlain s = contains s (codes ": ") ≡ false

cut_text-plain :
    (s rest : Str) → IsPlain s → cut_text (codes ": ") (s ++ (codes ": " ++ rest)) ≡ some (s, rest)
unfolding cut_text contains has_prefix drop_prefix
cut_text-plain [] rest h = refl
cut_text-plain (c ∷ []) rest h = ground (arith, cut_text-plain [] rest refl)
cut_text-plain (c ∷ d ∷ s) rest h = ground (arith, cut_text-plain (d ∷ s) rest)

-- The message behind the command line.
abbrev pub message : Str → Str → Str
message stderr failure =
    if eqb (excerpt (trim_space stderr)) []
    then failure
    else excerpt (trim_space stderr) ++ hint (excerpt (trim_space stderr))

append-ne-nil : (s t : Str) → s ≢ [] → s ++ t ≢ []
append-ne-nil [] t n h = n refl
append-ne-nil (c ∷ s) t n h = cc

message-ne-nil : (stderr failure : Str) → failure ≢ [] → eqb (message stderr failure) [] ≡ false
message-ne-nil stderr failure n = elim (Bool-cases (eqb (excerpt (trim_space stderr)) [])) [
  | inl y ↦ rw y (eqb-nil failure n)
  | inr t ↦ rw t (
      eqb-nil _ (
        append-ne-nil (excerpt (trim_space stderr)) _
          (λ e. ground (arith, eqb_iff (excerpt (trim_space stderr)) []))))
]

-- The summary of a failed git command is git's own message with the hint, or the error of the process
-- where git wrote nothing, for a command line without ": ".
pub err_summary-git_error :
    (args : List Str) (stderr failure : Str)
    → IsPlain (join args (codes " "))
    → failure ≢ []
    → err_summary (git_error args stderr failure) ≡ message stderr failure
unfolding err_summary git_error has_prefix drop_prefix
err_summary-git_error args stderr failure h n =
    let m = cut_text-plain (join args (codes " ")) (message stderr failure) h in
    ground (arith, m, message-ne-nil stderr failure n)
