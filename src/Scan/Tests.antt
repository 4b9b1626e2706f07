-- ===== src/Scan/Tests.antt =====
-- The theorems on internal/scan at concrete inputs.
use repo_man.Scan.{Files, DirEntry, EntryKind, directory, Context, Walk, walk, primary}
use repo_man.Scan.Walked.{Item, In}
use repo_man.Scan.Listing.{Listed, InOrder, walk-Listed, walk_returns}
use repo_man.Base.{
  ◌≡◌, refl, ◌↔◌, false, List, [], ◌∷◌, none, some, Str, codes, ok, eqb, sort_by, if◌then◌else◌,
}

abbrev entry : Str → EntryKind → DirEntry
entry name kind = record { name = name; kind = kind }

abbrev top : List DirEntry
top = entry (codes "b") directory ∷ entry (codes "a") directory ∷ entry (codes ".x") directory ∷ []

-- A checkout b and a plain directory a below /r.
abbrev files : Files
files = record {
  read_dir = λ p.
      if eqb p (codes "/r")
      then some top
      else if eqb p (codes "/r/b")
      then some (entry (codes ".git") directory ∷ [])
      else if eqb p (codes "/r/a")
      then some []
      else none;
  read_file = λ p. none;
}

abbrev never : Context
never n = false

abbrev listing : Walk
listing = record {
  checks = 6;
  repos = primary (codes "/r/b") (codes "b") ∷ [];
  dirs = codes "a" ∷ [];
  errs = [];
}

walked : walk files never 2 (codes "/r") ≡ ok listing
unfolding walk eqb sort_by
walked = refl

walk-Listed_example : ((x : Item) → In x listing ↔ Listed files x 2 (codes "/r")) × InOrder listing
walk-Listed_example = walk-Listed files never 2 (codes "/r") listing walked

walk_returns_example : (res : Walk) × (walk files never 2 (codes "/r") ≡ ok res)
unfolding eqb
walk_returns_example = walk_returns files never 2 (codes "/r") top refl (λ n. refl)
