-- ===== src/Github/Tests.antt =====
-- The theorems on internal/github at concrete inputs.
use repo_man.Model.{Ghost}
use repo_man.Github.{
  RepoListEntry, Decoder, Gh, list_owner, validate_host, validate_login, parse_repo_list, to_ghost,
  name_before, clone_url,
}
use repo_man.Github.Listing.{IsListing, list_owner-IsListing}
use repo_man.Base.{
  ◌≡◌, refl, none, some, List, [], ◌∷◌, Str, codes, ok, false, eqb, has_char, has_prefix, sort_by,
  less_str, to_lower,
}

abbrev entry : Str → RepoListEntry
entry n = record {
  name = n;
  description = [];
  is_private = false;
  is_fork = false;
  is_archived = false;
  updated_at = 5;
  default_branch_ref = none;
}

abbrev gh : Gh
gh host login = some (codes "[]")

abbrev decoder : Decoder
decoder out = some (entry (codes "b") ∷ entry (codes "A") ∷ [])

abbrev ghosts : List Ghost
ghosts =
    to_ghost (codes "github.com") (codes "jo") (entry (codes "A"))
    ∷ to_ghost (codes "github.com") (codes "jo") (entry (codes "b"))
    ∷ []

two_ghosts : list_owner gh decoder (codes "github.com") (codes "jo") ≡ ok ghosts
unfolding list_owner validate_host validate_login parse_repo_list to_ghost name_before eqb has_char
    has_prefix sort_by less_str to_lower clone_url
two_ghosts = refl

list_owner-IsListing_example : IsListing gh decoder (codes "github.com") (codes "jo") ghosts
list_owner-IsListing_example =
    list_owner-IsListing gh decoder (codes "github.com") (codes "jo") ghosts two_ghosts
