-- ===== src/Github.antt =====
-- internal/github: the listing of an owner's repositories. What gh prints and what encoding/json
-- makes of it are arguments.
pub mod Listing
pub mod Client
mod Tests
use repo_man.Model.{Ghost}
use repo_man.Base.{
  ℕ, Bool, true, false, List, [], ◌∷◌, ◌++◌, map, Option, none, some, Str, codes, Result, ok, err,
  ◌>>=◌, eqb, has_char, has_prefix, to_lower, sort_by, less_str, if◌then◌else◌,
}

-- repoListEntry; `none` stands for a null defaultBranchRef.
pub record RepoListEntry : Type 0 where
  pub name : Str
  pub description : Str
  pub is_private : Bool
  pub is_fork : Bool
  pub is_archived : Bool
  pub updated_at : ℕ
  pub default_branch_ref : Option Str

pub data ListError : Type 0 where
  empty_login slash_login dash_login empty_host slash_host dash_host gh_failed not_json : ListError

unfoldable pub clone_url : Str → Str → Str → Str
clone_url host login name =
    codes "https://" ++ (host ++ b'/' ∷ (login ++ b'/' ∷ (name ++ codes ".git")))

unfoldable pub to_ghost : Str → Str → RepoListEntry → Ghost
unfolding clone_url
to_ghost host login e = record {
  host = host;
  owner = login;
  name = e.name;
  description = e.description;
  is_private = e.is_private;
  fork = e.is_fork;
  archived = e.is_archived;
  clone_url = clone_url host login e.name;
  updated_at = e.updated_at;
  default_branch = elim e.default_branch_ref [ none ↦ [] | some b ↦ b ];
}

unfoldable pub name_before : Ghost → Ghost → Bool
unfolding less_str to_lower
name_before g h = less_str (to_lower g.name) (to_lower h.name)

-- json.Unmarshal into a list of entries.
abbrev pub Decoder : Type 0
Decoder = Str → Option (List RepoListEntry)

unfoldable pub parse_repo_list : Decoder → Str → Str → Str → Result ListError (List Ghost)
unfolding sort_by to_ghost name_before
parse_repo_list decode host login out = elim (decode out) [
  | none ↦ err not_json
  | some entries ↦ ok (sort_by name_before (map (to_ghost host login) entries))
]

unfoldable pub validate_login : Str → Option ListError
unfolding eqb has_char has_prefix
validate_login login =
    if eqb login []
    then some empty_login
    else if has_char b'/' login
    then some slash_login
    else if has_prefix login (b'-' ∷ [])
    then some dash_login
    else none

unfoldable pub validate_host : Str → Option ListError
unfolding eqb has_char has_prefix
validate_host host =
    if eqb host []
    then some empty_host
    else if has_char b'/' host
    then some slash_host
    else if has_prefix host (b'-' ∷ [])
    then some dash_host
    else none

-- What `gh repo list` prints for a host and a login, or none where it fails.
abbrev pub Gh : Type 0
Gh = Str → Str → Option Str

unfoldable pub list_owner : Gh → Decoder → Str → Str → Result ListError (List Ghost)
list_owner gh decode host login = elim (validate_host host) [
  | some e ↦ err e
  | none ↦ elim (validate_login login) [
    | some e ↦ err e
    | none ↦ elim (gh host login) [
      | none ↦ err gh_failed
      | some out ↦ parse_repo_list decode host login out
    ]
  ]
]
