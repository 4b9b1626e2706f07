-- ===== src/Model.antt =====
-- internal/model/model.go: the data that the parts share.
pub mod Node
use repo_man.Base.{
  ℕ, ◌+◌, Bool, false, not, [], ◌∷◌, ◌++◌, Str, codes, ℤ, pos, negsuc, eqb, has_prefix, ltb,
  if◌then◌else◌, ◌==◌, ◌&&◌, ◌||◌,
}

pub record Remote : Type 0 where
  pub url : Str
  pub host : Str
  pub owner : Str
  pub name : Str

-- Remote.Slug
unfoldable pub slug : Remote → Str
unfolding eqb
slug r =
    if eqb r.host [] || eqb r.owner [] || eqb r.name []
    then []
    else r.host ++ b'/' ∷ (r.owner ++ b'/' ∷ r.name)

-- Remote.WebURL
unfoldable pub web_url : Remote → Str
unfolding slug has_prefix
web_url r =
    if has_prefix r.url (codes "https://") || has_prefix r.url (codes "http://")
    then r.url
    else if not (eqb (slug r) [])
    then codes "https://" ++ slug r
    else []

-- Owner, and Owner.Rel
pub record Owner : Type 0 where
  pub host : Str
  pub login : Str

unfoldable pub owner_rel : Owner → Str
owner_rel o = o.host ++ b'/' ∷ o.login

pub record Status : Type 0 where
  pub branch : Str
  pub detached : Bool
  pub upstream : Str
  pub ahead : ℤ
  pub behind : ℤ
  pub staged : ℕ
  pub unstaged : ℕ
  pub untracked : ℕ
  pub conflicted : ℕ
  pub stashes : ℕ
  pub head : Str
  pub last_commit : ℕ
  pub subject : Str
  pub last_fetch : ℕ

-- Status.Dirty
unfoldable pub dirty : Status → Bool
dirty s = ltb 0 (s.staged + s.unstaged + s.untracked + s.conflicted)

unfoldable pub is_zero_int : ℤ → Bool
is_zero_int (pos n) = n == 0
is_zero_int (negsuc n) = false

unfoldable pub exceeds_zero : ℤ → Bool
exceeds_zero (pos n) = ltb 0 n
exceeds_zero (negsuc n) = false

-- Status.Clean
unfoldable pub clean : Status → Bool
unfolding dirty is_zero_int
clean s = not (dirty s) && is_zero_int s.ahead && is_zero_int s.behind

pub record Repo : Type 0 where
  pub path : Str
  pub rel : Str
  pub name : Str
  pub is_worktree : Bool
  pub main_path : Str
  pub remote : Remote
  pub status : Status
  pub error : Str

pub record Ghost : Type 0 where
  pub host : Str
  pub owner : Str
  pub name : Str
  pub description : Str
  pub is_private : Bool
  pub fork : Bool
  pub archived : Bool
  pub default_branch : Str
  pub clone_url : Str
  pub updated_at : ℕ

-- Ghost.Slug
unfoldable pub ghost_slug : Ghost → Str
ghost_slug g = g.host ++ b'/' ∷ (g.owner ++ b'/' ∷ g.name)

-- Ghost.WebURL
unfoldable pub ghost_web_url : Ghost → Str
unfolding ghost_slug has_prefix
ghost_web_url g =
    if has_prefix g.clone_url (codes "https://") || has_prefix g.clone_url (codes "http://")
    then g.clone_url
    else codes "https://" ++ ghost_slug g
