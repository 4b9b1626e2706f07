-- ===== src/Git/Remote.antt =====
-- internal/git/remote.go: ParseRemoteURL and ValidateCloneURL. What url.Parse makes of a text is an
-- argument; the regular expressions are written out.
pub mod Accepted
use repo_man.Model.{Remote}
use repo_man.Base.{
  ℕ, Bool, true, false, not, List, [], ◌∷◌, ◌++◌, Option, none, some, Str, codes, Result, ok, err,
  eqb, has_prefix, has_char, contains, contains_any, trim, trim_space, trim_suffix, to_lower, split,
  join, cut, all, any, leb, is_space, last_part, if◌then◌else◌, ◌==◌, ◌&&◌, ◌||◌,
}

-- What is read of a parsed URL: Host, Hostname() and Path.
pub record Url : Type 0 where
  pub host : Str
  pub hostname : Str
  pub path : Str

abbrev pub UrlParser : Type 0
UrlParser = Str → Option Url

-- [A-Za-z0-9], [A-Za-z0-9.-] and [A-Za-z0-9._-]
unfoldable pub is_alphanumeric : ℕ → Bool
is_alphanumeric c =
    (leb b'A' c && leb c b'Z') || (leb b'a' c && leb c b'z') || (leb b'0' c && leb c b'9')

unfoldable pub is_host_char : ℕ → Bool
unfolding is_alphanumeric
is_host_char c = is_alphanumeric c || c == b'.' || c == b'-'

unfoldable pub is_segment_char : ℕ → Bool
unfolding is_host_char
is_segment_char c = is_host_char c || c == b'_'

-- shorthandSegRe
unfoldable pub is_segment : Str → Bool
unfolding is_segment_char eqb all
is_segment s = not (eqb s []) && all is_segment_char s

-- \s of a Go regular expression.
abbrev pub is_re_space : ℕ → Bool
is_re_space c = c == b' ' || c == 9 || c == 10 || c == 12 || c == 13

-- The "host:path" of scpLikeRe. No character of a host is a colon, so the first colon ends it.
abbrev host_path : Option (Str × Str) → Option (Str × Str)
host_path none = none
host_path (some (host, path)) =
    if not (eqb host []) && all is_host_char host && not (eqb path []) && not (has_char b'\n' path)
    then some (host, path)
    else none

abbrev is_user : Str → Bool
is_user s = not (eqb s []) && not (any (λ c. c == b'/' || is_re_space c) s)

abbrev after_user : Option (Str × Str) → Option (Str × Str)
after_user none = none
after_user (some (user, s)) = if is_user user then host_path (cut b':' s) else none

-- scpLikeRe: the text with a user is tried first, then the text without. No character of a user is
-- an "@", so the first one ends it.
unfoldable pub scp_like : Str → Option (Str × Str)
unfolding cut
scp_like s = elim (after_user (cut b'@' s)) [ some m ↦ some m | none ↦ host_path (cut b':' s) ]

-- The host and the path that the switch finds.
unfoldable pub remote_parts : UrlParser → Str → Option (Str × Str)
unfolding scp_like contains
remote_parts parse s =
    if contains s (codes "://")
    then elim (parse s) [
      | none ↦ none
      | some u ↦ if eqb u.host [] then none else some (u.hostname, u.path)
    ]
    else scp_like s

abbrev pub bare_remote : Str → Remote
bare_remote raw = record { url = raw; host = []; owner = []; name = [] }

-- All the parts but the last one.
unfoldable pub front_parts : List Str → List Str
front_parts [] = []
front_parts (p ∷ []) = []
front_parts (p ∷ q ∷ ps) = p ∷ front_parts (q ∷ ps)

abbrev pub from_segments : Str → Str → List Str → Remote
from_segments raw host [] = bare_remote raw
from_segments raw host (p ∷ []) = bare_remote raw
from_segments raw host (p ∷ q ∷ ps) = record {
  url = raw;
  host = host;
  name = last_part (p ∷ q ∷ ps);
  owner = join (front_parts (p ∷ q ∷ ps)) (b'/' ∷ []);
}

unfoldable pub parse_remote_url : UrlParser → Str → Remote
unfolding remote_parts trim_space to_lower split
parse_remote_url parse raw =
    if eqb (trim_space raw) []
    then bare_remote raw
    else elim (remote_parts parse (trim_space raw)) [
      | none ↦ bare_remote raw
      | some (h, p) ↦
          let host = to_lower h in
          let path = trim_suffix (trim (λ c. c == b'/') p) (codes ".git") in
          if eqb host [] || eqb path []
          then bare_remote raw
          else from_segments raw host (split path b'/')
    ]

pub data CloneError : Type 0 where
  empty_url control_char backslash dash ext_transport file_url invalid_url no_host dash_host
        local_path not_recognized :
      CloneError

abbrev pub expand : List Str → Result CloneError Str
expand (a ∷ b ∷ []) = ok (codes "https://github.com/" ++ (a ++ b'/' ∷ b))
expand (a ∷ b ∷ c ∷ []) =
    if has_char b'.' a
    then ok (codes "https://" ++ (a ++ b'/' ∷ (b ++ b'/' ∷ c)))
    else err not_recognized
expand segs = err not_recognized

unfoldable pub normalize_shorthand : Str → Result CloneError Str
unfolding split is_segment has_prefix
normalize_shorthand s =
    if has_prefix s (b'/' ∷ [])
      || has_prefix s (b'.' ∷ [])
      || has_prefix s (b'~' ∷ [])
      || has_char b'\\' s
    then err local_path
    else if all is_segment (split s b'/')
    then expand (split s b'/')
    else err not_recognized

-- The last switch of ValidateCloneURL.
unfoldable pub validate_form : UrlParser → Str → Result CloneError Str
unfolding scp_like normalize_shorthand
validate_form parse s =
    if has_prefix (to_lower s) (codes "https://")
      || has_prefix (to_lower s) (codes "http://")
      || has_prefix (to_lower s) (codes "ssh://")
    then elim (parse s) [
      | none ↦ err invalid_url
      | some u ↦ if eqb u.host [] then err no_host else ok s
    ]
    else elim (scp_like s) [
      | some (host, path) ↦ if has_prefix host (b'-' ∷ []) then err dash_host else ok s
      | none ↦ normalize_shorthand s
    ]

-- ValidateCloneURL behind the trimming of the space.
unfoldable pub validate_trimmed : UrlParser → Str → Result CloneError Str
unfolding validate_form contains contains_any
validate_trimmed parse s =
    if eqb s []
    then err empty_url
    else if contains_any s (0 ∷ 13 ∷ 10 ∷ [])
    then err control_char
    else if has_char b'\\' s
    then err backslash
    else if has_prefix s (b'-' ∷ [])
    then err dash
    else if contains (to_lower s) (codes "ext::")
    then err ext_transport
    else if has_prefix (to_lower s) (codes "file://")
    then err file_url
    else validate_form parse s

unfoldable pub validate_clone_url : UrlParser → Str → Result CloneError Str
unfolding validate_trimmed trim_space
validate_clone_url parse raw = validate_trimmed parse (trim_space raw)
