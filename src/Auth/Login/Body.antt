-- ===== src/Auth/Login/Body.antt =====
-- internal/auth/auth.go: readLoginRequest. The decoders of encoding/json and net/http are arguments,
-- which take the limit on what they read of the body.
use repo_man.Base.{
  ℕ, ◌*◌, [], Option, none, some, Str, Dict, codes, contains, lookup, if◌then◌else◌,
}

-- What a decoder of JSON finds: the fields of a value, the end of the input, or an error.
pub data Json : Type 0 where
  fields : Dict Str → Json
  ended malformed : Json

abbrev pub max_login_body_bytes : ℕ
max_login_body_bytes = 64 * 1024

abbrev pub text_or : Str → Option Str → Str
text_or default none = default
text_or default (some v) = v

-- A field, or a value of the query or the form; "" where it is missing.
unfoldable pub value_of : Str → Dict Str → Str
unfolding lookup
value_of k m = text_or [] (lookup k m)

abbrev json_login : Json → Option (Str × Str)
json_login (fields m) = some (value_of (codes "passphrase") m, value_of (codes "next") m)
json_login ended = some ([], [])
json_login malformed = none

-- r.FormValue: the form goes before the query.
abbrev form_value : Str → Dict Str → Dict Str → Str
form_value k query m = text_or (value_of k query) (lookup k m)

abbrev form_login : Dict Str → Option (Dict Str) → Option (Str × Str)
form_login query none = none
form_login query (some m) =
    some (form_value (codes "passphrase") query m, form_value (codes "next") query m)

unfoldable pub read_login_request :
    (ℕ → Str → Json) → (ℕ → Str → Option (Dict Str)) → Str → Dict Str → Str → Option (Str × Str)
unfolding value_of contains lookup
read_login_request decode parse_form content_type query body =
    if contains content_type (codes "application/json")
    then json_login (decode max_login_body_bytes body)
    else form_login query (parse_form max_login_body_bytes body)
