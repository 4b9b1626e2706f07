-- ===== src/Web/Server.antt =====
-- internal/web/server.go: the routes, the gate before them, and the handlers as functions from a
-- request and the state to a reply and the state. The templates, the decoders of encoding/json and
-- net/http, and the file server of the assets are arguments.
pub mod Routes
pub mod Handlers
pub mod Serving
pub mod Gate
pub mod Confined
mod Tests
use repo_man.Actions.{
  ActionError, Service, bad_name, bad_parent, bad_path, bad_url, busy_target, exists, system_failed,
  root_target, no_registry, no_destination, git_error,
}
use repo_man.Auth.Login.{Authenticator, Cookie, Headers, Response}
use repo_man.Auth.Login.Body.{Json, fields, ended, malformed}
use repo_man.Auth.Next
use repo_man.Config.{Config}
use repo_man.Git.Commands.{CommandError}
use repo_man.Git.Remote
use repo_man.Git.System.{Log, System}
use repo_man.Index.{Index, Snapshot}
use repo_man.Jobs.Registry.{Job}
use repo_man.Safepath.{
  ExistingError, FileSystem, PathError, unresolved, no_target, resolves_outside, no_info,
  not_directory, empty_root, nul_byte, absolute, relative_element, dot_prefix, dash_prefix,
  outside_root,
}
use repo_man.Base.{
  ℕ, ◌*◌, Bool, true, false, List, [], ◌∷◌, ◌++◌, Option, none, some, Str, Dict, codes, Result, ok,
  err, cut, eqb, trim_space, if◌then◌else◌,
}

-- What the handlers read of a request; the query and the cookie are parsed.
pub record Request : Type 0 where
  pub method : Str
  pub path : Str
  pub request_uri : Str
  pub query : Dict Str
  pub headers : Headers
  pub cookie : Option Str
  pub xff : List Str
  pub remote_addr : Str
  pub body : Str

-- pageData; the root is that of the snapshot.
pub record PageData : Type 0 where
  pub title : Str
  pub snapshot : Snapshot
  pub jobs : List Job
  pub config : Config
  pub auth_enabled : Bool
  pub now : ℕ

-- The errors that the API writes.
pub data ApiError : Type 0 where
  bad_body no_such_job internal : ApiError
  unresolved_path : ExistingError → ApiError
  git_failed : CommandError → ApiError
  refused : ActionError → ApiError

pub data Content : Type 0 where
  html : Str → Content
  failure : ApiError → Content
  field : Str → Str → Content
  a_job : Job → Content
  job_list : List Job → Content
  a_snapshot : Snapshot → Content
  auth_answer : Response → Content
  redirect : Str → Content
  asset : Str → Content
  no_content : Content

pub record Reply : Type 0 where
  pub status : ℕ
  pub headers : Dict Str
  pub content : Content
  pub cookie : Option Cookie

-- Server, with the log of what was asked of the system. The registry is that of the actions, which
-- main.go hands to both.
pub record Server : Type 0 where
  pub cfg : Config
  pub ix : Index
  pub act : Service
  pub auth : Authenticator
  pub log : Log

abbrev pub max_body_bytes : ℕ
max_body_bytes = 64 * 1024

-- What a request meets: the clock, the ids that are drawn, the system, and the code that is given.
-- A decoder takes the limit of the body, and a decoder of JSON the fields of the struct; the text
-- of a field is missing where the body does not name it.
pub record World : Type 0 where
  pub now : ℕ
  pub then_now : ℕ
  pub fresh : Option Str
  pub job_id : Str
  pub files : FileSystem
  pub system : System
  pub next_parser : Next.UrlParser
  pub remote_parser : Remote.UrlParser
  pub template : Str → PageData → Option Str
  pub login_template : Str → Str → Str → Option Str
  pub login_json : ℕ → Str → Json
  pub parse_form : ℕ → Str → Option (Dict Str)
  pub from_form : List Str → Dict Str → Option (Dict Str)
  pub from_json : List Str → ℕ → Str → Json
  pub file_server : Str → ℕ × Str

-- errors.Is(err, safepath.ErrOutsideRoot)
abbrev pub is_outside : PathError → Bool
is_outside empty_root = false
is_outside nul_byte = false
is_outside absolute = true
is_outside relative_element = true
is_outside dot_prefix = false
is_outside dash_prefix = false
is_outside outside_root = true

abbrev pub leads_outside : ExistingError → Bool
leads_outside (unresolved e) = is_outside e
leads_outside no_target = false
leads_outside resolves_outside = true
leads_outside no_info = false
leads_outside not_directory = false

-- statusFor
unfoldable pub status_for : ActionError → ℕ
status_for (bad_name e) = 400
status_for (bad_parent e) = if leads_outside e then 403 else 400
status_for (bad_path e) = if is_outside e then 403 else 400
status_for (bad_url e) = 400
status_for busy_target = 409
status_for exists = 409
status_for system_failed = 400
status_for root_target = 400
status_for no_registry = 400
status_for no_destination = 400
status_for (git_error e) = 400

abbrev content_type : Str → Str × Str
content_type t = (codes "Content-Type", t)

-- writeJSON and writeError
unfoldable pub write_json : ℕ → Content → Reply
write_json code v = record {
  status = code;
  headers = content_type (codes "application/json; charset=utf-8") ∷ [];
  content = v;
  cookie = none;
}

unfoldable pub write_error : ℕ → ApiError → Reply
unfolding write_json
write_error code e = write_json code (failure e)

-- http.Redirect and http.Error
abbrev pub see_other : Str → Reply
see_other to = record { status = 303; headers = []; content = redirect to; cookie = none }

abbrev pub internal_error : Reply
internal_error = record { status = 500; headers = []; content = failure internal; cookie = none }

-- The end of render, on what the template gave.
unfoldable pub rendered : Option Str → Reply
rendered none = internal_error
rendered (some text) = record {
  status = 200;
  headers = content_type (codes "text/html; charset=utf-8") ∷ [];
  content = html text;
  cookie = none;
}

abbrev pub media_type : Str → Option (Str × Str) → Str
media_type header none = header
media_type header (some (before, after)) = before

abbrev pub json_decoded : Json → Result ApiError (Dict Str)
json_decoded (fields m) = ok m
json_decoded ended = err bad_body
json_decoded malformed = err bad_body

-- The form as JSON, and back into the struct.
abbrev pub form_decoded :
    (Dict Str → Option (Dict Str)) → Option (Dict Str) → Result ApiError (Dict Str)
form_decoded convert none = err bad_body
form_decoded convert (some m) = elim (convert m) [ none ↦ err bad_body | some d ↦ ok d ]

-- decode, into the fields of the struct.
unfoldable pub decode : World → List Str → Request → Result ApiError (Dict Str)
unfolding eqb cut trim_space
decode w names r =
    if eqb (trim_space (media_type r.headers.content_type (cut b';' r.headers.content_type)))
      (codes "application/x-www-form-urlencoded")
    then form_decoded (w.from_form names) (w.parse_form max_body_bytes r.body)
    else json_decoded (w.from_json names max_body_bytes r.body)

-- securityHeaders
abbrev pub security_headers : Dict Str
security_headers =
    (
      codes "Content-Security-Policy",
      codes
          "default-src 'none'; script-src 'self'; style-src 'self'; img-src 'self' data:; connect-src 'self'; form-action 'self'; base-uri 'none'; frame-ancestors 'none'",
    )
    ∷ (codes "X-Content-Type-Options", codes "nosniff")
    ∷ (codes "Referrer-Policy", codes "no-referrer")
    ∷ []

unfoldable pub secure : Reply → Reply
secure r = record r { headers = security_headers ++ r.headers }
