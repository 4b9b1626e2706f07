-- ===== src/Web/Server/Routes.antt =====
-- internal/web/server.go: the patterns that Handler registers. A path is one that the mux does not
-- redirect, to its cleaned form or to one with a slash at its end; a pattern of GET serves HEAD
-- also. No two patterns of one mux but "/" match the same request, so the first that matches is the
-- one that the mux takes.
use repo_man.Safepath.{slash}
use repo_man.Base.{
  Bool, true, false, not, ◌||◌, ◌&&◌, List, [], ◌∷◌, Option, none, some, Str, codes, eqb, has_char,
  has_prefix, drop_prefix, if◌then◌else◌,
}

-- The end of a pattern: none, a subtree, or one more segment.
pub data Ending : Type 0 where
  exact subtree segment : Ending

-- A pattern; no method stands for every one.
pub record Pattern : Type 0 where
  pub method : Option Str
  pub path : Str
  pub ending : Ending

pub data Public : Type 0 where
  login_page login logout static gated : Public

pub data Private : Type 0 where
  page fragment api_tree refresh fetch pull init clone jobs job : Private

abbrev get : Str → Ending → Pattern
get path ending = record { method = some (codes "GET"); path = path; ending = ending }

abbrev post : Str → Pattern
post path = record { method = some (codes "POST"); path = path; ending = exact }

-- The mux behind the gate, and the public one.
unfoldable pub private_routes : List (Pattern × Private)
private_routes =
    (get (codes "/") exact, page)
    ∷ (get (codes "/fragment/tree") exact, fragment)
    ∷ (get (codes "/api/tree") exact, api_tree)
    ∷ (post (codes "/api/refresh"), refresh)
    ∷ (post (codes "/api/fetch"), fetch)
    ∷ (post (codes "/api/pull"), pull)
    ∷ (post (codes "/api/init"), init)
    ∷ (post (codes "/api/clone"), clone)
    ∷ (get (codes "/api/jobs") exact, jobs)
    ∷ (get (codes "/api/jobs/") segment, job)
    ∷ []

unfoldable pub public_routes : List (Pattern × Public)
public_routes =
    (get (codes "/login") exact, login_page)
    ∷ (post (codes "/login"), login)
    ∷ (post (codes "/logout"), logout)
    ∷ (get (codes "/static/") subtree, static)
    ∷ (record { method = none; path = codes "/"; ending = subtree }, gated)
    ∷ []

abbrev ends_as : Ending → Str → Bool
ends_as exact rest = eqb rest []
ends_as subtree rest = true
ends_as segment rest = not (eqb rest []) && not (has_char slash rest)

unfoldable pub path_matches : Pattern → Str → Bool
unfolding has_prefix drop_prefix eqb has_char
path_matches p path = has_prefix path p.path && ends_as p.ending (drop_prefix path p.path)

unfoldable pub method_matches : Option Str → Str → Bool
unfolding eqb
method_matches none method = true
method_matches (some m) method = eqb method m || (eqb m (codes "GET") && eqb method (codes "HEAD"))

unfoldable pub route {ℓ} : {A : Type ℓ} → List (Pattern × A) → Str → Str → Option A
unfolding path_matches method_matches
route [] method path = none
route ((p, a) ∷ rs) method path =
    if path_matches p path && method_matches p.method method then some a else route rs method path

-- Whether the mux knows the path under another method.
unfoldable pub is_known {ℓ} : {A : Type ℓ} → List (Pattern × A) → Str → Bool
unfolding path_matches
is_known [] path = false
is_known ((p, a) ∷ rs) path = path_matches p path || is_known rs path
