-- ===== src/Github/Listing.antt =====
-- github.go and parse.go: what ListOwner returns.
use repo_man.Model.{Ghost}
use repo_man.Github.{
  RepoListEntry, ListError, gh_failed, not_json, to_ghost, name_before, Decoder, parse_repo_list,
  validate_login, validate_host, Gh, list_owner,
}
use repo_man.Base.{
  ◌≡◌, refl, subst, ◌≢◌, Bool, false, List, [], ◌∷◌, map, Option, none, some, arith, Str, Result,
  ok, err, eqb_iff, has_prefix, to_lower, length, keep, sort_by, IsSorted, IsOrder,
  sort_by-IsSorted, keep-sort_by, less_str-asym, less_str_trans, Lacks,
}

-- A name that neither leaves its place in a path nor reads as an option.
abbrev pub IsArgument : Str → Type 0
IsArgument s = (s ≢ []) × Lacks b'/' s × (has_prefix s (b'-' ∷ []) ≡ false)

validate_login-IsArgument : (s : Str) → validate_login s ≡ none → IsArgument s
unfolding validate_login
validate_login-IsArgument s h = ground (arith, eqb_iff s [])

validate_host-IsArgument : (s : Str) → validate_host s ≡ none → IsArgument s
unfolding validate_host
validate_host-IsArgument s h = ground (arith, eqb_iff s [])

name_before-IsOrder : IsOrder name_before
unfolding name_before
name_before-IsOrder = record {
  asym = λ g h l. less_str-asym (to_lower g.name) (to_lower h.name) l;
  trans = λ f g h a b. less_str_trans (to_lower f.name) (to_lower g.name) (to_lower h.name) a b;
}

-- A listing: gh was asked about a host and a login that are arguments, what it printed was decoded,
-- and each entry gives one ghost, in the order of the names without their case.
pub record IsListing (gh : Gh) (decode : Decoder) (host login : Str) (ghosts : List Ghost)
    : Type 0 where
  pub out : Str
  pub entries : List RepoListEntry
  pub asked_host : IsArgument host
  pub asked_login : IsArgument login
  pub printed : gh host login ≡ some out
  pub decoded : decode out ≡ some entries
  pub ordered : IsSorted name_before ghosts
  pub same :
      (p : Ghost → Bool)
      → length (keep p ghosts) ≡ length (keep p (map (to_ghost host login) entries))

parsed :
    (gh : Gh) (decode : Decoder) (host login out : Str) (ghosts : List Ghost)
    (m : Option (List RepoListEntry))
    → IsArgument host
    → IsArgument login
    → gh host login ≡ some out
    → decode out ≡ m
    → parse_repo_list decode host login out ≡ ok ghosts
    → IsListing gh decode host login ghosts
unfolding parse_repo_list
parsed gh decode host login out ghosts none a b g d h =
    let q : ◌≡◌ {A = Result ListError (List Ghost)} (err not_json) (ok ghosts) =
      rw (d, parse_repo_list) at h in
    cc
parsed gh decode host login out ghosts (some es) a b g d h =
    let q : ◌≡◌ {A = Result ListError (List Ghost)}
        (ok (sort_by name_before (map (to_ghost host login) es))) (ok ghosts) =
      rw (d, parse_repo_list) at h in
    let e : sort_by name_before (map (to_ghost host login) es) ≡ ghosts = cc in
    record {
      out = out;
      entries = es;
      asked_host = a;
      asked_login = b;
      printed = g;
      decoded = d;
      ordered =
          subst (IsSorted name_before) e
            (sort_by-IsSorted name_before name_before-IsOrder (map (to_ghost host login) es));
      same =
          subst
            (λ gs.
              (p : Ghost → Bool)
              → length (keep p gs) ≡ length (keep p (map (to_ghost host login) es)))
            e (λ p. keep-sort_by name_before p (map (to_ghost host login) es));
    }

printed :
    (gh : Gh) (decode : Decoder) (host login : Str) (ghosts : List Ghost) (m : Option Str)
    → IsArgument host
    → IsArgument login
    → gh host login ≡ m
    → ◌≡◌ {A = Result ListError (List Ghost)}
        (elim m [ none ↦ err gh_failed | some out ↦ parse_repo_list decode host login out ])
        (ok ghosts)
    → IsListing gh decode host login ghosts
printed gh decode host login ghosts none a b g h = cc
printed gh decode host login ghosts (some out) a b g h =
    parsed gh decode host login out ghosts (decode out) a b g refl h

-- Every listing that ListOwner returns comes of a gh call whose host and login hold no slash and begin
-- with no dash, and is the decoded entries as ghosts, sorted by their names without case.
pub list_owner-IsListing :
    (gh : Gh) (decode : Decoder) (host login : Str) (ghosts : List Ghost)
    → list_owner gh decode host login ≡ ok ghosts
    → IsListing gh decode host login ghosts
unfolding list_owner
list_owner-IsListing gh decode host login ghosts h =
    validated (validate_host host) (validate_login login) refl refl h
  where
    validated :
        (m n : Option ListError)
        → validate_host host ≡ m
        → validate_login login ≡ n
        → ◌≡◌ {A = Result ListError (List Ghost)}
            (elim m [
              | some e ↦ err e
              | none ↦ elim n [
                | some e ↦ err e
                | none ↦ elim (gh host login) [
                  | none ↦ err gh_failed
                  | some out ↦ parse_repo_list decode host login out
                ]
              ]
            ])
            (ok ghosts)
        → IsListing gh decode host login ghosts
    validated (some e) n a b q = cc
    validated none (some e) a b q = cc
    validated none none a b q =
        printed gh decode host login ghosts (gh host login) (validate_host-IsArgument host a)
          (validate_login-IsArgument login b) refl q
