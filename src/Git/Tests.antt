-- ===== src/Git/Tests.antt =====
-- The theorems on internal/git at concrete inputs.
use repo_man.Git.Porcelain.{blank, parse_porcelain_v2}
use repo_man.Git.Porcelain.RoundTrip.{
  Record, head, upstream, ahead_of, changed, renamed, untracked, tokens, print, tally_all,
  parse_porcelain_v2-print,
}
use repo_man.Git.Remote.{
  UrlParser, validate_clone_url, validate_trimmed, validate_form, scp_like, is_alphanumeric,
  is_host_char,
}
use repo_man.Git.Remote.Accepted.{IsAccepted, validate_clone_url-IsAccepted}
use repo_man.Git.System.{System, missing}
use repo_man.Git.Commands.{clone}
use repo_man.Git.Commands.Effects.{removes, runs_git, reaches_git, is_wreckage, removes-clone}
use repo_man.Base.{
  Str, some, true, ◌&&◌, ◌||◌, none, ok, cut, all, any, contains, contains_any, to_lower,
  has_prefix, trim_space, trim, trim_left, trim_right, ◌≡◌, refl, List, [], ◌∷◌, codes, eqb, eqb-ne,
  has_char,
}

-- A rename from a path that reads like another record.
abbrev records : List Record
records =
    head (codes "main")
    ∷ upstream (codes "origin/main")
    ∷ ahead_of (codes "3") (codes "1")
    ∷ renamed b'R' b'.' (codes "N... new") (codes "? old")
    ∷ changed b'.' b'M' (codes "N... a")
    ∷ untracked (codes "b")
    ∷ []

parse_porcelain_v2-print_example : parse_porcelain_v2 (print records) ≡ tally_all records blank
unfolding eqb tokens has_char
parse_porcelain_v2-print_example =
    parse_porcelain_v2-print records
      (eqb-ne _ _ refl, (tt, (((refl, tt), (refl, tt)), ((refl, refl), ((refl, refl), (tt, tt))))))
      ((refl, tt), ((refl, tt), ((refl, tt), ((refl, (refl, tt)), ((refl, tt), ((refl, tt), tt))))))

abbrev no_url : UrlParser
no_url s = none

ssh_url :
    validate_clone_url no_url (codes " git@github.com:jo/x") ≡ ok (codes "git@github.com:jo/x")
unfolding validate_clone_url validate_trimmed validate_form scp_like is_alphanumeric is_host_char
    cut all any contains contains_any to_lower has_prefix has_char trim_space trim trim_left
    trim_right eqb
ssh_url = refl

validate_clone_url-IsAccepted_example : IsAccepted (codes "git@github.com:jo/x")
validate_clone_url-IsAccepted_example =
    validate_clone_url-IsAccepted no_url (codes " git@github.com:jo/x")
      (codes "git@github.com:jo/x") ssh_url

-- A system in which git fails after a start.
abbrev failing : System
failing = record {
  stat = λ log p. missing;
  lstat = λ log p. missing;
  read_dir = λ log p. none;
  make_dirs = λ log p. true;
  modified = λ log p. none;
  git = λ log dir args. record {
    stdout = [];
    stderr = codes "fatal: x";
    failure = some (codes "exit 128");
  };
}

removes-clone_example :
    (removes (codes "/r/x") (clone failing [] (codes "u") (codes "/r/x")).1 ≡ (
      (eqb (codes "/r/x") (codes "/r/x") && is_wreckage failing [] (codes "u") (codes "/r/x"))
      || removes (codes "/r/x") []))
    × (runs_git (clone failing [] (codes "u") (codes "/r/x")).1
        ≡ (reaches_git failing [] (codes "u") (codes "/r/x") || runs_git []))
removes-clone_example = removes-clone failing [] (codes "u") (codes "/r/x") (codes "/r/x")

abbrev parent_env : List Str
parent_env = codes "HOME=/h" ∷ codes "LC_ALL=de" ∷ []
