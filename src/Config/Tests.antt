-- ===== src/Config/Tests.antt =====
-- The theorems on internal/config at concrete inputs.
use repo_man.Model.{Owner, owner_rel}
use repo_man.Config.{
  validate, is_positive, is_negative, read_owner, is_invalid, parse_entries, parse_owners,
}
use repo_man.Config.Loading.{
  Settings, load, load_settings, default_settings, resolve_root, expand_home, configured,
}
use repo_man.Config.Loaded.{IsLoaded, load-IsLoaded}
use repo_man.Config.Samples.{defaults, process}
use repo_man.Base.{
  ◌≡◌, refl, some, List, [], ◌∷◌, codes, ok, split, cut, eqb, any, has_char, trim_prefix,
  drop_prefix, trim_suffix, trim_space, trim, trim_left, trim_right, to_lower, has_prefix,
}

-- One account named twice, once with a host in capitals.
abbrev accounts : List Owner
accounts = record { host = codes "github.com"; login = codes "jo" } ∷ []

two_entries : parse_owners (codes "jo, GitHub.com/jo/") ≡ ok accounts
unfolding parse_owners parse_entries read_owner is_invalid split cut eqb any has_char trim_prefix
    drop_prefix trim_suffix trim_space trim trim_left trim_right to_lower has_prefix owner_rel
two_entries = refl

loaded : load process [] ≡ ok defaults
unfolding load load_settings resolve_root expand_home configured parse_owners parse_entries
    read_owner is_invalid split cut eqb any has_char trim_prefix drop_prefix trim_suffix trim_space
    trim trim_left trim_right to_lower has_prefix owner_rel validate is_positive is_negative
loaded = refl

load-IsLoaded_example :
    (s : Settings) × (process.parse_flags (default_settings process) [] ≡ some (s, []))
    × IsLoaded process s defaults
load-IsLoaded_example = load-IsLoaded process [] defaults loaded
