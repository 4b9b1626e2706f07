-- ===== src/Main/Tests.antt =====
-- The theorem on cmd/repoman/main.go at a concrete process.
use repo_man.Config.Loading.{
  Settings, configured, default_settings, expand_home, load, load_settings, resolve_root,
}
use repo_man.Config.{
  is_invalid, is_negative, is_positive, parse_entries, parse_owners, read_owner, validate,
}
use repo_man.Config.Samples.{defaults, process}
use repo_man.Main.{Gh, start_up, wire}
use repo_man.Main.Wired.{IsWired, start_up-IsWired}
use repo_man.Model.{owner_rel}
use repo_man.Base.{
  ◌≡◌, refl, [], none, some, ok, any, cut, drop_prefix, eqb, has_char, has_prefix, split, to_lower,
  trim, trim_left, trim_prefix, trim_right, trim_space, trim_suffix,
}

abbrev gh : Gh
gh = record {
  exec = λ bin env args. record { stdout = []; stderr = []; failure = none };
  environ = [];
  quote = λ s. s;
  text = λ e. [];
  decode = λ s. some [];
}

started : start_up process gh [] ≡ ok (wire gh defaults)
unfolding start_up load load_settings resolve_root expand_home configured parse_owners parse_entries
    read_owner is_invalid split cut eqb any has_char trim_prefix drop_prefix trim_suffix trim_space
    trim trim_left trim_right to_lower has_prefix owner_rel validate is_positive is_negative
started = refl

start_up-IsWired_example :
    (s : Settings) × (process.parse_flags (default_settings process) [] ≡ some (s, []))
    × IsWired process s (wire gh defaults)
start_up-IsWired_example = start_up-IsWired process gh [] (wire gh defaults) started
