-- ===== src/Config/Checks.antt =====
-- config.go: what validate accepts.
use repo_man.Config.{Config, validate, is_positive, is_negative}
use repo_man.Base.{◌≡◌, ◌≢◌, ◌↔◌, true, false, [], none, arith, eqb_iff}

-- A configuration that the program can run with.
pub record IsValid (c : Config) : Type 0 where
  pub addressed : c.addr ≢ []
  pub scans : is_positive c.scan_interval ≡ true
  pub fetches : is_negative c.fetch_interval ≡ false
  pub lists : is_positive c.github_interval ≡ true
  pub concurrent : is_positive c.fetch_concurrency ≡ true
  pub timed : is_positive c.fetch_timeout ≡ true
  pub deep : is_positive c.max_depth ≡ true

-- validate accepts a configuration if and only if every setting is in its range.
pub validate-none : (c : Config) → (validate c ≡ none) ↔ IsValid c
validate-none c = (sound, complete)
  where
    complete : IsValid c → validate c ≡ none
    complete v =
        let a = v.addressed in
        unfold validate in
        ground
          (arith, eqb_iff c.addr [], v.scans, v.fetches, v.lists, v.concurrent, v.timed, v.deep)

    sound : validate c ≡ none → IsValid c
    sound h = record {
      addressed = unfold validate in ground (arith, eqb_iff c.addr []);
      scans = unfold validate in ground arith;
      fetches = unfold validate in ground arith;
      lists = unfold validate in ground arith;
      concurrent = unfold validate in ground arith;
      timed = unfold validate in ground arith;
      deep = unfold validate in ground arith;
    }
