-- ===== src/Config/Samples.antt =====
-- A process whose flags give a small configuration, for the tests.
use repo_man.Config.{Config}
use repo_man.Config.Loading.{Process, Settings}
use repo_man.Base.{true, false, [], none, some, codes, pos}

abbrev pub defaults : Config
defaults = record {
  root = codes "/r";
  addr = codes "127.0.0.1:8464";
  owners = [];
  passphrase = [];
  secure_cookie = false;
  trust_proxy_ip = false;
  scan_interval = pos 60;
  fetch_interval = pos 0;
  github_interval = pos 30;
  fetch_concurrency = pos 4;
  fetch_timeout = pos 60;
  max_depth = pos 8;
}

abbrev pub settings : Settings
settings = record {
  root = codes "/r";
  addr = codes "127.0.0.1:8464";
  owners = [];
  secure_cookie = false;
  trust_proxy_ip = false;
  scan_interval = pos 60;
  fetch_interval = pos 0;
  github_interval = pos 30;
  fetch_concurrency = pos 4;
  fetch_timeout = pos 60;
  max_depth = pos 8;
}

abbrev pub process : Process
process = record {
  lookup_env = λ k. none;
  parse_bool = λ s. none;
  atoi = λ s. none;
  parse_duration = λ s. none;
  parse_flags = λ d args. some (settings, []);
  user_home = none;
  absolute = λ p. some p;
  files = record { eval_symlinks = λ p. some p; stat_is_dir = λ p. some true };
}
