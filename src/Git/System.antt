-- ===== src/Git/System.antt =====
-- What internal/git and internal/actions ask of the operating system. Each answer may depend on all
-- that was asked before, so a system is whatever happens to the files and the processes meanwhile.
use repo_man.Base.{ℕ, Bool, List, Option, Str}

-- One request to the system. The directory of a git process is "" where the code sets none.
pub data Request : Type 0 where
  stat lstat read_dir make_dirs remove_all read_time : Str → Request
  git : Str → List Str → Request

-- The requests so far, the newest first.
abbrev pub Log : Type 0
Log = List Request

-- What os.Stat and os.Lstat find; a path that cannot be read gives another error than one that does
-- not exist.
pub data Found : Type 0 where
  missing unreadable file directory : Found

-- The end of a git process: its output, and the error of cmd.Run, if any.
pub record Exit : Type 0 where
  pub stdout : Str
  pub stderr : Str
  pub failure : Option Str

pub record System : Type 0 where
  pub stat : Log → Str → Found
  pub lstat : Log → Str → Found
  pub read_dir : Log → Str → Option (List Str)
  pub make_dirs : Log → Str → Bool
  pub modified : Log → Str → Option ℕ
  pub git : Log → Str → List Str → Exit
