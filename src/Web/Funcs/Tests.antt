-- ===== src/Web/Funcs/Tests.antt =====
-- The theorems on internal/web/funcs.go at concrete inputs.
use repo_man.Model.{Repo}
use repo_man.Base.{false, [], pos, codes}

abbrev tidy : Repo
tidy = record {
  path = codes "/r";
  rel = codes "r";
  name = codes "r";
  is_worktree = false;
  main_path = [];
  remote = record { url = codes "u"; host = []; owner = []; name = [] };
  status = record {
    branch = codes "main";
    detached = false;
    upstream = codes "o";
    ahead = pos 0;
    behind = pos 0;
    staged = 0;
    unstaged = 0;
    untracked = 0;
    conflicted = 0;
    stashes = 0;
    head = [];
    last_commit = 0;
    subject = [];
    last_fetch = 0;
  };
  error = [];
}
