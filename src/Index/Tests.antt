-- ===== src/Index/Tests.antt =====
-- The theorems on internal/index at concrete inputs.
use repo_man.Config.{Config}
use repo_man.Config.Samples.{defaults}
use repo_man.Git.System.{System, missing}
use repo_man.Index.{Index, Lister, new_index, refresh_ghosts, scan_now}
use repo_man.Index.Scanning.{
  Pass, scan, is_failed, inspect_warning, more_warning, report_inspect_failures,
}
use repo_man.Index.Listings.{
  Rounds, after_rounds, after_rounds-listed, all_listings, last_good, last_warning,
}
use repo_man.Index.Loop.{
  Machine, Reach, Task, did_scan, take_scan, here, next, receive_scan, end_scan,
}
use repo_man.Index.Fetching.{fetch_all}
use repo_man.Index.Rounds.{IsRound, fetch_all-IsRound}
use repo_man.Model.Node.{Kind, node, nil}
use repo_man.Index.Requests.{scan-frame, scan_request-served, served}
use repo_man.Index.Loop.{begin_run, did_list, end_list, Task}
use repo_man.Index.Published.{IsPublished, Reach-IsPublished}
use repo_man.Index.Warnings.{take, report_inspect_failures-capped}
use repo_man.Model.{Repo}
use repo_man.Git.Inspect.{bare}
use repo_man.Base.{
  ℕ, ◌-◌, ◌≤◌, ◌≡◌, refl, ap, true, false, List, [], ◌∷◌, ◌++◌, map, none, some, Str, codes, pos,
  ok, err, keep, length, lookup, ltb, if◌then◌else◌,
}

abbrev config : Config
config = record defaults { owners = record { host = codes "h"; login = codes "jo" } ∷ [] }

abbrev still : System
still = record {
  stat = λ log p. missing;
  lstat = λ log p. missing;
  read_dir = λ log p. none;
  make_dirs = λ log p. true;
  modified = λ log p. none;
  git = λ log dir args. record { stdout = []; stderr = []; failure = none };
}

abbrev pass : Pass
pass = record {
  files = record { read_dir = λ p. some []; read_file = λ p. none };
  context = λ n. false;
  cancelled = false;
  system = λ p. still;
  parse_time = λ s. none;
  parse_url = λ s. none;
  fault_text = λ f. [];
  command_text = λ e. [];
  digits = λ n. [];
  now = 7;
}

abbrev idle : Machine
idle = record { ix = new_index config; todo = [] }

abbrev asked : Machine
asked = record idle { ix = scan_now idle.ix }

abbrev received_machine : Machine
received_machine = record {
  ix = record asked.ix { pending_scan = false };
  todo = Task.scanning ∷ [];
}

abbrev done : Machine
done = record { ix = scan pass received_machine.ix; todo = [] }

one_scan : Reach asked (did_scan ∷ take_scan ∷ []) done
unfolding scan_now
one_scan = next (next here (receive_scan refl refl)) (end_scan pass [] refl)

scan_request-served_example : served (did_scan ∷ take_scan ∷ []) ≡ true
scan_request-served_example =
    scan_request-served idle one_scan refl
      (ap (λ (ix : Index). ix.pending_scan) (scan-frame pass received_machine.ix))

abbrev fails : Lister
fails host login = err (codes "x")

abbrev works : Lister
works host login = ok []

-- A listing that worked, and one that failed after it.
abbrev rounds : Rounds
rounds = (some fails, 2) ∷ (some works, 1) ∷ []

after_rounds-listed_example :
    (lookup (codes "h/jo") (after_rounds rounds (new_index config)).ghosts
      ≡ last_good (codes "h/jo") (all_listings rounds config.owners))
    × (lookup (codes "h/jo") (after_rounds rounds (new_index config)).ghost_warn
        ≡ last_warning (codes "h/jo") (all_listings rounds config.owners))
after_rounds-listed_example = after_rounds-listed config rounds (codes "h/jo")

abbrev no_digits : ℕ → Str
no_digits n = codes "N"

abbrev broken : Repo
broken = record {
  path = codes "/r/a";
  rel = codes "a";
  name = codes "a";
  is_worktree = false;
  main_path = [];
  remote = bare;
  status = record {
    branch = [];
    detached = false;
    upstream = [];
    ahead = pos 0;
    behind = pos 0;
    staged = 0;
    unstaged = 0;
    untracked = 0;
    conflicted = 0;
    stashes = 0;
    head = [];
    last_commit = 0;
    subject = [];
    last_fetch = 0;
  };
  error = codes "bad";
}

abbrev six : List Repo
six = broken ∷ broken ∷ broken ∷ broken ∷ broken ∷ broken ∷ []

report_inspect_failures-capped_example :
    (report_inspect_failures no_digits six ≡ (
      map inspect_warning (take 5 (keep is_failed six))
      ++ (if ltb 5 (length (keep is_failed six))
          then more_warning no_digits (length (keep is_failed six) - 5) ∷ []
          else [])))
    × (length (report_inspect_failures no_digits six) ≤ 6)
report_inspect_failures-capped_example = report_inspect_failures-capped no_digits six

abbrev listed : Machine
listed = record { ix = refresh_ghosts (some works) 1 (new_index config); todo = Task.scanning ∷ [] }

first_listing : Reach (begin_run config) (did_list ∷ []) listed
unfolding begin_run
first_listing = next here (end_list (some works) 1 (Task.scanning ∷ []) refl)

Reach-IsPublished_example : IsPublished config listed.ix
Reach-IsPublished_example = Reach-IsPublished config (did_list ∷ []) listed first_listing

-- A snapshot with one checkout that has a remote.
abbrev known : Repo
known = record broken {
  path = codes "/r/a";
  error = [];
  remote = record bare { url = codes "https://h/jo/a" };
}

abbrev shown : Index
shown = record (new_index config) {
  snap = record (new_index config).snap {
    tree = some (
      node
          (record {
            name = codes "a";
            path = codes "/r/a";
            rel = codes "a";
            kind = Kind.repo;
            repo = some known;
            ghost = none;
          })
          nil,
      record { repos = 1; worktrees = 0; ghosts = 0; dirty = 0; ahead = 0; behind = 0; errors = 0 },
    );
  };
}

fetch_all-IsRound_example :
    IsRound (λ p. false) 7 [] shown (fetch_all still (λ p. false) 7 [] shown)
fetch_all-IsRound_example = fetch_all-IsRound still (λ p. false) 7 [] shown
