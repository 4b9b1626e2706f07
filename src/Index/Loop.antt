-- ===== src/Index/Loop.antt =====
-- internal/index/index.go: Run, as steps that interleave with the requests of the handlers. A
-- branch of the select queues its calls, which are done before the select is reached again.
use repo_man.Index.{
  Index, Lister, new_index, scan_now, fetch_now, refresh_ghosts_now, refresh_ghosts,
}
use repo_man.Index.Scanning.{Pass, scan}
use repo_man.Index.Fetching.{fetch_all}
use repo_man.Config.{Config, is_positive}
use repo_man.Git.System.{Log, System}
use repo_man.Base.{ℕ, Bool, true, false, ◌≡◌, List, [], ◌∷◌, Option, Str}

-- The calls that a branch of the select makes.
pub data Task : Type 0 where
  scanning listing fetching : Task

pub record Machine : Type 0 where
  pub ix : Index
  pub todo : List Task

-- What a step is: a ticker or a signal that the select receives, a call that ends, or a request.
pub data Act : Type 0 where
  scan_tick fetch_tick github_tick take_scan take_fetch take_ghosts : Act
  did_scan did_list did_fetch : Act
  ask_scan ask_fetch ask_ghosts : Act

-- The ticker of the fetches exists where the fetch interval is positive.
pub data Step (m : Machine) : Act → Machine → Type 0 where
  tick_scan : m.todo ≡ [] → Step m scan_tick (record m { todo = scanning ∷ [] })
  tick_fetch :
      m.todo ≡ []
      → is_positive m.ix.cfg.fetch_interval ≡ true
      → Step m fetch_tick (record m { todo = fetching ∷ scanning ∷ [] })
  tick_github : m.todo ≡ [] → Step m github_tick (record m { todo = listing ∷ scanning ∷ [] })
  receive_scan :
      m.todo ≡ []
      → m.ix.pending_scan ≡ true
      → Step m take_scan
          (record { ix = record m.ix { pending_scan = false }; todo = scanning ∷ [] })
  receive_fetch :
      m.todo ≡ []
      → m.ix.pending_fetch ≡ true
      → Step m take_fetch
          (record { ix = record m.ix { pending_fetch = false }; todo = fetching ∷ scanning ∷ [] })
  receive_ghosts :
      m.todo ≡ []
      → m.ix.pending_ghosts ≡ true
      → Step m take_ghosts
          (record { ix = record m.ix { pending_ghosts = false }; todo = listing ∷ scanning ∷ [] })
  end_scan :
      (p : Pass) (rest : List Task)
      → m.todo ≡ scanning ∷ rest
      → Step m did_scan (record { ix = scan p m.ix; todo = rest })
  end_list :
      (lister : Option Lister) (now : ℕ) (rest : List Task)
      → m.todo ≡ listing ∷ rest
      → Step m did_list (record { ix = refresh_ghosts lister now m.ix; todo = rest })
  end_fetch :
      (sys : System) (stopped : Str → Bool) (now : ℕ) (log : Log) (rest : List Task)
      → m.todo ≡ fetching ∷ rest
      → Step m did_fetch (record { ix = (fetch_all sys stopped now log m.ix).0; todo = rest })
  request_scan : Step m ask_scan (record m { ix = scan_now m.ix })
  request_fetch : Step m ask_fetch (record m { ix = fetch_now m.ix })
  request_ghosts : Step m ask_ghosts (record m { ix = refresh_ghosts_now m.ix })

-- What Run begins with.
unfoldable pub begin_run : Config → Machine
unfolding new_index
begin_run cfg = record { ix = new_index cfg; todo = listing ∷ scanning ∷ [] }

-- The steps from a machine on, the newest first.
pub data Reach (m : Machine) : List Act → Machine → Type 0 where
  here : Reach m [] m
  next :
      {acts : List Act} {a : Act} {n o : Machine}
      → Reach m acts n
      → Step n a o
      → Reach m (a ∷ acts) o
