-- ===== src/Index/Published.antt =====
-- index.go: the snapshot that the handlers read, in every state of Run.
use repo_man.Config.{Config}
use repo_man.Index.{
  Index, Snapshot, first_input, new_index, scan_now, fetch_now, refresh_ghosts_now,
}
use repo_man.Index.Scanning.{
  Pass, pass_input, scan, scan_walked, publish, levels, inspect_candidate,
}
use repo_man.Index.Loop.{
  Act, Machine, Step, Reach, begin_run, tick_scan, tick_fetch, tick_github, receive_scan,
  receive_fetch, receive_ghosts, end_scan, end_list, end_fetch, request_scan, request_fetch,
  request_ghosts, here, next,
}
use repo_man.Index.Requests.{refresh_ghosts-frame, fetch_all-frame}
use repo_man.Model.{Repo}
use repo_man.Model.Node.{Node}
use repo_man.Scan.{Walk, WalkError, walk}
use repo_man.Tree.{Summary, summarize}
use repo_man.Tree.Keeping.{build_returns}
use repo_man.Base.{◌≡◌, refl, ap, ◌∙◌, List, some, Result, ok, err, map, Bool-cases, inl, inr}

-- An index that works with a configuration and publishes a whole snapshot.
pub record IsPublished (cfg : Config) (ix : Index) : Type 0 where
  pub configured : ix.cfg ≡ cfg
  pub owners : ix.snap.owners ≡ cfg.owners
  pub tree : (root : Node) × (s : Summary) × (ix.snap.tree ≡ some (root, s)) × (s ≡ summarize root)

new_index-IsPublished : (cfg : Config) → IsPublished cfg (new_index cfg)
unfolding new_index
new_index-IsPublished cfg = record {
  configured = refl;
  owners = refl;
  tree = build_returns (first_input cfg);
}

publish-IsPublished :
    (cfg : Config) (p : Pass) (ix : Index) (w : Walk) (repos : List Repo)
    → IsPublished cfg ix
    → IsPublished cfg (publish p ix w repos)
unfolding publish
publish-IsPublished cfg p ix w repos h = record {
  configured = h.configured;
  owners = ap (λ (c : Config). c.owners) h.configured;
  tree = build_returns (pass_input ix w repos);
}

scan-IsPublished :
    (cfg : Config) (p : Pass) (ix : Index) → IsPublished cfg ix → IsPublished cfg (scan p ix)
unfolding scan
scan-IsPublished cfg p ix h = walked (walk p.files p.context (levels ix.cfg.max_depth) ix.cfg.root)
  where
    walked : (o : Result WalkError Walk) → IsPublished cfg (scan_walked p ix o)
    walked (err e) = h
    walked (ok w) = elim (Bool-cases p.cancelled) [
      | inl y ↦ rw y h
      | inr n ↦ rw n (publish-IsPublished cfg p ix w (map (inspect_candidate p) w.repos) h)
    ]

-- A step that changes neither the configuration nor the snapshot.
unchanged :
    (cfg : Config) (ix jx : Index)
    → jx.cfg ≡ ix.cfg
    → jx.snap ≡ ix.snap
    → IsPublished cfg ix
    → IsPublished cfg jx
unchanged cfg ix jx c s h = record {
  configured = c ∙ h.configured;
  owners = ap (λ (t : Snapshot). t.owners) s ∙ h.owners;
  tree = (h.tree.0, h.tree.1, ap (λ (t : Snapshot). t.tree) s ∙ h.tree.2, h.tree.3);
}

Step-IsPublished :
    (cfg : Config) (m n : Machine) {a : Act}
    → Step m a n
    → IsPublished cfg m.ix
    → IsPublished cfg n.ix
unfolding scan_now fetch_now refresh_ghosts_now
Step-IsPublished cfg m n (tick_scan e) h = h
Step-IsPublished cfg m n (tick_fetch e p) h = h
Step-IsPublished cfg m n (tick_github e) h = h
Step-IsPublished cfg m n (receive_scan e p) h = unchanged cfg m.ix n.ix refl refl h
Step-IsPublished cfg m n (receive_fetch e p) h = unchanged cfg m.ix n.ix refl refl h
Step-IsPublished cfg m n (receive_ghosts e p) h = unchanged cfg m.ix n.ix refl refl h
Step-IsPublished cfg m n (end_scan p rest e) h = scan-IsPublished cfg p m.ix h
Step-IsPublished cfg m n (end_list lister now rest e) h =
    let f = refresh_ghosts-frame lister now m.ix in
    unchanged cfg m.ix n.ix (ap (λ (k : Index). k.cfg) f) (ap (λ (k : Index). k.snap) f) h
Step-IsPublished cfg m n (end_fetch sys stopped now log rest e) h =
    let f = fetch_all-frame sys stopped now log m.ix in
    unchanged cfg m.ix n.ix (ap (λ (k : Index). k.cfg) f) (ap (λ (k : Index). k.snap) f) h
Step-IsPublished cfg m n request_scan h = unchanged cfg m.ix n.ix refl refl h
Step-IsPublished cfg m n request_fetch h = unchanged cfg m.ix n.ix refl refl h
Step-IsPublished cfg m n request_ghosts h = unchanged cfg m.ix n.ix refl refl h

-- In every state that Run and the handlers reach, the index works with the configuration that it was
-- made for, and its snapshot has the configured owners and a tree, with the summary of that tree.
pub Reach-IsPublished :
    (cfg : Config) (acts : List Act) (m : Machine)
    → Reach (begin_run cfg) acts m
    → IsPublished cfg m.ix
unfolding begin_run
Reach-IsPublished cfg acts m here = new_index-IsPublished cfg
Reach-IsPublished cfg acts m (next {n = n} r s) =
    Step-IsPublished cfg n m s (Reach-IsPublished cfg _ n r)
