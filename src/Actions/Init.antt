-- ===== src/Actions/Init.antt =====
-- actions.go: InitRepo gives its claim back however it returns.
use repo_man.Actions.{
  Service, ActionError, busy_target, begin_init, end_init, claim, init_claimed, changed, init_begun,
  init_at, init_target, init_repo,
}
use repo_man.Git.System.{lstat, Log, System}
use repo_man.Safepath.{FileSystem}
use repo_man.Base.{
  ℕ, ◌+◌, ◌≡◌, refl, arith, ◌∷◌, Option, none, some, Str, Dict, Result, ok, err, lookup, insert,
  delete, lookup-insert, lookup-delete, eqb_iff,
}

abbrev pub successes : Result ActionError Str → ℕ
successes (ok dest) = 1
successes (err e) = 0

-- What is left of a claim that was given back.
given_back :
    (abs k : Str) (m m' : Dict (Unit {0}))
    → begin_init abs m ≡ some m'
    → lookup k (end_init abs m') ≡ lookup k m
unfolding begin_init end_init
given_back abs k m m' h = taken (lookup abs m) refl h
  where
    taken :
        (o : Option (Unit {0}))
        → lookup abs m ≡ o
        → claim abs m o ≡ some m'
        → lookup k (delete abs m') ≡ lookup k m
    taken (some u) q h = absurd (cc (h))
    taken none q h =
        let same : insert abs tt m ≡ m' = cc in
        rw (← same) (
          ground (
            arith,
            q,
            lookup-delete abs k (insert abs tt m),
            lookup-insert abs k tt m,
            eqb_iff abs k,
          ))

-- The service after InitRepo: the same claims, one change more where it succeeded, and nothing else.
pub record IsReleased (s s' : Service) (out : Result ActionError Str) : Type 0 where
  pub claims : (k : Str) → lookup k s'.initing ≡ lookup k s.initing
  pub changes : s'.changes ≡ s.changes + successes out
  pub root : s'.root ≡ s.root
  pub reg : s'.reg ≡ s.reg

untouched : (s : Service) (e : ActionError) → IsReleased s s (err e)
untouched s e = record { claims = λ k. refl; changes = omega arith; root = refl; reg = refl }

released :
    (s : Service) (abs : Str) (m : Dict (Unit {0})) (out : Result ActionError Str)
    → begin_init abs s.initing ≡ some m
    → IsReleased s (record (changed out s) { initing = end_init abs m }) out
released s abs m (ok dest) h = record {
  claims = λ k. given_back abs k s.initing m h;
  changes = omega arith;
  root = refl;
  reg = refl;
}
released s abs m (err e) h = record {
  claims = λ k. given_back abs k s.initing m h;
  changes = omega arith;
  root = refl;
  reg = refl;
}

module _ (sys : System) (log : Log) (branch : Str) (s : Service) where
  begun-IsReleased :
      (abs dest : Str) (o : Option (Dict (Unit {0})))
      → begin_init abs s.initing ≡ o
      → let r = init_begun sys log abs dest branch s o in IsReleased s r.1.1 r.0
  begun-IsReleased abs dest none q = untouched s busy_target
  begun-IsReleased abs dest (some m) q =
      released s abs m (init_claimed sys (lstat abs ∷ log) abs dest branch (sys.lstat log abs)).0 q

  target-IsReleased :
      (t : Result ActionError (Str × Str))
      → let r = init_at sys log branch s t in IsReleased s r.1.1 r.0
  target-IsReleased (err e) = untouched s e
  target-IsReleased (ok (abs, dest)) = begun-IsReleased abs dest (begin_init abs s.initing) refl

-- However InitRepo returns, every destination is claimed afterwards as it was before; onChange was
-- called once where it succeeded and not where it failed.
pub init_repo-IsReleased :
    (sys : System) (fs : FileSystem) (log : Log) (parent name branch : Str) (s : Service)
    → let r = init_repo sys fs log parent name branch s in IsReleased s r.1.1 r.0
unfolding init_repo
init_repo-IsReleased sys fs log parent name branch s =
    target-IsReleased sys log branch s (init_target fs s.root parent name)
