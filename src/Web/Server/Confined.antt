-- ===== src/Web/Server/Confined.antt =====
-- server.go: what a request for a fetch or a pull asks of the system.
use repo_man.Git.Commands.{CommandError, fetch, pull, run}
use repo_man.Git.Commands.Runs.{fetch_args, pull_args, run-log}
use repo_man.Git.System.{Log, System, git}
use repo_man.Index.{Index, scan_now}
use repo_man.Index.Fetching.{fetch_one, fetch_repo, fetch_target, pull_repo}
use repo_man.Index.Placing.{IsPlace, fetch_target-IsPlace}
use repo_man.Safepath.{ExistingError, resolve_existing}
use repo_man.Safepath.Existing.{IsTarget, resolve_existing-IsTarget}
use repo_man.Web.Server.{ApiError, Reply, Server, World, decode, write_error, write_json}
use repo_man.Web.Server
use repo_man.Web.Server.Handlers.{
  Handled, fetch_at, handle_fetch_repo, handle_pull_repo, named_checkout, path_field, pull_at,
  synced,
}
use repo_man.Auth.Login.Body.{value_of}
use repo_man.Base.{
  ℕ, Option-cases, subst, sym, true, ◌≡◌, refl, ap, ◌∙◌, ◌⊎◌, inl, inr, List, ◌∷◌, Option, none,
  some, Str, Dict, codes, Result, ok, err,
}

-- The path that the body names does not lead to a directory that is the root or lies below it.
abbrev HasNoTarget : World → Server → Str → Type 0
HasNoTarget w s asked = (abs rel : Str) → ¬ (IsTarget w.files s.cfg.root asked true abs rel)

-- The request was refused: it has no body that is read, or its path leads to no target.
pub record IsRefused (w : World) (r : Server.Request) (s : Server) (reply : Reply) (s' : Server)
    : Type 0 where
  pub status : reply.status ≡ 400
  pub same : s' ≡ s
  pub why :
      (d : Dict Str) → decode w path_field r ≡ ok d → HasNoTarget w s (value_of (codes "path") d)

-- What git's end makes of the status.
abbrev pub Ended : Option Str → ℕ → Type 0
Ended none status = status ≡ 200
Ended (some m) status = status ≡ 502

-- The body names a path with a target, one git process was run at a place for that target, a rescan
-- was requested, and nothing else changed.
pub record IsSynced (w : World) (r : Server.Request) (s : Server) (args : List Str)
    (at : Str → Str → Type 0) (reply : Reply) (s' : Server) : Type 0 where
  pub body : Dict Str
  pub decoded : decode w path_field r ≡ ok body
  pub abs : Str
  pub rel : Str
  pub target : IsTarget w.files s.cfg.root (value_of (codes "path") body) true abs rel
  pub place : Str
  pub placed : at abs place
  pub state :
      s' ≡ record s { ix = record s.ix { pending_scan = true }; log = git place args ∷ s.log }
  pub status : Ended (w.system.git s.log place args).failure reply.status

-- The request was refused, or it was served.
abbrev pub Outcome :
    World → Server.Request → Server → List Str → (Str → Str → Type 0) → Handled → Type 0
Outcome w r s args at h = IsRefused w r s h.0 h.1 ⊎ IsSynced w r s args at h.0 h.1

-- How the reply goes by the end of git.
run-Ended :
    (word : Str) (s : Server) (sys : System) (log : Log) (dir : Str) (args : List Str)
    (left : Index × Log)
    → Ended (sys.git log dir args).failure (synced word s ((run sys log dir args).0, left)).0.status
unfolding run synced write_error write_json
run-Ended word s sys log dir args left = elim (Option-cases (sys.git log dir args).failure) [
  | inl e ↦ rw (e, run) refl
  | inr (m, e) ↦ rw (e, run) refl
]

synced-state :
    (word : Str) (s : Server) (o : Result CommandError Str × (Index × Log))
    → (synced word s o).1 ≡ record s { ix = o.1.0; log = o.1.1 }
unfolding synced
synced-state word s (ok t, (ix, log)) = refl
synced-state word s (err e, (ix, log)) = refl

-- The reply and the state after one git process and a rescan request.
synced-run :
    (word : Str) (w : World) (r : Server.Request) (s : Server) (args : List Str)
    (at : Str → Str → Type 0) (d : Dict Str) (abs rel place : Str)
    → decode w path_field r ≡ ok d
    → IsTarget w.files s.cfg.root (value_of (codes "path") d) true abs rel
    → at abs place
    → (o : Result CommandError Str × (Index × Log))
    → ◌≡◌ {A = Result CommandError Str × (Index × Log)} o
        ((run w.system s.log place args).0, (scan_now s.ix, (run w.system s.log place args).1))
    → IsSynced w r s args at (synced word s o).0 (synced word s o).1
unfolding scan_now
synced-run word w r s args at d abs rel place q t p o e = record {
  body = d;
  decoded = q;
  abs = abs;
  rel = rel;
  target = t;
  place = place;
  placed = p;
  state =
      synced-state word s o
      ∙ ap (λ (x : Result CommandError Str × (Index × Log)). record s { ix = x.1.0; log = x.1.1 }) e
      ∙ ap (λ (l : Log). record s { ix = record s.ix { pending_scan = true }; log = l })
          (run-log w.system s.log place args);
  status =
      subst
        (λ (x : Result CommandError Str × (Index × Log)).
          Ended (w.system.git s.log place args).failure (synced word s x).0.status)
        (sym e)
        (run-Ended word s w.system s.log place args
          (scan_now s.ix, (run w.system s.log place args).1));
}

not_found :
    (w : World) (s : Server) (asked : Str) (e : ExistingError)
    → resolve_existing w.files s.cfg.root asked true ≡ err e
    → HasNoTarget w s asked
not_found w s asked e h abs rel t =
    absurd (cc (h, (resolve_existing-IsTarget w.files s.cfg.root asked true abs rel).1 t))

module _ (w : World) (r : Server.Request) (s : Server) (d : Dict Str)
    (q : decode w path_field r ≡ ok d) where
  abbrev asked : Str
  asked = value_of (codes "path") d

  rejected-IsRefused :
      (e : ExistingError) (reply : Reply)
      → reply.status ≡ 400
      → resolve_existing w.files s.cfg.root asked true ≡ err e
      → IsRefused w r s reply s
  rejected-IsRefused e reply status h = record {
    status = status;
    same = refl;
    why = λ d' q'.
        let same : d ≡ d' = cc (q, q') in
        subst (λ (x : Dict Str). HasNoTarget w s (value_of (codes "path") x)) same
          (not_found w s asked e h);
  }

  fetch_at-Outcome :
      (o : Result ExistingError (Str × Str))
      → resolve_existing w.files s.cfg.root asked true ≡ o
      → Outcome w r s fetch_args (IsPlace s.ix) (fetch_at w s o)
  unfolding fetch_at write_error write_json fetch_repo fetch_one fetch
  fetch_at-Outcome (err e) h = inl (rejected-IsRefused e _ refl h)
  fetch_at-Outcome (ok (abs, rel)) h = inr (
      synced-run (codes "fetched") w r s fetch_args (IsPlace s.ix) d abs rel (fetch_target s.ix abs)
        q ((resolve_existing-IsTarget w.files s.cfg.root asked true abs rel).0 h)
        (fetch_target-IsPlace s.ix abs) (fetch_repo w.system s.log abs s.ix) refl)

  pull_at-Outcome :
      (o : Result ExistingError (Str × Str))
      → resolve_existing w.files s.cfg.root asked true ≡ o
      → Outcome w r s pull_args (λ abs place. place ≡ abs) (pull_at w s o)
  unfolding pull_at write_error write_json pull_repo pull
  pull_at-Outcome (err e) h = inl (rejected-IsRefused e _ refl h)
  pull_at-Outcome (ok (abs, rel)) h = inr (
      synced-run (codes "pulled") w r s pull_args (λ abs place. place ≡ abs) d abs rel abs q
        ((resolve_existing-IsTarget w.files s.cfg.root asked true abs rel).0 h) refl
        (pull_repo w.system s.log abs s.ix) refl)

-- A body that is not read.
unread-IsRefused :
    (w : World) (r : Server.Request) (s : Server) (e : ApiError)
    → decode w path_field r ≡ err e
    → IsRefused w r s (write_error 400 e) s
unfolding write_error write_json
unread-IsRefused w r s e q = record {
  status = refl;
  same = refl;
  why = λ d q'. absurd (cc (q, q'));
}

handle_fetch_repo-Outcome :
    (w : World) (r : Server.Request) (s : Server)
    → Outcome w r s fetch_args (IsPlace s.ix) (handle_fetch_repo w r s)
unfolding handle_fetch_repo named_checkout
handle_fetch_repo-Outcome w r s = on_body (decode w path_field r) refl
  where
    on_body :
        (o : Result ApiError (Dict Str))
        → decode w path_field r ≡ o
        → Outcome w r s fetch_args (IsPlace s.ix) (handle_fetch_repo w r s)
    on_body (err e) q = rw (handle_fetch_repo, q) (inl (unread-IsRefused w r s e q))
    on_body (ok d) q =
        rw (handle_fetch_repo, q) (fetch_at-Outcome w r s d q (named_checkout w s d) refl)

handle_pull_repo-Outcome :
    (w : World) (r : Server.Request) (s : Server)
    → Outcome w r s pull_args (λ abs place. place ≡ abs) (handle_pull_repo w r s)
unfolding handle_pull_repo named_checkout
handle_pull_repo-Outcome w r s = on_body (decode w path_field r) refl
  where
    on_body :
        (o : Result ApiError (Dict Str))
        → decode w path_field r ≡ o
        → Outcome w r s pull_args (λ abs place. place ≡ abs) (handle_pull_repo w r s)
    on_body (err e) q = rw (handle_pull_repo, q) (inl (unread-IsRefused w r s e q))
    on_body (ok d) q =
        rw (handle_pull_repo, q) (pull_at-Outcome w r s d q (named_checkout w s d) refl)

-- A request for a fetch or for a pull is answered by 400 and changes nothing, and then its body is
-- not read or its path does not lead to a directory that is the root or lies below it; or the body
-- names a path that leads to such a directory, one git process is run, a rescan is requested, and the
-- answer is 200 where git succeeds and 502 where it fails. The process is that of the pull, in the
-- directory; or that of the fetch, in the known main checkout of a worktree that the snapshot shows
-- there, or in the directory itself where the snapshot shows nothing there or a node that is no such
-- worktree.
pub sync-Outcome :
    (w : World) (r : Server.Request) (s : Server)
    → Outcome w r s fetch_args (IsPlace s.ix) (handle_fetch_repo w r s)
      × Outcome w r s pull_args (λ abs place. place ≡ abs) (handle_pull_repo w r s)
sync-Outcome w r s = (handle_fetch_repo-Outcome w r s, handle_pull_repo-Outcome w r s)
