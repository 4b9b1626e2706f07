-- ===== src/Index/Requests.antt =====
-- index.go: what Run keeps, and that a request for a scan is served.
use repo_man.Index.{
  Index, Lister, refresh_ghosts, list_owners, take_listing, list_configured, scan_now, fetch_now,
  refresh_ghosts_now,
}
use repo_man.Index.Scanning.{Pass, scan, scan_walked, publish, levels}
use repo_man.Index.Fetching.{fetch_all, fetch_round, targets_of}
use repo_man.Index.Loop.{
  Act, Task, scanning, listing, fetching, Machine, Step, Reach, did_scan, take_scan, scan_tick,
  fetch_tick, github_tick, take_fetch, take_ghosts, did_list, did_fetch, ask_scan, ask_fetch,
  ask_ghosts, tick_scan, tick_fetch, tick_github, receive_scan, receive_fetch, receive_ghosts,
  end_scan, end_list, end_fetch, request_scan, request_fetch, request_ghosts, here, next,
}
use repo_man.Model.{Ghost, Owner, owner_rel}
use repo_man.Scan.{walk, WalkError, Walk}
use repo_man.Git.System.{Log, System}
use repo_man.Base.{
  ℕ, Bool, true, false, ◌≡◌, refl, ◌∙◌, ap, subst, ◌⊎◌, inl, inr, List, [], ◌∷◌, ◌||◌, ◌&&◌, Option,
  none, some, Str, Result, ok, err, arith, any, Bool-cases,
}

abbrev pub is_scan : Act → Bool
is_scan did_scan = true
is_scan scan_tick = false
is_scan fetch_tick = false
is_scan github_tick = false
is_scan take_scan = false
is_scan take_fetch = false
is_scan take_ghosts = false
is_scan did_list = false
is_scan did_fetch = false
is_scan ask_scan = false
is_scan ask_fetch = false
is_scan ask_ghosts = false

abbrev pub is_receipt : Act → Bool
is_receipt take_scan = true
is_receipt did_scan = false
is_receipt scan_tick = false
is_receipt fetch_tick = false
is_receipt github_tick = false
is_receipt take_fetch = false
is_receipt take_ghosts = false
is_receipt did_list = false
is_receipt did_fetch = false
is_receipt ask_scan = false
is_receipt ask_fetch = false
is_receipt ask_ghosts = false

-- Of the steps, the newest first: the signal of a scan was received, and a scan ended after that.
unfoldable pub received : List Act → Bool
received [] = false
received (a ∷ acts) = is_receipt a || received acts

unfoldable pub served : List Act → Bool
unfolding received
served [] = false
served (a ∷ acts) = (is_scan a && received acts) || served acts

-- What a pass changes of the index.
pub scan-frame : (p : Pass) (ix : Index) → scan p ix ≡ record ix { snap = (scan p ix).snap }
unfolding scan publish
scan-frame p ix = walked (walk p.files p.context (levels ix.cfg.max_depth) ix.cfg.root)
  where
    walked :
        (o : Result WalkError Walk)
        → scan_walked p ix o ≡ record ix { snap = (scan_walked p ix o).snap }
    walked (err e) = refl
    walked (ok w) = elim (Bool-cases p.cancelled) [ inl y ↦ rw y refl | inr y ↦ rw y refl ]

take_listing-frame :
    (rel : Str) (o : Result Str (List Ghost)) (ix : Index)
    → take_listing rel o ix ≡ record ix {
      ghosts = (take_listing rel o ix).ghosts;
      ghost_warn = (take_listing rel o ix).ghost_warn;
    }
unfolding take_listing
take_listing-frame rel (ok list) ix = refl
take_listing-frame rel (err e) ix = refl

-- An index that differs in its listings alone.
abbrev SameButListings : Index → Index → Type 0
SameButListings ix jx =
    jx ≡ record ix { ghosts = jx.ghosts; ghost_warn = jx.ghost_warn; listed_at = jx.listed_at }

list_owners-frame :
    (lister : Lister) (os : List Owner) (ix : Index)
    → list_owners lister os ix ≡ record ix {
      ghosts = (list_owners lister os ix).ghosts;
      ghost_warn = (list_owners lister os ix).ghost_warn;
    }
unfolding list_owners
list_owners-frame lister [] ix = refl
list_owners-frame lister (o ∷ os) ix =
    let jx : Index = take_listing (owner_rel o) (lister o.host o.login) ix in
    list_owners-frame lister os jx
    ∙ ap
        (λ (k : Index). record k {
          ghosts = (list_owners lister os jx).ghosts;
          ghost_warn = (list_owners lister os jx).ghost_warn;
        })
        (take_listing-frame (owner_rel o) (lister o.host o.login) ix)

pub refresh_ghosts-frame :
    (lister : Option Lister) (now : ℕ) (ix : Index)
    → SameButListings ix (refresh_ghosts lister now ix)
unfolding refresh_ghosts
refresh_ghosts-frame none now ix = refl
refresh_ghosts-frame (some lister) now ix = configured ix.cfg.owners
  where
    configured : (os : List Owner) → SameButListings ix (list_configured lister now os ix)
    configured [] = refl
    configured (o ∷ os) =
        ap (λ (k : Index). record k { listed_at = now }) (list_owners-frame lister (o ∷ os) ix)

pub fetch_all-frame :
    (sys : System) (stopped : Str → Bool) (now : ℕ) (log : Log) (ix : Index)
    → (fetch_all sys stopped now log ix).0
      ≡ record ix { fetched_at = (fetch_all sys stopped now log ix).0.fetched_at }
unfolding fetch_all
fetch_all-frame sys stopped now log ix = round (targets_of ix.snap.tree)
  where
    round :
        (ps : List Str)
        → (fetch_round sys stopped now log ix ps).0
          ≡ record ix { fetched_at = (fetch_round sys stopped now log ix ps).0.fetched_at }
    round [] = refl
    round (p ∷ ps) = refl

abbrev is_scanning : Task → Bool
is_scanning scanning = true
is_scanning listing = false
is_scanning fetching = false

-- A request for a scan waits for the select, or was received and its scan is still to do, or was
-- served.
abbrev pub IsHeard : List Act → Machine → Type 0
IsHeard acts m =
    (m.ix.pending_scan ≡ true)
    ⊎ (((received acts ≡ true) × (any is_scanning m.todo ≡ true)) ⊎ (served acts ≡ true))

still_served : (a : Act) (acts : List Act) → served acts ≡ true → served (a ∷ acts) ≡ true
unfolding served
still_served a acts h = ground arith

still_received : (a : Act) (acts : List Act) → received acts ≡ true → received (a ∷ acts) ≡ true
unfolding received
still_received a acts h = ground arith

-- A step that keeps the signal, and a scan that is still to do.
kept :
    (a : Act) (acts : List Act) (m n : Machine)
    → n.ix.pending_scan ≡ m.ix.pending_scan
    → (any is_scanning m.todo ≡ true → any is_scanning n.todo ≡ true)
    → IsHeard acts m
    → IsHeard (a ∷ acts) n
kept a acts m n e f (inl h) = inl (e ∙ h)
kept a acts m n e f (inr (inl h)) = inr (inl (still_received a acts h.0, f h.1))
kept a acts m n e f (inr (inr h)) = inr (inr (still_served a acts h))

-- A call that ends and is no scan leaves the scan to do.
left_to_do :
    {t : Task} (rest : List Task) {todo : List Task}
    → todo ≡ t ∷ rest
    → is_scanning t ≡ false
    → any is_scanning todo ≡ true
    → any is_scanning rest ≡ true
unfolding any
left_to_do {t = t} rest e n h =
    let k : (is_scanning t || any is_scanning rest) ≡ true =
      subst (λ ts. any is_scanning ts ≡ true) e h in
    rw n at k

scanned :
    (acts : List Act) (m n : Machine)
    → n.ix.pending_scan ≡ m.ix.pending_scan
    → IsHeard acts m
    → IsHeard (did_scan ∷ acts) n
unfolding served
scanned acts m n e (inl h) = inl (e ∙ h)
scanned acts m n e (inr (inl h)) = inr (inr (ground (arith, h.0)))
scanned acts m n e (inr (inr h)) = inr (inr (still_served did_scan acts h))

Step-IsHeard :
    (acts : List Act) (m n : Machine) {a : Act} → Step m a n → IsHeard acts m → IsHeard (a ∷ acts) n
unfolding any received scan_now fetch_now refresh_ghosts_now
Step-IsHeard acts m n {a = a} (tick_scan e) h = kept a acts m n refl (λ k. refl) h
Step-IsHeard acts m n {a = a} (tick_fetch e p) h = kept a acts m n refl (λ k. refl) h
Step-IsHeard acts m n {a = a} (tick_github e) h = kept a acts m n refl (λ k. refl) h
Step-IsHeard acts m n (receive_scan e p) h = inr (inl (refl, refl))
Step-IsHeard acts m n {a = a} (receive_fetch e p) h = kept a acts m n refl (λ k. refl) h
Step-IsHeard acts m n {a = a} (receive_ghosts e p) h = kept a acts m n refl (λ k. refl) h
Step-IsHeard acts m n (end_scan p rest e) h =
    scanned acts m n (ap (λ (k : Index). k.pending_scan) (scan-frame p m.ix)) h
Step-IsHeard acts m n {a = a} (end_list lister now rest e) h =
    kept a acts m n (ap (λ (k : Index). k.pending_scan) (refresh_ghosts-frame lister now m.ix))
      (left_to_do rest e refl) h
Step-IsHeard acts m n {a = a} (end_fetch sys stopped now log rest e) h =
    kept a acts m n (ap (λ (k : Index). k.pending_scan) (fetch_all-frame sys stopped now log m.ix))
      (left_to_do rest e refl) h
Step-IsHeard acts m n request_scan h = inl refl
Step-IsHeard acts m n {a = a} request_fetch h = kept a acts m n refl (λ k. k) h
Step-IsHeard acts m n {a = a} request_ghosts h = kept a acts m n refl (λ k. k) h

Reach-IsHeard :
    {m n : Machine} {acts : List Act} → Reach m acts n → m.ix.pending_scan ≡ true → IsHeard acts n
Reach-IsHeard here h = inl h
Reach-IsHeard (next {acts = acts} {n = n} {o = o} r s) h =
    Step-IsHeard acts n o s (Reach-IsHeard r h)

none_left : (todo : List Task) → todo ≡ [] → any is_scanning todo ≡ true → ⊥
unfolding any
none_left [] q k = absurd (cc (k))
none_left (t ∷ ts) q k = absurd (cc (q))

-- No request for a scan is lost: once ScanNow has left its signal, whatever the handlers, the
-- tickers and the other requests do, Run is at its select with that channel empty only after it
-- received the signal and then ended a scan.
pub scan_request-served :
    (m : Machine) {n : Machine} {acts : List Act}
    → Reach (record m { ix = scan_now m.ix }) acts n
    → n.todo ≡ []
    → n.ix.pending_scan ≡ false
    → served acts ≡ true
unfolding scan_now
scan_request-served m {n = n} {acts = acts} r e p = heard (Reach-IsHeard r refl)
  where
    heard : IsHeard acts n → served acts ≡ true
    heard (inl h) = absurd (cc (h, p))
    heard (inr (inl h)) = absurd (none_left n.todo e h.1)
    heard (inr (inr h)) = h
