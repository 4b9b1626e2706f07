-- ===== src/Index/Rounds.antt =====
-- index.go: which checkouts a round of fetches asks for, told from the nodes of the tree.
use mathlib.Core.List.{Memᴰ}
use mathlib.Core.List.Memᴰ
use repo_man.Git.Commands.{fetch}
use repo_man.Git.Commands.Runs.{fetch_args, run-log}
use repo_man.Git.System.{Log, Request, System, git}
use repo_man.Index.{Index}
use repo_man.Index.Fetching.{
  is_repo, fetched_repo, targets, targets_in, targets_of, fetch_one, fetch_each, fetch_round,
  fetch_all,
}
use repo_man.Model.{Repo}
use repo_man.Model.Node.{Kind, Node, node, Nodes, nil, cons, info}
use repo_man.Tree.{Summary}
use repo_man.Tree.Finding.{Within, WithinAny}
use repo_man.Base.{
  ℕ, ◌≡◌, refl, ap, sym, subst, ◌∙◌, ◌≢◌, ◌⊎◌, inl, inr, Bool, true, false, not, ◌&&◌, List, [],
  ◌∷◌, ◌++◌, append_assoc, Option, none, some, Str, eqb, eqb→eq, eqb-ne, eqb-nil, eqb_refl,
  Bool-cases, if◌then◌else◌, arith,
}

-- A primary checkout at the path, with a remote URL, that was inspected without an error.
pub record IsFetched (m : Node) (p : Str) : Type 0 where
  pub primary : (info m).kind ≡ Kind.repo
  pub checkout : Repo
  pub carried : (info m).repo ≡ some checkout
  pub remote : checkout.remote.url ≢ []
  pub sound : checkout.error ≡ []
  pub path : checkout.path ≡ p

-- The snapshot's tree has such a checkout.
pub record IsDue (ix : Index) (p : Str) : Type 0 where
  pub root : Node
  pub summary : Summary
  pub shown : ix.snap.tree ≡ some (root, summary)
  pub at : Node
  pub within : Within at root
  pub fetched : IsFetched at p

is_repo-true : (k : Kind) → is_repo k ≡ true → k ≡ Kind.repo
is_repo-true Kind.dir h = absurd (cc (h))
is_repo-true Kind.repo h = refl
is_repo-true Kind.worktree h = absurd (cc (h))
is_repo-true Kind.ghost h = absurd (cc (h))

fetched_repo-IsFetched :
    (m : Node) (o : Option Repo) (p : Str)
    → (info m).repo ≡ o
    → Memᴰ p (fetched_repo (info m).kind o)
    → IsFetched m p
fetched_repo-IsFetched m none p e d = absurd (Memᴰ.not-nil d)
fetched_repo-IsFetched m (some r) p e d =
    let test : Bool = is_repo (info m).kind && (not (eqb r.remote.url []) && eqb r.error []) in
    elim (Bool-cases (is_repo (info m).kind && (not (eqb r.remote.url []) && eqb r.error []))) [
      | inr n ↦ absurd (Memᴰ.not-nil (rw n at d))
      | inl y ↦
          let q : (is_repo (info m).kind ≡ true)
              × (eqb r.remote.url [] ≡ false)
              × (eqb r.error [] ≡ true) =
            ground arith in
          record {
            primary = is_repo-true (info m).kind q.0;
            checkout = r;
            carried = e;
            remote = eqb-ne r.remote.url [] q.1;
            sound = eqb→eq r.error [] q.2;
            path = sym (Memᴰ.eq_of_singleton (rw y at d));
          }
    ]

IsFetched-fetched_repo :
    (m : Node) (p : Str) → IsFetched m p → Memᴰ p (fetched_repo (info m).kind (info m).repo)
IsFetched-fetched_repo m p f =
    rw (f.carried, f.primary, eqb-nil f.checkout.remote.url f.remote, f.sound, eqb_refl [])
      (Memᴰ.head (sym f.path))

mutual
  unfolding targets Within info

  targets-IsFetched :
      (n : Node) (p : Str) → Memᴰ p (targets n) → (m : Node) × Within m n × IsFetched m p
  targets-IsFetched (node i ns) p d = elim (Memᴰ.append_cases (fetched_repo i.kind i.repo) d) [
    | inl a ↦ (node i ns, inl refl, fetched_repo-IsFetched (node i ns) i.repo p refl a)
    | inr b ↦ let (m, w, f) = targets_in-IsFetched ns p b in (m, inr w, f)
  ]

  targets_in-IsFetched :
      (ns : Nodes) (p : Str) → Memᴰ p (targets_in ns) → (m : Node) × WithinAny m ns × IsFetched m p
  targets_in-IsFetched nil p d = absurd (Memᴰ.not-nil d)
  targets_in-IsFetched (cons n ns) p d = elim (Memᴰ.append_cases (targets n) d) [
    | inl a ↦ let (m, w, f) = targets-IsFetched n p a in (m, inl w, f)
    | inr b ↦ let (m, w, f) = targets_in-IsFetched ns p b in (m, inr w, f)
  ]

mutual
  unfolding targets Within info

  IsFetched-targets : (n m : Node) (p : Str) → Within m n → IsFetched m p → Memᴰ p (targets n)
  IsFetched-targets (node i ns) m p (inl e) f =
      Memᴰ.append_left (targets_in ns)
        (IsFetched-fetched_repo (node i ns) p (subst (λ (x : Node). IsFetched x p) e f))
  IsFetched-targets (node i ns) m p (inr w) f =
      Memᴰ.append_right (fetched_repo i.kind i.repo) (IsFetched-targets_in ns m p w f)

  IsFetched-targets_in :
      (ns : Nodes) (m : Node) (p : Str) → WithinAny m ns → IsFetched m p → Memᴰ p (targets_in ns)
  IsFetched-targets_in nil m p w f = absurd w
  IsFetched-targets_in (cons n ns) m p (inl w) f =
      Memᴰ.append_left (targets_in ns) (IsFetched-targets n m p w f)
  IsFetched-targets_in (cons n ns) m p (inr w) f =
      Memᴰ.append_right (targets n) (IsFetched-targets_in ns m p w f)

module _ (ix : Index) (p : Str) where
  targets_of-IsDue :
      (o : Option (Node × Summary)) → ix.snap.tree ≡ o → Memᴰ p (targets_of o) → IsDue ix p
  targets_of-IsDue none e d = absurd (Memᴰ.not-nil d)
  targets_of-IsDue (some (root, summary)) e d =
      let (m, w, f) = targets-IsFetched root p d in
      record { root = root; summary = summary; shown = e; at = m; within = w; fetched = f }

  IsDue-targets_of : IsDue ix p → Memᴰ p (targets_of ix.snap.tree)
  IsDue-targets_of d = rw d.shown (IsFetched-targets d.root d.at p d.within d.fetched)

-- The requests of the goroutines, the newest first.
calls : (Str → Bool) → List Str → Log
calls stopped [] = []
calls stopped (p ∷ ps) = calls stopped ps ++ (if stopped p then [] else git p fetch_args ∷ [])

fetch_each-calls :
    (sys : System) (stopped : Str → Bool) (ps : List Str) (log : Log)
    → fetch_each sys stopped ps log ≡ calls stopped ps ++ log
unfolding fetch_each calls fetch_one fetch
fetch_each-calls sys stopped [] log = refl
fetch_each-calls sys stopped (p ∷ ps) log = elim (Bool-cases (stopped p)) [
  | inl y ↦
      rw y (fetch_each-calls sys stopped ps log ∙ sym (append_assoc (calls stopped ps) [] log))
  | inr n ↦ rw n (
      ap (fetch_each sys stopped ps) (run-log sys log p fetch_args)
      ∙ fetch_each-calls sys stopped ps (git p fetch_args ∷ log)
      ∙ sym (append_assoc (calls stopped ps) (git p fetch_args ∷ []) log))
]

calls-mem :
    (stopped : Str → Bool) (ps : List Str) (e : Request)
    → Memᴰ e (calls stopped ps)
    → (p : Str) × Memᴰ p ps × (stopped p ≡ false) × (e ≡ git p fetch_args)
unfolding calls
calls-mem stopped [] e d = absurd (Memᴰ.not-nil d)
calls-mem stopped (p ∷ ps) e d = elim (Memᴰ.append_cases (calls stopped ps) d) [
  | inl a ↦ let (q, m, s, r) = calls-mem stopped ps e a in (q, Memᴰ.tail m, s, r)
  | inr b ↦ elim (Bool-cases (stopped p)) [
    | inl y ↦ absurd (Memᴰ.not-nil (rw y at b))
    | inr n ↦ (p, Memᴰ.head refl, n, Memᴰ.eq_of_singleton (rw n at b))
  ]
]

mem-calls :
    (stopped : Str → Bool) (ps : List Str) (p : Str)
    → stopped p ≡ false
    → Memᴰ p ps
    → Memᴰ (git p fetch_args) (calls stopped ps)
unfolding calls
mem-calls stopped [] p s d = absurd (Memᴰ.not-nil d)
mem-calls stopped (q ∷ ps) p s (Memᴰ.head e) =
    Memᴰ.append_right (calls stopped ps)
      (rw (sym (ap stopped e) ∙ s) (Memᴰ.head (ap (λ (x : Str). git x fetch_args) e)))
mem-calls stopped (q ∷ ps) p s (Memᴰ.tail d) =
    Memᴰ.append_left (if stopped q then [] else git q fetch_args ∷ []) (mem-calls stopped ps p s d)

-- A round: what it asks of the system, and what it leaves of the index.
pub record IsRound (stopped : Str → Bool) (now : ℕ) (log : Log) (ix : Index) (o : Index × Log)
    : Type 0 where
  pub new : Log
  pub grown : o.1 ≡ new ++ log
  pub asks :
      (e : Request)
      → Memᴰ e new
      → (p : Str) × IsDue ix p × (stopped p ≡ false) × (e ≡ git p fetch_args)
  pub complete : (p : Str) → IsDue ix p → stopped p ≡ false → Memᴰ (git p fetch_args) new
  pub left :
      ((o.0 ≡ ix) × ((p : Str) → ¬ (IsDue ix p)))
      ⊎ ((o.0 ≡ record ix { fetched_at = now }) × ((p : Str) × IsDue ix p))

-- A round of fetches runs git fetch in just the primary checkouts of the snapshot's tree that have a
-- remote URL and were inspected without an error, those whose goroutine finds the context done left
-- out, and asks nothing else of the system. Where the tree has such a checkout the time of the round
-- is recorded, and nothing else of the index changes; where it has none, the index stays as it is.
pub fetch_all-IsRound :
    (sys : System) (stopped : Str → Bool) (now : ℕ) (log : Log) (ix : Index)
    → IsRound stopped now log ix (fetch_all sys stopped now log ix)
unfolding fetch_all
fetch_all-IsRound sys stopped now log ix = by_targets (targets_of ix.snap.tree) refl
  where
    by_targets :
        (ps : List Str)
        → targets_of ix.snap.tree ≡ ps
        → IsRound stopped now log ix (fetch_round sys stopped now log ix ps)
    by_targets [] e = record {
      new = [];
      grown = refl;
      asks = λ r d. absurd (Memᴰ.not-nil d);
      complete = λ p d s. absurd (Memᴰ.not-nil (rw e at (IsDue-targets_of ix p d)));
      left = inl (refl, λ p d. Memᴰ.not-nil (rw e at (IsDue-targets_of ix p d)));
    }
    by_targets (q ∷ ps) e = record {
      new = calls stopped (q ∷ ps);
      grown = fetch_each-calls sys stopped (q ∷ ps) log;
      asks = λ r d.
          let (p, m, s, g) = calls-mem stopped (q ∷ ps) r d in
          (p, targets_of-IsDue ix p ix.snap.tree refl (subst (λ l. Memᴰ p l) (sym e) m), s, g);
      complete = λ p d s.
          mem-calls stopped (q ∷ ps) p s (subst (λ l. Memᴰ p l) e (IsDue-targets_of ix p d));
      left = inr (
        refl,
        (
          q,
          targets_of-IsDue ix q ix.snap.tree refl (subst (λ l. Memᴰ q l) (sym e) (Memᴰ.head refl)),
        ),
      );
    }
