-- ===== src/Actions/Targets.antt =====
-- actions.go: where Clone puts a checkout, and which jobs it starts.
use repo_man.Actions.{
  Service, ActionError, url_found, path_found, below_root, choose_dest, Target, clone_target,
  job_started, job_label, clone_start, clone_at, clone_request, check_names, dest_for, named,
}
use repo_man.Git.System.{lstat, Log, Found, missing, unreadable, file, directory, System}
use repo_man.Git.Remote.{UrlParser, CloneError, validate_clone_url, parse_remote_url}
use repo_man.Git.Remote.Accepted.{IsAccepted, validate_clone_url-IsAccepted}
use repo_man.Jobs.Registry.{Registry, Job, Busy, running, start, is_busy, get}
use repo_man.Jobs.Registry.Starting.{IsBegun, start-IsBegun}
use repo_man.Safepath.{
  slash, PathError, NameError, clean, resolve, normalize, join_elements, valid_name,
}
use repo_man.Safepath.Cleaning.{IsSafe}
use repo_man.Safepath.Names.{IsName, valid_name-none}
use repo_man.Safepath.Resolving.{resolve_accepts}
use repo_man.Base.{
  ℕ, ◌≡◌, refl, ap, sym, subst, arith, ◌∙◌, ◌≢◌, ◌⊎◌, inl, inr, false, List, [], ◌∷◌, ◌++◌, Option,
  none, some, IsDistinct, Str, codes, Result, ok, err, ◌>>=◌, eqb, eqb-ne, Lacks, split, All,
  Bool-cases, ◌||◌,
}

-- A clone's target below the root: a URL that is accepted, and a path with safe elements.
pub record IsBelow (p : Str) (t : Target) : Type 0 where
  pub url : IsAccepted t.url
  pub safe : All IsSafe (split t.rel slash)
  pub abs : t.abs ≡ clean (slash ∷ p) ++ slash ∷ t.rel

module _ (parse : UrlParser) (p : Str) (n : clean (slash ∷ p) ≢ slash ∷ []) (t : Target) where
  below_root-IsBelow :
      (u d abs rel : Str)
      → IsAccepted u
      → resolve (slash ∷ p) d ≡ ok (abs, rel)
      → below_root u (abs, rel) ≡ ok t
      → IsBelow p t
  below_root-IsBelow u d abs rel a r h = elim (Bool-cases (eqb rel [])) [
    | inl y ↦ absurd (cc (rw y at h))
    | inr y ↦
        let h' : Same (ok (record { url = u; abs = abs; rel = rel })) = rw y at h in
        let same : ◌≡◌ {A = Target} (record { url = u; abs = abs; rel = rel }) t = cc in
        subst (IsBelow p) same (accepted y ((resolve_accepts p d n).1 abs rel r))
  ]
    where
      Same : Result ActionError Target → Type 0
      Same r = r ≡ ok t

      accepted :
          eqb rel [] ≡ false
          → ((rel ≡ []) × (abs ≡ slash ∷ p))
            ⊎ (All IsSafe (split (normalize d) slash)
                × Lacks 0 (normalize d)
                × (rel ≡ normalize d)
                × (abs ≡ clean (slash ∷ p) ++ slash ∷ normalize d))
          → IsBelow p (record { url = u; abs = abs; rel = rel })
      accepted y (inl (e, q)) = absurd (eqb-ne rel [] y e)
      accepted y (inr (s, z, e, q)) = record {
        url = a;
        safe = subst (λ r. All IsSafe (split r slash)) (sym e) s;
        abs = q ∙ ap (λ (r : Str). clean (slash ∷ p) ++ slash ∷ r) (sym e);
      }

  clone_target-IsBelow :
      (url dest : Str) → clone_target parse (slash ∷ p) url dest ≡ ok t → IsBelow p t
  unfolding clone_target
  clone_target-IsBelow url dest = checked (validate_clone_url parse url) refl
    where
      resolved :
          (u d : Str) (r : Result PathError (Str × Str))
          → IsAccepted u
          → resolve (slash ∷ p) d ≡ r
          → (path_found r >>= below_root u) ≡ ok t
          → IsBelow p t
      resolved u d (err e) a q h = absurd (cc (h))
      resolved u d (ok (abs, rel)) a q h = below_root-IsBelow u d abs rel a q h

      chosen :
          (u : Str) (d : Result ActionError Str)
          → IsAccepted u
          → (d >>= (λ d. path_found (resolve (slash ∷ p) d) >>= below_root u)) ≡ ok t
          → IsBelow p t
      chosen u (err e) a h = absurd (cc (h))
      chosen u (ok d) a h = resolved u d (resolve (slash ∷ p) d) a refl h

      checked :
          (v : Result CloneError Str)
          → validate_clone_url parse url ≡ v
          → (url_found v >>= (λ u.
              choose_dest parse u dest
              >>= (λ d. path_found (resolve (slash ∷ p) d) >>= below_root u)))
            ≡ ok t
          → IsBelow p t
      checked (err e) y h = absurd (cc (h))
      checked (ok u) y h =
          chosen u (choose_dest parse u dest) (validate_clone_url-IsAccepted parse url u y) h

-- A started clone: its target lies below the root, nothing was found there and no running job had
-- it; the job is a running one for it, under the drawn id, and the registry that is kept finds it.
pub record IsStarted (sys : System) (log : Log) (p id : Str) (s : Service) (t : Target) (j : Job)
    (s' : Service) : Type 0 where
  pub below : IsBelow p t
  pub free : sys.lstat log t.abs ≡ missing
  pub reg : Registry
  pub present : s.reg ≡ some reg
  pub idle : is_busy t.rel reg.jobs ≡ false
  pub target : j.target ≡ t.rel
  pub drawn : j.id ≡ id
  pub runs : j.state ≡ running
  pub kept : Registry
  pub left : s' ≡ record s { reg = some kept }
  pub registered : get id kept ≡ some j

-- What clone_start goes by, where it starts a job of the target u.
record Goes (id : Str) (s : Service) (u : Target) (j : Job) (s' : Service) (f : Found)
    (before : Option Registry) : Type 0 where
  free : f ≡ missing
  reg : Registry
  present : before ≡ some reg
  kept : Registry
  left : s' ≡ record s { reg = some kept }
  begun : IsBegun id u.rel reg kept j

module _ (now : ℕ) (id : Str) (s : Service) (t t' : Target) (j : Job) (s' : Service) where
  clone_start-ok :
      (f : Found) (before : Option Registry)
      → ((r : Registry) → before ≡ some r → IsDistinct r.jobs)
      → clone_start now id s t f before ≡ (ok (t', j), s')
      → (t ≡ t') × Goes id s t j s' f before
  unfolding clone_start
  clone_start-ok missing none d h = absurd (cc (h))
  clone_start-ok missing (some r) d h =
      begun (start now id (codes "clone") t.rel (job_label t) r) refl h
    where
      begun :
          (o : Result Busy (Registry × Job))
          → start now id (codes "clone") t.rel (job_label t) r ≡ o
          → job_started s t o ≡ (ok (t', j), s')
          → (t ≡ t') × Goes id s t j s' missing (some r)
      begun (err e) q h = absurd (cc (h))
      begun (ok (r', j')) q h =
          let same : j' ≡ j = cc in
          (
            cc,
            record {
              free = refl;
              reg = r;
              present = refl;
              kept = r';
              left = cc;
              begun =
                  subst (IsBegun id t.rel r r') same
                    (start-IsBegun now id (codes "clone") t.rel (job_label t) r r' j' (d r refl) q);
            },
          )
  clone_start-ok unreadable before d h = absurd (cc (h))
  clone_start-ok file before d h = absurd (cc (h))
  clone_start-ok directory before d h = absurd (cc (h))

-- A clone that Clone starts is of an accepted URL, into a path below the root with safe elements,
-- where nothing was found and which no running job had; the job is a running one for that path under
-- the drawn id, the registry that the service keeps finds it under that id, nothing else of the
-- service changed, and nothing but that one test was asked of the system. For a rooted root that
-- does not clean to "/", and a registry where each id stands once.
pub clone_request-IsStarted :
    (sys : System) (parse : UrlParser) (log log' : Log) (now : ℕ) (id url dest p : Str)
    (s s' : Service) (t : Target) (j : Job)
    → s.root ≡ slash ∷ p
    → clean (slash ∷ p) ≢ slash ∷ []
    → ((r : Registry) → s.reg ≡ some r → IsDistinct r.jobs)
    → clone_request sys parse log now id url dest s ≡ (ok (t, j), (log', s'))
    → IsStarted sys log p id s t j s' × (log' ≡ lstat t.abs ∷ log)
unfolding clone_request
clone_request-IsStarted sys parse log log' now id url dest p s s' t j e n d =
    targeted (clone_target parse s.root url dest) refl
  where
    Started : Target → Type 0
    Started u = IsStarted sys log p id s u j s' × (log' ≡ lstat u.abs ∷ log)

    lstatted :
        (t' : Target)
        → IsBelow p t'
        → (o : Result ActionError (Target × Job) × Service)
        → clone_start now id s t' (sys.lstat log t'.abs) s.reg ≡ o
        → ◌≡◌ {A = Result ActionError (Target × Job) × (Log × Service)}
            (o.0, (lstat t'.abs ∷ log, o.1))
            (ok (t, j), (log', s'))
        → Started t
    lstatted t' b (out, s″) q h =
        let f = clone_start-ok now id s t' t j s' (sys.lstat log t'.abs) s.reg d (cc) in
        let l : log' ≡ lstat t'.abs ∷ log = cc in
        let g = f.1 in
        subst Started f.0 (
          record {
            below = b;
            free = g.free;
            reg = g.reg;
            present = g.present;
            idle = g.begun.idle;
            target = g.begun.target;
            drawn = g.begun.drawn;
            runs = g.begun.runs;
            kept = g.kept;
            left = g.left;
            registered = g.begun.registered;
          },
          l,
        )

    targeted :
        (r : Result ActionError Target)
        → clone_target parse s.root url dest ≡ r
        → clone_at sys log now id s r ≡ (ok (t, j), (log', s'))
        → Started t
    targeted (err x) q h = absurd (cc (h))
    targeted (ok t') q h =
        lstatted t'
          (clone_target-IsBelow parse p n t' url dest
            (subst (λ r. clone_target parse r url dest ≡ ok t') e q))
          (clone_start now id s t' (sys.lstat log t'.abs) s.reg) refl h

check_names-IsName : (ss : List Str) → check_names ss ≡ none → All IsName ss
unfolding check_names
check_names-IsName [] h = tt
check_names-IsName (s ∷ ss) h =
    let e : (valid_name s ≡ none) × (check_names ss ≡ none) = ground arith in
    ((valid_name-none s).0 e.0, check_names-IsName ss e.1)

named-IsName :
    (rel rel' : Str)
    → named rel' (check_names (split rel' slash)) ≡ ok rel
    → All IsName (split rel slash)
named-IsName rel rel' h = told (check_names (split rel' slash)) refl h
  where
    told :
        (o : Option NameError)
        → check_names (split rel' slash) ≡ o
        → named rel' o ≡ ok rel
        → All IsName (split rel slash)
    told (some e) q h = absurd (cc (h))
    told none q h =
        let same : rel' ≡ rel = cc in
        subst (λ r. All IsName (split r slash)) same (check_names-IsName (split rel' slash) q)

-- Every segment of a destination that DestFor derives is a valid directory name.
pub dest_for-IsName :
    (parse : UrlParser) (url rel : Str) → dest_for parse url ≡ ok rel → All IsName (split rel slash)
unfolding dest_for
dest_for-IsName parse url rel h =
    let r = parse_remote_url parse url in
    elim (Bool-cases (eqb r.host [] || eqb r.owner [] || eqb r.name [])) [
      | inl y ↦ absurd (cc (rw y at h))
      | inr y ↦ named-IsName rel (join_elements (r.host ∷ r.owner ∷ r.name ∷ [])) (rw y at h)
    ]
