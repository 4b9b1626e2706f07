-- ===== src/Jobs/Registry/Retention.antt =====
-- jobs.go: which jobs the registry drops.
use repo_man.Jobs.Registry.{
  Job, Entry, Registry, is_running, insert_aged, finished_jobs, drop_finished, evict, new_job,
  start, is_expired, expire,
}
use repo_man.Base.{
  sym, subst, ℕ, ◌≤◌, ◌≡◌, refl, ◌≢◌, ◌⊎◌, Bool, true, false, not, ◌||◌, List, [], ◌∷◌, some, arith,
  Str, Dict, ok, eqb, eqb_iff, eqb_refl, lookup, insert, delete, length, leb, leb→le, IsDistinct,
  insert-IsDistinct, Entries, lookup-insert, lookup-delete, lookup-retain, Bool-cases, inl, inr,
}

-- The key stands in the list of finished jobs.
unfoldable pub has_key : Str → List (Str × ℕ) → Bool
has_key k [] = false
has_key k (f ∷ fs) = eqb f.0 k || has_key k fs

has_key-insert_aged :
    (k : Str) (f : Str × ℕ) (fs : List (Str × ℕ))
    → has_key k (insert_aged f fs) ≡ (eqb f.0 k || has_key k fs)
unfolding has_key insert_aged
has_key-insert_aged k f [] = refl
has_key-insert_aged k f (g ∷ fs) = ground (arith, has_key-insert_aged k f fs)

-- No running job is among the finished ones.
finished_jobs-running :
    (id : Str) (m : Dict Entry)
    → IsDistinct m
    → ((e : Entry) → lookup id m ≡ some e → is_running e.job ≡ true)
    → has_key id (finished_jobs m) ≡ false
unfolding finished_jobs has_key
finished_jobs-running id [] d h = refl
finished_jobs-running id ((k, w) ∷ m) d h = elim (Bool-cases (is_running w.job)) [
  | inl on ↦ rw on (finished_jobs-running id m d.1 rest)
  | inr off ↦
      rw off (rw has_key-insert_aged (rw (other off, finished_jobs-running id m d.1 rest) refl))
]
  where
    rest : (e : Entry) → lookup id m ≡ some e → is_running e.job ≡ true
    rest e q = h e (unfold lookup in ground (arith, eqb_iff k id))

    other : is_running w.job ≡ false → eqb k id ≡ false
    other off = elim (Bool-cases (eqb k id)) [
      | inr n ↦ n
      | inl y ↦ let q = h w (unfold lookup in rw y) in cc
    ]

drop_finished-lookup :
    (id : Str) (max_jobs : ℕ) (fs : List (Str × ℕ)) (m : Dict Entry)
    → has_key id fs ≡ false
    → lookup id (drop_finished max_jobs fs m) ≡ lookup id m
unfolding drop_finished has_key
drop_finished-lookup id max_jobs [] m h = refl
drop_finished-lookup id max_jobs (f ∷ fs) m h =
    ground (arith, drop_finished-lookup id max_jobs fs (delete f.0 m), lookup-delete f.0 id m)

pub evict-running :
    (id : Str) (max_jobs : ℕ) (m : Dict Entry) (e : Entry)
    → IsDistinct m
    → lookup id m ≡ some e
    → is_running e.job ≡ true
    → lookup id (evict max_jobs m) ≡ some e
unfolding evict
evict-running id max_jobs m e d q on =
    let f = finished_jobs-running id m d (λ w p. same w p) in
    ground (arith, drop_finished-lookup id max_jobs (finished_jobs m) m f)
  where
    same : (w : Entry) → lookup id m ≡ some w → is_running w.job ≡ true
    same w p = let s : e ≡ w = cc in rw (← s) on

-- A running job stays in the registry as it is when a job is started under another id and when
-- jobs expire, however full the registry is and however old the job, where each id stands once.
pub running_stays :
    (now : ℕ) (id kind target label : Str) (r r' : Registry) (j : Job) (running_id : Str)
    (e : Entry)
    → IsDistinct r.jobs
    → lookup running_id r.jobs ≡ some e
    → is_running e.job ≡ true
    → id ≢ running_id
    → (start now id kind target label r ≡ ok (r', j) → lookup running_id r'.jobs ≡ some e)
      × (lookup running_id (expire now r).jobs ≡ some e)
running_stays now id kind target label r r' j running_id e d q on other = (started, expired)
  where
    fresh : Entry
    fresh = record { job = new_job now id kind target label; buf = [] }

    put : lookup running_id (insert id fresh r.jobs) ≡ some e
    put = rw lookup-insert (ground (arith, eqb_iff id running_id))

    stays : lookup running_id (evict r.max_jobs (insert id fresh r.jobs)) ≡ some e
    stays =
        evict-running running_id r.max_jobs (insert id fresh r.jobs) e
          (insert-IsDistinct id fresh r.jobs d) put on

    started : start now id kind target label r ≡ ok (r', j) → lookup running_id r'.jobs ≡ some e
    started h = unfold start in ground (arith, stays)

    expired : lookup running_id (expire now r).jobs ≡ some e
    expired =
        unfold expire in
        rw (lookup-retain (λ w. not (is_expired r.ttl now w)) running_id r.jobs d, q)
          (unfold is_expired in rw on refl)

-- Every entry that does not run has its key in the list.
abbrev Covered : List (Str × ℕ) → Str → Entry → Type 0
Covered fs k e = is_running e.job ≡ false → has_key k fs ≡ true

Covered-insert_aged :
    (f : Str × ℕ) (fs : List (Str × ℕ)) (m : Dict Entry)
    → Entries (Covered fs) m
    → Entries (Covered (insert_aged f fs)) m
Covered-insert_aged f fs [] c = tt
Covered-insert_aged f fs ((k, e) ∷ m) c = (
  λ off. rw has_key-insert_aged (let h = c.0 off in ground arith),
  Covered-insert_aged f fs m c.1,
)

finished_jobs-on :
    (k : Str) (e : Entry) (m : Dict Entry)
    → is_running e.job ≡ true
    → finished_jobs ((k, e) ∷ m) ≡ finished_jobs m
unfolding finished_jobs
finished_jobs-on k e m on = rw on refl

finished_jobs-off :
    (k : Str) (e : Entry) (m : Dict Entry)
    → is_running e.job ≡ false
    → finished_jobs ((k, e) ∷ m) ≡ insert_aged (k, e.job.started) (finished_jobs m)
unfolding finished_jobs
finished_jobs-off k e m off = rw off refl

finished_jobs-Covered : (m : Dict Entry) → Entries (Covered (finished_jobs m)) m
finished_jobs-Covered [] = tt
finished_jobs-Covered ((k, e) ∷ m) = elim (Bool-cases (is_running e.job)) [
  | inl on ↦
      subst (λ fs. Entries (Covered fs) ((k, e) ∷ m)) (sym (finished_jobs-on k e m on))
        ((λ off. absurd (clash on off)), finished_jobs-Covered m)
  | inr off ↦
      subst (λ fs. Entries (Covered fs) ((k, e) ∷ m)) (sym (finished_jobs-off k e m off))
        (
          (λ _. rw has_key-insert_aged (unfold has_key in rw eqb_refl refl)),
          Covered-insert_aged (k, e.job.started) (finished_jobs m) m (finished_jobs-Covered m),
        )
]
  where
    clash : is_running e.job ≡ true → is_running e.job ≡ false → ⊥
    clash on off = let h : true ≡ false = cc in cc

delete-Covered :
    (f : Str × ℕ) (fs : List (Str × ℕ)) (m : Dict Entry)
    → Entries (Covered (f ∷ fs)) m
    → Entries (Covered fs) (delete f.0 m)
unfolding delete has_key
delete-Covered f fs [] c = tt
delete-Covered f fs ((k, e) ∷ m) c = elim (Bool-cases (eqb k f.0)) [
  | inl s ↦ rw s (delete-Covered f fs m c.1)
  | inr s ↦ rw s (
    (λ off. let h = c.0 off in ground (arith, eqb_iff k f.0, eqb_iff f.0 k)),
    delete-Covered f fs m c.1,
  )
]

drop_finished-bounded :
    (max_jobs : ℕ) (fs : List (Str × ℕ)) (m : Dict Entry)
    → Entries (Covered fs) m
    → (length (drop_finished max_jobs fs m) ≤ max_jobs)
      ⊎ Entries (Covered []) (drop_finished max_jobs fs m)
unfolding drop_finished
drop_finished-bounded max_jobs [] m c = inr c
drop_finished-bounded max_jobs (f ∷ fs) m c = elim (Bool-cases (leb (length m) max_jobs)) [
  | inl fits ↦ rw fits (inl (leb→le _ _ fits))
  | inr over ↦ rw over (drop_finished-bounded max_jobs fs (delete f.0 m) (delete-Covered f fs m c))
]

all_running : (m : Dict Entry) → Entries (Covered []) m → Entries (λ k e. is_running e.job ≡ true) m
all_running [] c = tt
all_running ((k, e) ∷ m) c = (on, all_running m c.1)
  where
    on : is_running e.job ≡ true
    on = elim (Bool-cases (is_running e.job)) [
      | inl y ↦ y
      | inr n ↦ let h : false ≡ true = unfold has_key in c.0 n in cc
    ]

evict-bounded :
    (max_jobs : ℕ) (m : Dict Entry)
    → (length (evict max_jobs m) ≤ max_jobs)
      ⊎ Entries (λ k e. is_running e.job ≡ true) (evict max_jobs m)
unfolding evict
evict-bounded max_jobs m = elim (Bool-cases (leb (length m) max_jobs)) [
  | inl fits ↦ rw fits (inl (leb→le _ _ fits))
  | inr over ↦
      rw over (elim (drop_finished-bounded max_jobs (finished_jobs m) m (finished_jobs-Covered m)) [
        | inl le ↦ inl le
        | inr c ↦ inr (all_running _ c)
      ])
]

-- After a start the registry holds at most `max_jobs` jobs, or every job that it holds is running.
pub start-bounded :
    (now : ℕ) (id kind target label : Str) (r r' : Registry) (j : Job)
    → start now id kind target label r ≡ ok (r', j)
    → (length r'.jobs ≤ r.max_jobs) ⊎ Entries (λ k e. is_running e.job ≡ true) r'.jobs
start-bounded now id kind target label r r' j h =
    subst (λ m. (length m ≤ r.max_jobs) ⊎ Entries (λ k e. is_running e.job ≡ true) m) held
      (evict-bounded r.max_jobs (insert id fresh r.jobs))
  where
    fresh : Entry
    fresh = record { job = new_job now id kind target label; buf = [] }

    held : evict r.max_jobs (insert id fresh r.jobs) ≡ r'.jobs
    held = unfold start in ground arith
