-- ===== src/Jobs/Registry/Exclusive.antt =====
-- jobs.go: no two jobs run for one target.
use repo_man.Jobs.Registry.{
  Job, Entry, Registry, Busy, busy, is_running, runs_on, is_busy, drop_finished, evict, new_job,
  start, write_output, end_job, finish, is_expired, expire, finished_jobs, active, find_active,
}
use repo_man.Jobs.Tail.{max_output, write}
use repo_man.Base.{
  ℕ, suc, ◌≤◌, ◌≡◌, refl, ◌≢◌, ◌↔◌, Bool, true, false, not, List, [], ◌∷◌, Option, none, some,
  arith, Str, Dict, Result, ok, err, eqb, eqb→eq, subst, ◌∙◌, lookup, insert, delete, retain,
  if◌then◌else◌, Option-cases, Bool-cases, inl, inr,
}

-- How many jobs of the map run for a target.
unfoldable pub count_on : Str → Dict Entry → ℕ
count_on target [] = 0
count_on target ((k, e) ∷ m) =
    if runs_on target e then suc (count_on target m) else count_on target m

is_busy-false : (t : Str) (m : Dict Entry) → is_busy t m ≡ false → count_on t m ≡ 0
unfolding is_busy count_on
is_busy-false t [] h = refl
is_busy-false t ((k, e) ∷ m) h = ground (arith, is_busy-false t m)

count_on-delete : (t k : Str) (m : Dict Entry) → count_on t (delete k m) ≤ count_on t m
unfolding count_on delete
count_on-delete t k [] = omega arith
count_on-delete t k ((j, e) ∷ m) = ground (arith, count_on-delete t k m)

count_on-retain :
    (t : Str) (p : Entry → Bool) (m : Dict Entry) → count_on t (retain p m) ≤ count_on t m
unfolding count_on retain
count_on-retain t p [] = omega arith
count_on-retain t p ((j, e) ∷ m) = ground (arith, count_on-retain t p m)

count_on-insert_idle :
    (t k : Str) (e : Entry) (m : Dict Entry)
    → runs_on t e ≡ false
    → count_on t (insert k e m) ≤ count_on t m
unfolding count_on insert
count_on-insert_idle t k e [] h = ground arith
count_on-insert_idle t k e ((j, w) ∷ m) h = ground (arith, count_on-insert_idle t k e m h)

count_on-insert-le :
    (t k : Str) (e : Entry) (m : Dict Entry) → count_on t (insert k e m) ≤ suc (count_on t m)
unfolding count_on insert
count_on-insert-le t k e [] = ground arith
count_on-insert-le t k e ((j, w) ∷ m) = ground (arith, count_on-insert-le t k e m)

-- A job is replaced by one that runs for the target only if it did.
count_on-replace :
    (t k : Str) (old new : Entry) (m : Dict Entry)
    → lookup k m ≡ some old
    → (runs_on t new ≡ true → runs_on t old ≡ true)
    → count_on t (insert k new m) ≤ count_on t m
unfolding count_on insert lookup
count_on-replace t k old new [] e h = cc
count_on-replace t k old new ((j, w) ∷ m) e h = elim (Bool-cases (eqb j k)) [
  | inl s ↦ let q : some w ≡ some old = rw s at e in rw s (ground (arith, h))
  | inr s ↦
      let q : lookup k m ≡ some old = rw s at e in
      rw s (ground (arith, count_on-replace t k old new m q h))
]

count_on-drop_finished :
    (t : Str) (max_jobs : ℕ) (fs : List (Str × ℕ)) (m : Dict Entry)
    → count_on t (drop_finished max_jobs fs m) ≤ count_on t m
unfolding drop_finished
count_on-drop_finished t max_jobs [] m = omega arith
count_on-drop_finished t max_jobs (f ∷ fs) m =
    ground (arith, count_on-delete t f.0 m, count_on-drop_finished t max_jobs fs (delete f.0 m))

count_on-evict :
    (t : Str) (max_jobs : ℕ) (m : Dict Entry) → count_on t (evict max_jobs m) ≤ count_on t m
unfolding evict
count_on-evict t max_jobs m = ground (arith, count_on-drop_finished t max_jobs (finished_jobs m) m)

-- The calls that change the registry.
pub data Call : Type 0 where
  starts : ℕ → Str → Str → Str → Str → Call
  writes : Str → List ℕ → Call
  finishes : ℕ → Str → Option Str → Call
  expires : ℕ → Call

abbrev after_start : Registry → Result Busy (Registry × Job) → Registry
after_start r (ok (r', j)) = r'
after_start r (err e) = r

unfoldable pub step : Call → Registry → Registry
step (starts now id kind target label) r = after_start r (start now id kind target label r)
step (writes id p) r = write_output id p r
step (finishes now id error) r = finish now id error r
step (expires now) r = expire now r

unfoldable pub run : List Call → Registry → Registry
unfolding step
run [] r = r
run (c ∷ cs) r = run cs (step c r)

abbrev pub IsExclusive : Registry → Type 0
IsExclusive r = (target : Str) → count_on target r.jobs ≤ 1

runs_on-new :
    (t now_target : Str) (now : ℕ) (id kind label : Str)
    → runs_on t (record { job = new_job now id kind now_target label; buf = [] }) ≡ eqb now_target t
unfolding runs_on is_running
runs_on-new t now_target now id kind label = refl

start-IsExclusive :
    (now : ℕ) (id kind target label : Str) (r : Registry)
    → IsExclusive r
    → IsExclusive (after_start r (start now id kind target label r))
unfolding start
start-IsExclusive now id kind target label r x t = elim (Bool-cases (is_busy target r.jobs)) [
  | inl b ↦ rw (b, start) (x t)
  | inr b ↦
      let e : Entry = record { job = new_job now id kind target label; buf = [] } in
      let s = count_on-evict t r.max_jobs (insert id e r.jobs) in
      rw (b, start)
        (elim (Bool-cases (eqb target t)) [
          | inl same ↦
              let z = is_busy-false target r.jobs b in
              omega (
                arith,
                s,
                count_on-insert-le t id e r.jobs,
                subst (λ (u : Str). count_on u r.jobs ≡ 0) (eqb→eq target t same) z,
              )
          | inr other ↦ omega (
            arith,
            s,
            x t,
            count_on-insert_idle t id e r.jobs (runs_on-new t target now id kind label ∙ other),
          )
        ])
]

runs_on-buf :
    (t : Str) (e : Entry) (b : List ℕ)
    → runs_on t (record e { buf = b }) ≡ true
    → runs_on t e ≡ true
unfolding runs_on
runs_on-buf t e b h = h

write_output-IsExclusive :
    (id : Str) (p : List ℕ) (r : Registry) → IsExclusive r → IsExclusive (write_output id p r)
unfolding write_output
write_output-IsExclusive id p r x t = elim (Option-cases (lookup id r.jobs)) [
  | inl e ↦ rw (e, write_output) (x t)
  | inr (old, e) ↦
      rw (e, write_output)
        (omega (
          arith,
          x t,
          count_on-replace t id old (record old { buf = write max_output old.buf p }) r.jobs e
              (runs_on-buf t old _),
        ))
]

finish-IsExclusive :
    (now : ℕ) (id : Str) (error : Option Str) (r : Registry)
    → IsExclusive r
    → IsExclusive (finish now id error r)
unfolding finish
finish-IsExclusive now id error r x t = elim (Option-cases (lookup id r.jobs)) [
  | inl e ↦ rw (e, finish) (x t)
  | inr (old, e) ↦
      rw (e, finish)
        (omega
          (arith, x t, count_on-insert_idle t id (end_job now error old) r.jobs (ended error old)))
]
  where
    ended : (error : Option Str) (old : Entry) → runs_on t (end_job now error old) ≡ false
    ended none old = unfold runs_on is_running end_job in refl
    ended (some msg) old = unfold runs_on is_running end_job in refl

-- Every call keeps the registry exclusive.
step-IsExclusive : (c : Call) (r : Registry) → IsExclusive r → IsExclusive (step c r)
unfolding step
step-IsExclusive (starts now id kind target label) r x =
    start-IsExclusive now id kind target label r x
step-IsExclusive (writes id p) r x = write_output-IsExclusive id p r x
step-IsExclusive (finishes now id error) r x = finish-IsExclusive now id error r x
step-IsExclusive (expires now) r x =
    unfold expire in
    λ t. omega (arith, x t, count_on-retain t (λ e. not (is_expired r.ttl now e)) r.jobs)

all_calls : (cs : List Call) (r : Registry) → IsExclusive r → IsExclusive (run cs r)
unfolding run
all_calls [] r x = x
all_calls (c ∷ cs) r x = all_calls cs (step c r) (step-IsExclusive c r x)

none_running : (t : Str) → count_on t [] ≤ 1
unfolding count_on
none_running t = omega arith

-- After any history of calls, from a registry without jobs, at most one job runs for each target.
pub run-IsExclusive : (cs : List Call) (r : Registry) → r.jobs ≡ [] → IsExclusive (run cs r)
run-IsExclusive cs r e = all_calls cs r (λ t. rw e (none_running t))

find_active-busy : (t : Str) (m : Dict Entry) → is_busy t m ≡ true → find_active t m ≢ none
unfolding is_busy find_active
find_active-busy t [] h n = cc
find_active-busy t ((k, e) ∷ m) h n = ground (arith, find_active-busy t m)

find_active-idle : (t : Str) (m : Dict Entry) → is_busy t m ≡ false → find_active t m ≡ none
unfolding is_busy find_active
find_active-idle t [] h = refl
find_active-idle t ((k, e) ∷ m) h = ground (arith, find_active-idle t m)

not_started :
    (now : ℕ) (id kind target label : Str) (r : Registry)
    → is_busy target r.jobs ≡ false
    → start now id kind target label r ≢ err busy
unfolding start
not_started now id kind target label r b h = ground arith

-- A start is refused exactly when `Active` finds a job for the target.
pub start-busy :
    (now : ℕ) (id kind target label : Str) (r : Registry)
    → (start now id kind target label r ≡ err busy) ↔ (active target r ≢ none)
start-busy now id kind target label r = (refused, found)
  where
    refused : start now id kind target label r ≡ err busy → active target r ≢ none
    refused h n = elim (Bool-cases (is_busy target r.jobs)) [
      | inl b ↦ find_active-busy target r.jobs b (unfold active in n)
      | inr b ↦ not_started now id kind target label r b h
    ]

    found : active target r ≢ none → start now id kind target label r ≡ err busy
    found h = elim (Bool-cases (is_busy target r.jobs)) [
      | inl b ↦ unfold start in rw (b, start)
      | inr b ↦ absurd (h (unfold active in find_active-idle target r.jobs b))
    ]
