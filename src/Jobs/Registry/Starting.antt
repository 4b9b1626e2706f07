-- ===== src/Jobs/Registry/Starting.antt =====
-- jobs.go: what Start returns where it starts a job.
use repo_man.Jobs.Registry.{
  Entry, Job, Busy, Registry, running, is_busy, is_running, new_job, evict, snapshot, start, get,
}
use repo_man.Jobs.Registry.Retention.{evict-running}
use repo_man.Base.{
  ℕ, ◌≡◌, refl, subst, Bool-cases, inl, inr, false, [], some, Str, Result, ok, eqb_refl, lookup,
  insert, lookup-insert, IsDistinct, insert-IsDistinct,
}

-- A job that Start returns: a running one of the drawn id, which the new registry finds.
pub record IsBegun (id place : Str) (r r' : Registry) (j : Job) : Type 0 where
  pub idle : is_busy place r.jobs ≡ false
  pub target : j.target ≡ place
  pub drawn : j.id ≡ id
  pub runs : j.state ≡ running
  pub registered : get id r' ≡ some j

pub start-IsBegun :
    (now : ℕ) (id kind target label : Str) (r r' : Registry) (j : Job)
    → IsDistinct r.jobs
    → start now id kind target label r ≡ ok (r', j)
    → IsBegun id target r r' j
unfolding start snapshot get
start-IsBegun now id kind target label r r' j d h = elim (Bool-cases (is_busy target r.jobs)) [
  | inl y ↦ absurd (cc (rw y at h))
  | inr n ↦
      let q : ◌≡◌ {A = Result Busy (Registry × Job)}
          (ok (record r { jobs = evict r.max_jobs (insert id fresh r.jobs) }, snapshot fresh))
          (ok (r', j)) =
        rw n at h in
      let same : record r { jobs = evict r.max_jobs (insert id fresh r.jobs) } ≡ r' = cc in
      let job : snapshot fresh ≡ j = cc in
      subst (λ x. IsBegun id target r x j) same
        (subst (IsBegun id target r _) job (record {
          idle = n;
          target = refl;
          drawn = refl;
          runs = refl;
          registered = rw (stays, get) refl;
        }))
]
  where
    fresh : Entry
    fresh = record { job = new_job now id kind target label; buf = [] }

    put : lookup id (insert id fresh r.jobs) ≡ some fresh
    put = rw (lookup-insert, eqb_refl id) refl

    stays : lookup id (evict r.max_jobs (insert id fresh r.jobs)) ≡ some fresh
    stays =
        evict-running id r.max_jobs (insert id fresh r.jobs) fresh
          (insert-IsDistinct id fresh r.jobs d) put (unfold is_running in refl)
