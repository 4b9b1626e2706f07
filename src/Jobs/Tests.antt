-- ===== src/Jobs/Tests.antt =====
-- The theorems on internal/jobs at concrete inputs.
use repo_man.Jobs.Tail.{write_all, flat, tail_of, kept_lines, write_all-tail_of, render, settle}
use repo_man.Jobs.Registry.{
  Job, Entry, Registry, is_running, runs_on, is_busy, evict, new_job, start, snapshot,
}
use repo_man.Jobs.Registry.Exclusive.{
  Call, starts, writes, finishes, expires, run, IsExclusive, run-IsExclusive,
}
use repo_man.Jobs.Registry.Retention.{start-bounded}
use repo_man.Base.{
  ◌≤◌, ◌≡◌, refl, ◌⊎◌, true, List, [], ◌∷◌, none, ok, codes, eqb, insert, length, Entries, keep,
  split, trim_right, last_part,
}

abbrev none_yet : Registry
none_yet = record { ttl = 60; max_jobs = 2; jobs = [] }

abbrev clone_calls : List Call
clone_calls =
    starts 10 (codes "a") (codes "clone") (codes "jo/x") (codes "x")
    ∷ starts 11 (codes "b") (codes "clone") (codes "jo/x") (codes "x")
    ∷ writes (codes "a") (codes "50%")
    ∷ finishes 12 (codes "a") none
    ∷ expires 99
    ∷ []

run-IsExclusive_example : IsExclusive (run clone_calls none_yet)
run-IsExclusive_example = run-IsExclusive clone_calls none_yet refl

-- A registry with one running job.
abbrev cloning : Entry
cloning = record {
  job = new_job 10 (codes "a") (codes "clone") (codes "jo/x") (codes "x");
  buf = [];
}

abbrev one_job : Registry
one_job = record none_yet { jobs = (codes "a", cloning) ∷ [] }

abbrev second_job : Job
second_job = new_job 11 (codes "b") (codes "clone") (codes "jo/y") (codes "y")

abbrev two_jobs : Registry
two_jobs = record none_yet {
  jobs = (codes "a", cloning) ∷ (codes "b", record { job = second_job; buf = [] }) ∷ [];
}

second_start :
    start 11 (codes "b") (codes "clone") (codes "jo/y") (codes "y") one_job
    ≡ ok (two_jobs, second_job)
unfolding start is_busy runs_on is_running eqb evict insert snapshot render kept_lines keep split
    settle trim_right last_part
second_start = refl

start-bounded_example :
    (length two_jobs.jobs ≤ one_job.max_jobs)
    ⊎ Entries (λ k e. is_running e.job ≡ true) two_jobs.jobs
start-bounded_example =
    start-bounded 11 (codes "b") (codes "clone") (codes "jo/y") (codes "y") one_job two_jobs
      second_job second_start

write_all-tail_of_example :
    (write_all 4 [] (codes "abc" ∷ codes "def" ∷ [])
      ≡ tail_of 4 (flat (codes "abc" ∷ codes "def" ∷ [])))
    × (length (write_all 4 [] (codes "abc" ∷ codes "def" ∷ [])) ≤ 4)
write_all-tail_of_example = write_all-tail_of 4 (codes "abc" ∷ codes "def" ∷ [])
