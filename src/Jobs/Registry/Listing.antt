-- ===== src/Jobs/Registry/Listing.antt =====
-- jobs.go: the order of List.
use repo_man.Jobs.Registry.{Job, Entry, Registry, snapshots, started_after, list_jobs}
use repo_man.Base.{
  ◌≡◌, refl, ◌∙◌, Bool, true, List, [], ◌∷◌, arith, Dict, length, keep, sort_by, IsSorted, IsOrder,
  sort_by-IsSorted, keep-sort_by, ap, sym, suc,
}

started_after-IsOrder : IsOrder started_after
started_after-IsOrder = record { asym = λ i j h. ground arith; trans = λ i j k h h'. ground arith }

length-snapshots : (m : Dict Entry) → length (snapshots m) ≡ length m
unfolding snapshots
length-snapshots [] = refl
length-snapshots ((k, e) ∷ m) = ap suc (length-snapshots m)

keep_all : (js : List Job) → length (keep (λ j. true) js) ≡ length js
unfolding keep
keep_all [] = refl
keep_all (j ∷ js) = ap suc (keep_all js)

-- List returns as many jobs as the registry holds, each snapshot as often as it stands there, and
-- none that started after one before it.
pub list_jobs-IsSorted :
    (r : Registry)
    → IsSorted started_after (list_jobs r)
      × (length (list_jobs r) ≡ length r.jobs)
      × ((p : Job → Bool) → length (keep p (list_jobs r)) ≡ length (keep p (snapshots r.jobs)))
unfolding list_jobs
list_jobs-IsSorted r = (
  sort_by-IsSorted started_after started_after-IsOrder (snapshots r.jobs),
  size,
  λ p. keep-sort_by started_after p (snapshots r.jobs),
)
  where
    size : length (sort_by started_after (snapshots r.jobs)) ≡ length r.jobs
    size =
        sym (keep_all (sort_by started_after (snapshots r.jobs)))
        ∙ keep-sort_by started_after (λ j. true) (snapshots r.jobs)
        ∙ keep_all (snapshots r.jobs)
        ∙ length-snapshots r.jobs
