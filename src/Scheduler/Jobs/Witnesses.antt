-- ===== src/Scheduler/Jobs/Witnesses.antt =====
-- Runs of the scheduler, and the theorems at concrete inputs.
use vcdeploy.Prelude.{
  ℕ, ◌+◌, ◌<◌, String, ◌≡◌, refl, true, false, none, some, [], ◌∷◌, ◌++◌, map, arith, lookup,
  KeysDiffer, listed, has_key,
}
use vcdeploy.Scheduler.Cron.{Calendar}
use vcdeploy.Scheduler.Jobs.{
  interval, next, JobEntry, Scheduler, due_jobs, run_due_jobs, start, stop,
}
use vcdeploy.Scheduler.Jobs.Due.{IsForward, IsPositive, IsDue, run_due_jobs_lem}
use vcdeploy.Scheduler.Jobs.Loop.{stop_after_restart}

-- A calendar with days of 24 hours and years of 365 days.
abbrev plain_calendar : Calendar
plain_calendar = record {
  civil = λ t. record { minute = 0; hour = 0; day = 1; month = 1; weekday = 0 };
  at_time = λ t hour minute. t;
  next_day = λ t. t + 86400000000000;
  ten_years = λ t. t + 315360000000000000;
}

IsForward-plain_calendar : IsForward plain_calendar
IsForward-plain_calendar = record {
  ten_years_later = λ t. omega arith;
  next_day_later = λ t hour minute. omega arith;
}

abbrev backup : JobEntry
backup = record {
  name = "backup";
  enabled = true;
  schedule = interval 60;
  last_run = none;
  next_run = 100;
}

abbrev one_job : Scheduler
one_job = record {
  jobs = ("backup", backup) ∷ [];
  running = true;
  stop_closed = false;
  executed = [];
}

one_job-KeysDiffer : KeysDiffer one_job.jobs
unfolding has_key
one_job-KeysDiffer = (refl, tt)

runs_once : (run_due_jobs plain_calendar 120 one_job).executed ≡ ("backup", 120) ∷ []
unfolding run_due_jobs
runs_once = refl

run_due_jobs_lem_example :
    let s' = run_due_jobs plain_calendar 120 one_job in
    ((k : String) (e : JobEntry)
      → lookup k one_job.jobs ≡ some e
      → (IsDue 120 e
          → (lookup k s'.jobs
              ≡ some
                  (record e { last_run = some 120; next_run = next plain_calendar e.schedule 120 }))
            × (listed k (due_jobs 120 one_job.jobs) ≡ true))
        × (¬ IsDue 120 e
            → (lookup k s'.jobs ≡ some e) × (listed k (due_jobs 120 one_job.jobs) ≡ false)))
    × (s'.executed ≡ one_job.executed ++ map (λ k. (k, 120)) (due_jobs 120 one_job.jobs))
run_due_jobs_lem_example = run_due_jobs_lem plain_calendar 120 one_job one_job-KeysDiffer

positive : (k : String) (e : JobEntry) → lookup k one_job.jobs ≡ some e → IsPositive e.schedule
unfolding lookup
positive k e h =
    let same : interval 60 ≡ e.schedule = ground arith in
    rw (← same) (positive_interval 60 (omega arith))
  where
    positive_interval : (d : ℕ) → 0 < d → IsPositive (interval d)
    positive_interval d p = p

stop_after_restart_example :
    (t : Scheduler) × (stop one_job ≡ some t)
    × (t.running ≡ false)
    × (stop t ≡ some t)
    × (stop (start t) ≡ none)
stop_after_restart_example = stop_after_restart one_job refl refl
