-- ===== src/Scheduler/Jobs/Loop.antt =====
-- internal/scheduler/scheduler.go: adding and removing jobs, and `Start` and `Stop`.
use vcdeploy.Prelude.{
  ℕ, String, ◌≡◌, refl, ◌↔◌, Bool, true, false, none, some, arith, str_eq, eq_iff, lookup,
  lookup-insert, lookup-delete,
}
use vcdeploy.Scheduler.Cron.{Calendar}
use vcdeploy.Scheduler.Jobs.{Schedule, next, JobEntry, Scheduler, add_job, remove_job, start, stop}

-- `AddJob` succeeds exactly for a name that has no job. Then the job is stored, to run next at its
-- schedule's next time, having never run; otherwise nothing changes. Other jobs stay as they are.
pub add_job_lem :
    (cal : Calendar) (now : ℕ) (name : String) (enabled : Bool) (sched : Schedule) (s : Scheduler)
    → let (s', done) = add_job cal now name enabled sched s in
      ((done ≡ true) ↔ (lookup name s.jobs ≡ none))
      × (done ≡ false → s' ≡ s)
      × (done ≡ true
          → lookup name s'.jobs
            ≡ some (record {
              name = name;
              enabled = enabled;
              schedule = sched;
              last_run = none;
              next_run = next cal sched now;
            }))
      × ((k : String) → str_eq name k ≡ false → lookup k s'.jobs ≡ lookup k s.jobs)
unfolding add_job
add_job_lem cal now name enabled sched s =
    let entry : JobEntry = record {
      name = name;
      enabled = enabled;
      schedule = sched;
      last_run = none;
      next_run = next cal sched now;
    } in
    (
      ((λ h. ground arith), (λ h. ground arith)),
      (λ h. ground arith),
      (λ h. ground (arith, lookup-insert name name entry s.jobs, eq_iff name name)),
      λ k ne. ground (arith, lookup-insert name k entry s.jobs),
    )

-- A job that is removed can be added again: after `RemoveJob`, `AddJob` of the name succeeds.
pub add_job-remove_job :
    (cal : Calendar) (now : ℕ) (name : String) (enabled : Bool) (sched : Schedule) (s : Scheduler)
    → (add_job cal now name enabled sched (remove_job name s)).1 ≡ true
unfolding add_job remove_job
add_job-remove_job cal now name enabled sched s =
    ground (arith, lookup-delete name name s.jobs, eq_iff name name)

-- The first stop of a running scheduler succeeds, a second one changes nothing; but a scheduler that
-- was stopped and started again panics when it is stopped.
pub stop_after_restart :
    (s : Scheduler)
    → s.running ≡ true
    → s.stop_closed ≡ false
    → (t : Scheduler) × (stop s ≡ some t)
      × (t.running ≡ false)
      × (stop t ≡ some t)
      × (stop (start t) ≡ none)
unfolding stop start
stop_after_restart s r c =
    (record s { running = false; stop_closed = true }, ground arith, refl, refl, refl)
