-- ===== src/Scheduler/Jobs/Due.antt =====
-- internal/scheduler/scheduler.go: which jobs `runDueJobs` runs, and what it writes.
use vcdeploy.Prelude.{
  ℕ, ◌≤◌, ◌<◌, String, ◌≡◌, refl, ◌∙◌, ap, true, false, some, List, [], ◌∷◌, ◌++◌, map, arith,
  Bool-cases, Option-cases, inl, inr, if◌then◌else◌, lookup, lookup-adjust, map_some, KeysDiffer,
  adjust-KeysDiffer, listed, listed-keys_where, keys_where-none,
}
use mathlib.Core.List.{append_assoc, append-nil}
use vcdeploy.Scheduler.Cron.{Calendar, CronSchedule, next_cron}
use vcdeploy.Scheduler.Cron.Search.{next_cron_lem}
use vcdeploy.Scheduler.Jobs.{
  Schedule, interval, daily, cron, next, JobEntry, Scheduler, is_due, due_jobs, ran, execute_job,
  execute_all, run_due_jobs,
}

-- Documented of `AddDate`: a later date is a later time, and h:m of the day after the day of `t`
-- comes after `t`.
pub record IsForward (cal : Calendar) : Type 0 where
  pub ten_years_later : (t : ℕ) → t < cal.ten_years t
  pub next_day_later : (t hour minute : ℕ) → t < cal.next_day (cal.at_time t hour minute)

-- An interval is not zero.
abbrev pub IsPositive : Schedule → Type 0
IsPositive (interval d) = 0 < d
IsPositive (daily hour minute) = Unit {0}
IsPositive (cron s) = Unit {0}

next_cron_later :
    (cal : Calendar) (s : CronSchedule) (after : ℕ) → IsForward cal → after < next_cron cal s after
next_cron_later cal s after f = elim (next_cron_lem cal s after) [
  | inl (k, e, near, first) ↦ omega (arith, e)
  | inr (e, never) ↦ omega (arith, e, f.ten_years_later after)
]

-- The next run of a schedule lies after the given time, for a calendar in which later dates are
-- later times and an interval that is not zero.
pub next_later :
    (cal : Calendar) (sched : Schedule) (after : ℕ)
    → IsForward cal
    → IsPositive sched
    → after < next cal sched after
unfolding next
next_later cal (interval d) after f p = omega arith
next_later cal (daily hour minute) after f p = ground (arith, f.next_day_later after hour minute)
next_later cal (cron s) after f p = next_cron_later cal s after f

execute_all-jobs :
    (cal : Calendar) (now : ℕ) (names : List String) (s : Scheduler) (k : String)
    → lookup k (execute_all cal now names s).jobs
      ≡ (if listed k names then map_some (ran cal now) (lookup k s.jobs) else lookup k s.jobs)
unfolding execute_all listed ran
execute_all-jobs cal now [] s k = refl
execute_all-jobs cal now (name ∷ names) s k = ground (
  arith,
  execute_all-jobs cal now names (execute_job cal now name s) k,
  lookup-adjust name k (ran cal now) s.jobs,
)

execute_all-executed :
    (cal : Calendar) (now : ℕ) (names : List String) (s : Scheduler)
    → (execute_all cal now names s).executed ≡ s.executed ++ map (λ k. (k, now)) names
unfolding execute_all
execute_all-executed cal now [] s = rw append-nil
execute_all-executed cal now (name ∷ names) s =
    execute_all-executed cal now names (execute_job cal now name s)
    ∙ append_assoc s.executed ((name, now) ∷ []) (map (λ k. (k, now)) names)

execute_all-KeysDiffer :
    (cal : Calendar) (now : ℕ) (names : List String) (s : Scheduler)
    → KeysDiffer s.jobs
    → KeysDiffer (execute_all cal now names s).jobs
unfolding execute_all
execute_all-KeysDiffer cal now [] s h = h
execute_all-KeysDiffer cal now (name ∷ names) s h =
    execute_all-KeysDiffer cal now names (execute_job cal now name s)
      (adjust-KeysDiffer name (ran cal now) s.jobs h)

-- Enabled, and its next run is not in the future.
abbrev pub IsDue : ℕ → JobEntry → Type 0
IsDue now e = (e.enabled ≡ true) × (e.next_run ≤ now)

is_due-false : (now : ℕ) (e : JobEntry) → ¬ IsDue now e → is_due now e ≡ false
unfolding is_due
is_due-false now e n = elim (Bool-cases (is_due now e)) [
  | inl y ↦ absurd (n (ground arith, ground arith))
  | inr q ↦ q
]

-- A job that has just run is not due.
ran-is_due :
    (cal : Calendar) (now : ℕ) (e : JobEntry)
    → now < next cal e.schedule now
    → is_due now (ran cal now e) ≡ false
unfolding is_due ran
ran-is_due cal now e h = ground arith

run_due_jobs-idle :
    (cal : Calendar) (now : ℕ) (s : Scheduler)
    → KeysDiffer s.jobs
    → ((k : String) (e : JobEntry) → lookup k s.jobs ≡ some e → now < next cal e.schedule now)
    → (k : String) (e : JobEntry) → lookup k (run_due_jobs cal now s).jobs ≡ some e
    → is_due now e ≡ false
unfolding run_due_jobs
run_due_jobs-idle cal now s h on k e found =
    let due = due_jobs now s.jobs in
    let after = execute_all-jobs cal now due s k in
    let collected = listed-keys_where (is_due now) k s.jobs h in
    elim (Option-cases (lookup k s.jobs)) [
      | inl gone ↦ absurd (ground arith)
      | inr (x, there) ↦ elim (Bool-cases (is_due now x)) [
        | inl y ↦
            let same : ran cal now x ≡ e = ground arith in
            rw (← same) (ran-is_due cal now x (on k x there))
        | inr q ↦ let same : x ≡ e = ground arith in rw (← same) q
      ]
    ]

-- The jobs that run are just those that are due, each recorded once with the time; a job that ran
-- has this time as its last run and its schedule's next time after it as its next run; any other
-- is as before.
pub run_due_jobs_lem :
    (cal : Calendar) (now : ℕ) (s : Scheduler)
    → KeysDiffer s.jobs
    → let s' = run_due_jobs cal now s in
      ((k : String) (e : JobEntry)
        → lookup k s.jobs ≡ some e
        → (IsDue now e
            → (lookup k s'.jobs
                ≡ some (record e { last_run = some now; next_run = next cal e.schedule now }))
              × (listed k (due_jobs now s.jobs) ≡ true))
          × (¬ IsDue now e
              → (lookup k s'.jobs ≡ some e) × (listed k (due_jobs now s.jobs) ≡ false)))
      × (s'.executed ≡ s.executed ++ map (λ k. (k, now)) (due_jobs now s.jobs))
unfolding run_due_jobs ran
run_due_jobs_lem cal now s h =
    let due = due_jobs now s.jobs in
    (
      λ k e found. (
        λ d. (
          ground (
            arith,
            d,
            execute_all-jobs cal now due s k,
            listed-keys_where (is_due now) k s.jobs h,
          ),
          ground (arith, d, listed-keys_where (is_due now) k s.jobs h),
        ),
        λ n.
            let not_due : is_due now e ≡ false = is_due-false now e n in
            (
              ground (
                arith,
                execute_all-jobs cal now due s k,
                listed-keys_where (is_due now) k s.jobs h,
              ),
              ground (arith, listed-keys_where (is_due now) k s.jobs h),
            ),
      ),
      execute_all-executed cal now due s,
    )

-- A second look at the same time finds nothing due, where every stored schedule moves on: no job
-- runs twice for one time, and nothing changes.
pub run_due_jobs_once :
    (cal : Calendar) (now : ℕ) (s : Scheduler)
    → KeysDiffer s.jobs
    → IsForward cal
    → ((k : String) (e : JobEntry) → lookup k s.jobs ≡ some e → IsPositive e.schedule)
    → run_due_jobs cal now (run_due_jobs cal now s) ≡ run_due_jobs cal now s
unfolding run_due_jobs execute_all
run_due_jobs_once cal now s h f pos =
    let s' = run_due_jobs cal now s in
    let none_due : due_jobs now s'.jobs ≡ [] =
      keys_where-none (is_due now) s'.jobs
        (execute_all-KeysDiffer cal now (due_jobs now s.jobs) s h)
        (run_due_jobs-idle cal now s h
          (λ k e there. next_later cal e.schedule now f (pos k e there))) in
    ap (λ names. execute_all cal now names s') none_due
