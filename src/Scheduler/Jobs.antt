-- ===== src/Scheduler/Jobs.antt =====
-- internal/scheduler/scheduler.go: the scheduler's jobs. What a job does when it runs is not
-- modelled: `executed` lists the runs, each with its time. `Enabled` is a field of the entry.
pub mod Due
pub mod Loop
mod Witnesses
use vcdeploy.Prelude.{
  ℕ, ◌+◌, String, Bool, true, false, ◌&&◌, Option, none, some, List, [], ◌∷◌, ◌++◌, if◌then◌else◌,
  leb, ltb, Table, lookup, insert, delete, adjust, keys_where,
}
use vcdeploy.Scheduler.Cron.{CronSchedule, Calendar, next_cron}

-- The implementations of `Schedule`.
pub data Schedule : Type 0 where
  interval : ℕ → Schedule
  daily : ℕ → ℕ → Schedule
  cron : CronSchedule → Schedule

-- `Next`
unfoldable pub next : Calendar → Schedule → ℕ → ℕ
next cal (interval d) after = after + d
next cal (daily hour minute) after =
    let t = cal.at_time after hour minute in if ltb after t then t else cal.next_day t
next cal (cron s) after = next_cron cal s after

-- `jobEntry`, with what `Name` and `Enabled` of its job answer. A zero `lastRun` is `none`.
pub record JobEntry : Type 0 where
  pub name : String
  pub enabled : Bool
  pub schedule : Schedule
  pub last_run : Option ℕ
  pub next_run : ℕ

-- `stop_closed` says that the channel `stopCh` has been closed.
pub record Scheduler : Type 0 where
  pub jobs : Table JobEntry
  pub running : Bool
  pub stop_closed : Bool
  pub executed : List (String × ℕ)

-- `New`
unfoldable pub new : Scheduler
new = record { jobs = []; running = false; stop_closed = false; executed = [] }

-- `AddJob`: false is the error for a name that exists.
unfoldable pub add_job : Calendar → ℕ → String → Bool → Schedule → Scheduler → Scheduler × Bool
unfolding next
add_job cal now name enabled schedule s = elim (lookup name s.jobs) [
  | some _ ↦ (s, false)
  | none ↦
      let entry : JobEntry = record {
        name = name;
        enabled = enabled;
        schedule = schedule;
        last_run = none;
        next_run = next cal schedule now;
      } in
      (record s { jobs = insert name entry s.jobs }, true)
]

-- `RemoveJob`
unfoldable pub remove_job : String → Scheduler → Scheduler
remove_job name s = record s { jobs = delete name s.jobs }

-- `Start`
unfoldable pub start : Scheduler → Scheduler
start s = if s.running then s else record s { running = true }

-- `Stop`: `none` is the panic of closing a channel that is closed.
unfoldable pub stop : Scheduler → Option Scheduler
stop s =
    if s.running
    then if s.stop_closed then none else some (record s { running = false; stop_closed = true })
    else some s

-- The test of `runDueJobs`.
unfoldable pub is_due : ℕ → JobEntry → Bool
is_due now e = e.enabled && leb e.next_run now

-- Its first loop.
unfoldable pub due_jobs : ℕ → Table JobEntry → List String
unfolding is_due keys_where
due_jobs now = keys_where (is_due now)

-- What `executeJob` writes into the entry.
unfoldable pub ran : Calendar → ℕ → JobEntry → JobEntry
ran cal now e = record e { last_run = some now; next_run = next cal e.schedule now }

-- `executeJob`; an error of the job is only logged.
unfoldable pub execute_job : Calendar → ℕ → String → Scheduler → Scheduler
unfolding ran next
execute_job cal now name s = record s {
  jobs = adjust name (ran cal now) s.jobs;
  executed = s.executed ++ (name, now) ∷ [];
}

-- Its second loop.
unfoldable pub execute_all : Calendar → ℕ → List String → Scheduler → Scheduler
unfolding execute_job
execute_all cal now [] s = s
execute_all cal now (name ∷ names) s = execute_all cal now names (execute_job cal now name s)

-- `runDueJobs`, with the entries under their jobs' names.
unfoldable pub run_due_jobs : Calendar → ℕ → Scheduler → Scheduler
unfolding due_jobs execute_all
run_due_jobs cal now s = execute_all cal now (due_jobs now s.jobs) s

-- `RunJobNow`: false is the error for a name that does not exist. The entry is not changed.
unfoldable pub run_job_now : ℕ → String → Scheduler → Scheduler × Bool
run_job_now now name s = elim (lookup name s.jobs) [
  | none ↦ (s, false)
  | some _ ↦ (record s { executed = s.executed ++ (name, now) ∷ [] }, true)
]

pub record JobStatus : Type 0 where
  pub name : String
  pub enabled : Bool
  pub last_run : Option ℕ
  pub next_run : ℕ

-- `GetJobStatus`
unfoldable pub get_job_status : Table JobEntry → Table JobStatus
get_job_status [] = []
get_job_status ((k, e) ∷ m) =
    insert k
      (record { name = k; enabled = e.enabled; last_run = e.last_run; next_run = e.next_run })
      (get_job_status m)
