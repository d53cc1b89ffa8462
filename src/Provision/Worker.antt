-- ===== src/Provision/Worker.antt =====
-- internal/provision/worker.go, over the jobs of internal/storage/memory_misc.go. Identifiers and times
-- are arguments; a call of `SSHProvision` is a function to its error, if any. Logs are left out.
-- Identifiers are of ASCII characters, each of which is one byte.
pub mod Polls
pub mod Runs
pub mod Twice
mod Witnesses
use vcdeploy.Prelude.{
  ℕ, ◌<◌, String, Bool, true, false, not, ◌||◌, Option, none, some, List, [], ◌∷◌, ◌++◌, Table,
  lookup, insert, delete, adjust, has_key, if◌then◌else◌, str_eq, ltb, length, Text, codes, take,
}

-- `storage.ProvisionJob`, the fields that the worker reads or writes.
pub record ProvisionJob : Type 0 where
  pub id : String
  pub target_host : String
  pub target_port : ℕ
  pub target_user : String
  pub status : String
  pub stage : String
  pub progress : ℕ
  pub error_message : String
  pub started_at : ℕ
  pub completed_at : Option ℕ

-- `SSHProvisionRequest`, the fields that the worker sets.
pub record SshProvisionRequest : Type 0 where
  pub agent_id : Text
  pub target_host : String
  pub target_port : ℕ
  pub ssh_user : String

pub data WorkerError : Type 0 where
  is_shut_down save_job timed_out : WorkerError

-- `Worker`, with the store's jobs and the requests that the provisioner got, the latest last.
pub record Worker : Type 0 where
  pub jobs : Table ProvisionJob
  pub queue : List String
  pub capacity : ℕ
  pub is_shutdown : Bool
  pub poll_running : Table (Unit {0})
  pub provisioned : List SshProvisionRequest

abbrev pub is_terminal : String → Bool
is_terminal status =
    str_eq status "completed" || str_eq status "failed" || str_eq status "cancelled"

-- `UpdateProvisionJobStatus` of the store.
unfoldable pub update_job_status :
    ℕ → String → String → String → String → ℕ → Table ProvisionJob → Table ProvisionJob
unfolding adjust
update_job_status now id status stage message progress jobs =
    adjust id
      (λ job. record job {
        status = status;
        stage = stage;
        error_message = message;
        progress = progress;
        completed_at = if is_terminal status then some now else job.completed_at;
      })
      jobs

-- The record of a new job.
abbrev pub queued_job : String → ℕ → SshProvisionRequest → ProvisionJob
queued_job id now req = record {
  id = id;
  target_host = req.target_host;
  target_port = req.target_port;
  target_user = req.ssh_user;
  status = "pending";
  stage = "queued";
  progress = 0;
  error_message = "";
  started_at = now;
  completed_at = none;
}

-- `Submit`; where the queue is full, it waits until the context ends.
unfoldable pub submit : String → ℕ → SshProvisionRequest → Worker → Option WorkerError × Worker
unfolding has_key insert
submit id now req w =
    let stored = record w { jobs = insert id (queued_job id now req) w.jobs } in
    if w.is_shutdown
    then (some is_shut_down, w)
    else if has_key id w.jobs
    then (some save_job, w)
    else if ltb (length w.queue) w.capacity
    then (none, record stored { queue = w.queue ++ id ∷ [] })
    else (some timed_out, stored)

-- `ListPendingProvisionJobs` of the store.
unfoldable pub list_pending : Table ProvisionJob → List ProvisionJob
list_pending [] = []
list_pending ((id, job) ∷ jobs) =
    let rest = list_pending jobs in
    if str_eq job.status "pending" || str_eq job.status "in_progress" then job ∷ rest else rest

-- One round of the loop of `pollOnce`.
unfoldable pub poll_job : ProvisionJob → Worker → Worker
unfolding has_key insert delete
poll_job job w =
    let marked = record w { poll_running = insert job.id tt w.poll_running } in
    if has_key job.id w.poll_running
    then w
    else if ltb (length w.queue) w.capacity
    then record marked { queue = w.queue ++ job.id ∷ [] }
    else record marked { poll_running = delete job.id marked.poll_running }

unfoldable pub poll_jobs : List ProvisionJob → Worker → Worker
unfolding poll_job
poll_jobs [] w = w
poll_jobs (job ∷ jobs) w = poll_jobs jobs (poll_job job w)

-- `pollOnce`, where the store lists its jobs.
unfoldable pub poll_once : Worker → Worker
unfolding poll_jobs list_pending
poll_once w = poll_jobs (list_pending w.jobs) w

-- The request of `runJob`, where the identifier has eight characters for `jobID[:8]`.
unfoldable pub request_of : String → ProvisionJob → SshProvisionRequest
request_of id job = record {
  agent_id = codes "agent-" ++ take 8 (codes id);
  target_host = job.target_host;
  target_port = job.target_port;
  ssh_user = job.target_user;
}

-- The end of `runJob`, by the outcome of the provisioner.
unfoldable pub conclude_job : ℕ → String → Option String → Worker → Worker
unfolding update_job_status
conclude_job now id none w =
    let verifying = update_job_status now id "running" "verifying" "" 80 w.jobs in
    let complete = update_job_status now id "running" "complete" "" 100 verifying in
    record w { jobs = update_job_status now id "completed" "done" "" 100 complete }
conclude_job now id (some message) w = record w {
  jobs = update_job_status now id "failed" "error" message 100 w.jobs;
}

abbrev pub unmark : String → Worker → Worker
unmark id w = record w { poll_running = delete id w.poll_running }

-- `SSHProvisioner`, which may be missing.
abbrev pub Provisioner : Type 0
Provisioner = Option (SshProvisionRequest → Option String)

-- `provisionWithLogging` after the first callback: the error, and what the provisioner and the second
-- callback have done.
unfoldable pub attempt : ℕ → String → ProvisionJob → Provisioner → Worker → Option String × Worker
unfolding update_job_status request_of
attempt now id job none w = (some "SSH provisioner not configured", w)
attempt now id job (some ssh_provision) w = (
  ssh_provision (request_of id job),
  record w {
    jobs = update_job_status now id "running" "provisioning" "" 30 w.jobs;
    provisioned = w.provisioned ++ request_of id job ∷ [];
  },
)

-- How a run ends: `runJob` returns, or it panics, which ends the program.
pub data JobEnd : Type 0 where
  returned : Worker → JobEnd
  panicked : Worker → JobEnd

-- The deferred function of `runJob`, which runs in both cases.
abbrev pub unmark_at_end : String → JobEnd → JobEnd
unmark_at_end id (returned w) = returned (unmark id w)
unmark_at_end id (panicked w) = panicked (unmark id w)

module _ (provisioner : Provisioner) where
  -- The calls that `runJob` makes for a job it has found; `jobID[:8]` panics for a shorter identifier.
  unfoldable pub provision : ℕ → String → ProvisionJob → Worker → JobEnd
  unfolding conclude_job update_job_status attempt
  provision now id job w =
      let started = update_job_status now id "running" "starting" "" 5 w.jobs in
      let connecting = update_job_status now id "running" "connecting" "" 10 started in
      let (error, w') = attempt now id job provisioner (record w { jobs = connecting }) in
      if ltb (length (codes id)) 8
      then panicked (record w { jobs = started })
      else returned (conclude_job now id error w')

  -- `runJob`
  unfoldable pub run_job : ℕ → String → Worker → JobEnd
  unfolding lookup delete provision
  run_job now id w =
      unmark_at_end id
        (elim (lookup id w.jobs) [ none ↦ returned w | some job ↦ provision now id job w ])

  -- A worker goroutine takes the next job.
  unfoldable pub work : ℕ → Worker → JobEnd
  unfolding run_job
  work now w = elim w.queue [
    | [] ↦ returned w
    | id ∷ rest ↦ run_job now id (record w { queue = rest })
  ]
