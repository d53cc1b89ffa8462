-- ===== src/Provision/Worker/Runs.antt =====
-- internal/provision/worker.go: what the run of a job does, and how often a job is run.
use vcdeploy.Prelude.{
  ℕ, String, ◌≡◌, refl, sym, ap, ◌∙◌, false, Option, none, some, List, [], ◌∷◌, ◌++◌, inl, inr,
  Option-cases, arith, Table, lookup, has_key, has_key-delete_other, lookup-adjust, map_some,
  if◌then◌else◌, str_eq, eq_iff, ◌≤◌, length, ltb, codes, take,
}
use mathlib.Core.List.{append-nil}
use vcdeploy.Provision.Worker.{
  ProvisionJob, SshProvisionRequest, Worker, Provisioner, update_job_status, request_of, attempt,
  conclude_job, provision, run_job, is_terminal, returned, unmark, unmark_at_end,
}

-- A job after its run, by the provisioner's error.
abbrev pub concluded : ℕ → Option String → ProvisionJob → ProvisionJob
concluded now none job = record job {
  status = "completed";
  stage = "done";
  progress = 100;
  error_message = "";
  completed_at = some now;
}
concluded now (some message) job = record job {
  status = "failed";
  stage = "error";
  progress = 100;
  error_message = message;
  completed_at = some now;
}

-- The request for a job, field by field.
abbrev pub request_for : String → ProvisionJob → SshProvisionRequest
request_for id job = record {
  agent_id = codes "agent-" ++ take 8 (codes id);
  target_host = job.target_host;
  target_port = job.target_port;
  ssh_user = job.target_user;
}

-- The error of a run, and the requests that it makes.
abbrev pub error_of : Provisioner → String → ProvisionJob → Option String
error_of none id job = some "SSH provisioner not configured"
error_of (some ssh_provision) id job = ssh_provision (request_for id job)

abbrev pub requests_of : Provisioner → String → ProvisionJob → List SshProvisionRequest
requests_of none id job = []
requests_of (some ssh_provision) id job = request_for id job ∷ []

-- What a run makes of a worker whose store has the job.
pub record HasRun (provisioner : Provisioner) (now : ℕ) (id : String) (job : ProvisionJob)
    (w w' : Worker) : Type 0 where
  pub at_end : lookup id w'.jobs ≡ some (concluded now (error_of provisioner id job) job)
  pub others : (j : String) → str_eq id j ≡ false → lookup j w'.jobs ≡ lookup j w.jobs
  pub requested : w'.provisioned ≡ w.provisioned ++ requests_of provisioner id job
  pub unmarked : has_key id w'.poll_running ≡ false
  pub same_queue : w'.queue ≡ w.queue

abbrev changed : ℕ → String → String → String → ℕ → ProvisionJob → ProvisionJob
changed now status stage message progress job = record job {
  status = status;
  stage = stage;
  error_message = message;
  progress = progress;
  completed_at = if is_terminal status then some now else job.completed_at;
}

module _ (now : ℕ) (id : String) where
  update_job_status-others :
      (j status stage message : String) (progress : ℕ) (jobs : Table ProvisionJob)
      → str_eq id j ≡ false
      → lookup j (update_job_status now id status stage message progress jobs) ≡ lookup j jobs
  unfolding update_job_status
  update_job_status-others j status stage message progress jobs e =
      ground (arith, lookup-adjust id j (changed now status stage message progress) jobs)

  update_job_status-here :
      (status stage message : String) (progress : ℕ) (jobs : Table ProvisionJob)
      (job : ProvisionJob)
      → lookup id jobs ≡ some job
      → lookup id (update_job_status now id status stage message progress jobs)
        ≡ some (changed now status stage message progress job)
  unfolding update_job_status
  update_job_status-here status stage message progress jobs job e =
      lookup-adjust id id (changed now status stage message progress) jobs
      ∙ ap
          (λ b.
            if b
            then map_some (changed now status stage message progress) (lookup id jobs)
            else lookup id jobs)
          ((eq_iff id id).1 refl)
      ∙ ap (map_some (changed now status stage message progress)) e

  -- The jobs at the end of a run.
  conclude_job-here :
      (error : Option String) (w : Worker) (job : ProvisionJob)
      → lookup id w.jobs ≡ some job
      → lookup id (conclude_job now id error w).jobs ≡ some (concluded now error job)
  unfolding conclude_job
  conclude_job-here none w job e = update_job_status-here "completed" "done" "" 100 _ _ (
      update_job_status-here "running" "complete" "" 100 _ _
        (update_job_status-here "running" "verifying" "" 80 w.jobs job e))
  conclude_job-here (some message) w job e =
      update_job_status-here "failed" "error" message 100 w.jobs job e

  conclude_job-others :
      (error : Option String) (w : Worker) (j : String)
      → str_eq id j ≡ false
      → lookup j (conclude_job now id error w).jobs ≡ lookup j w.jobs
  unfolding conclude_job
  conclude_job-others none w j e =
      update_job_status-others j "completed" "done" "" 100 _ e
      ∙ update_job_status-others j "running" "complete" "" 100 _ e
      ∙ update_job_status-others j "running" "verifying" "" 80 w.jobs e
  conclude_job-others (some message) w j e =
      update_job_status-others j "failed" "error" message 100 w.jobs e

  abbrev connected : Worker → Worker
  connected w = record w {
    jobs =
        update_job_status now id "running" "connecting" "" 10
          (update_job_status now id "running" "starting" "" 5 w.jobs);
  }

  -- The worker that a run leaves, for an identifier that is long enough.
  abbrev finished : Provisioner → Worker → ProvisionJob → Worker
  finished provisioner w job =
      let (error, w') = attempt now id job provisioner (connected w) in conclude_job now id error w'

  finished_here :
      (provisioner : Provisioner) (w : Worker) (job : ProvisionJob)
      → lookup id w.jobs ≡ some job
      → lookup id (finished provisioner w job).jobs
        ≡ some (concluded now (error_of provisioner id job) job)
  unfolding attempt request_of
  finished_here none w job e =
      conclude_job-here (some "SSH provisioner not configured") (connected w) _ (
        update_job_status-here "running" "connecting" "" 10 _ _
          (update_job_status-here "running" "starting" "" 5 w.jobs job e))
  finished_here (some ssh_provision) w job e =
      conclude_job-here (ssh_provision (request_for id job)) _ _ (
        update_job_status-here "running" "provisioning" "" 30 _ _ (
          update_job_status-here "running" "connecting" "" 10 _ _
            (update_job_status-here "running" "starting" "" 5 w.jobs job e)))
      ∙ ap (λ j. some j) (same_end (ssh_provision (request_for id job)))
    where
      same_end :
          (error : Option String)
          → concluded now error (
              changed now "running" "provisioning" "" 30 (
                changed now "running" "connecting" "" 10
                  (changed now "running" "starting" "" 5 job)))
            ≡ concluded now error job
      same_end none = refl
      same_end (some message) = refl

  finished_others :
      (provisioner : Provisioner) (w : Worker) (job : ProvisionJob) (j : String)
      → str_eq id j ≡ false
      → lookup j (finished provisioner w job).jobs ≡ lookup j w.jobs
  unfolding attempt request_of
  finished_others none w job j e =
      conclude_job-others (some "SSH provisioner not configured") (connected w) j e
      ∙ update_job_status-others j "running" "connecting" "" 10 _ e
      ∙ update_job_status-others j "running" "starting" "" 5 w.jobs e
  finished_others (some ssh_provision) w job j e =
      conclude_job-others (ssh_provision (request_for id job)) _ j e
      ∙ update_job_status-others j "running" "provisioning" "" 30 _ e
      ∙ update_job_status-others j "running" "connecting" "" 10 _ e
      ∙ update_job_status-others j "running" "starting" "" 5 w.jobs e

  finished_rest :
      (provisioner : Provisioner) (w : Worker) (job : ProvisionJob)
      → ((finished provisioner w job).queue ≡ w.queue)
        × ((finished provisioner w job).provisioned
            ≡ w.provisioned ++ requests_of provisioner id job)
  unfolding attempt request_of conclude_job
  finished_rest none w job = (refl, sym (append-nil w.provisioned))
  finished_rest (some ssh_provision) w job =
      elim (Option-cases (ssh_provision (request_for id job))) [
        | inl e ↦ rw e (refl, refl)
        | inr (m, e) ↦ rw e (refl, refl)
      ]

  provision-returned :
      (provisioner : Provisioner) (w : Worker) (job : ProvisionJob)
      → 8 ≤ length (codes id)
      → provision provisioner now id job w ≡ returned (finished provisioner w job)
  unfolding provision
  provision-returned provisioner w job long =
      let enough : ltb (length (codes id)) 8 ≡ false = ground (arith, long) in rw enough refl

  -- The run of a stored job whose identifier has eight characters at least: it returns. With a
  -- provisioner it makes just one request, for the job's host, port and user and an agent named by the
  -- first eight characters of the identifier, and the job is completed, or failed with the
  -- provisioner's error, at full progress and with the time; without one it makes none, and the job is
  -- failed. Other jobs and the queue are as before, and the job is not marked any more.
  pub run_job_lem :
      (provisioner : Provisioner) (w : Worker) (job : ProvisionJob)
      → lookup id w.jobs ≡ some job
      → 8 ≤ length (codes id)
      → (w' : Worker) × (run_job provisioner now id w ≡ returned w')
        × HasRun provisioner now id job w w'
  unfolding run_job
  run_job_lem provisioner w job e long =
      let rest = finished_rest provisioner w job in
      (
        unmark id (finished provisioner w job),
        rw (e, run_job) (ap (unmark_at_end id) (provision-returned provisioner w job long)),
        record {
          at_end = finished_here provisioner w job e;
          others = finished_others provisioner w job;
          requested = rest.1;
          unmarked = ground (
            arith,
            has_key-delete_other id id (finished provisioner w job).poll_running,
            eq_iff id id,
          );
          same_queue = rest.0;
        },
      )
