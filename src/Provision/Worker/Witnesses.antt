-- ===== src/Provision/Worker/Witnesses.antt =====
-- Runs of the provisioning worker, and the theorems at concrete inputs.
use vcdeploy.Prelude.{
  ◌≡◌, refl, true, false, none, some, [], ◌∷◌, List, codes, arith, lookup, has_key,
}
use vcdeploy.Provision.Worker.{
  SshProvisionRequest, Worker, Provisioner, is_shut_down, submit, queued_job, list_pending,
  poll_once, run_job, work, JobEnd, returned, panicked,
}
use vcdeploy.Provision.Worker.Polls.{Polled, poll_once_lem}
use vcdeploy.Provision.Worker.Runs.{HasRun, run_job_lem}
use vcdeploy.Provision.Worker.Twice.{queued_twice}

abbrev host : SshProvisionRequest
host = record { agent_id = []; target_host = "web1"; target_port = 22; ssh_user = "root" }

abbrev idle : Worker
idle = record {
  jobs = [];
  queue = [];
  capacity = 100;
  is_shutdown = false;
  poll_running = [];
  provisioned = [];
}

abbrev with_job : Worker
with_job = record idle {
  jobs = ("ch7k2m9v0001d3q5r8t0", queued_job "ch7k2m9v0001d3q5r8t0" 5 host) ∷ [];
}

abbrev working : Provisioner
working = some (λ req. none)

abbrev requested : SshProvisionRequest
requested = record host { agent_id = codes "agent-ch7k2m9v" }

-- The requests after two jobs of the queue, if no run panics.
abbrev requests_after : JobEnd → List SshProvisionRequest
requests_after (returned w) = w.provisioned
requests_after (panicked w) = []

abbrev again : JobEnd → JobEnd
again (returned w) = work working 9 w
again (panicked w) = panicked w

-- The job that was submitted once is provisioned twice.
provisioned_twice :
    requests_after
      (again (work working 8 (poll_once (submit "ch7k2m9v0001d3q5r8t0" 5 host idle).1)))
    ≡ requested ∷ requested ∷ []
unfolding work submit poll_once
provisioned_twice = refl

-- A job with a short identifier ends the program, with its status left at running.
short_identifier :
    run_job working 8 "j1" (record idle { jobs = ("j1", queued_job "j1" 5 host) ∷ [] })
    ≡ panicked (record idle {
      jobs =
          (
            "j1",
            record (queued_job "j1" 5 host) {
              status = "running";
              stage = "starting";
              progress = 5;
            },
          )
          ∷ [];
    })
unfolding run_job
short_identifier = refl

submit_after_shutdown :
    (submit "ch7k2m9v0001d3q5r8t0" 5 host (record idle { is_shutdown = true })).0
    ≡ some is_shut_down
unfolding submit
submit_after_shutdown = refl

no_job_marked : has_key "ch7k2m9v0001d3q5r8t0" idle.poll_running ≡ false
unfolding has_key
no_job_marked = refl

no_job_stored : has_key "ch7k2m9v0001d3q5r8t0" idle.jobs ≡ false
unfolding has_key
no_job_stored = refl

none_pending : list_pending idle.jobs ≡ []
unfolding list_pending
none_pending = refl

job_stored :
    lookup "ch7k2m9v0001d3q5r8t0" with_job.jobs ≡ some (queued_job "ch7k2m9v0001d3q5r8t0" 5 host)
unfolding lookup
job_stored = refl

poll_once_lem_example : Polled (list_pending with_job.jobs) with_job (poll_once with_job)
poll_once_lem_example = poll_once_lem with_job

run_job_lem_example :
    (w' : Worker) × (run_job working 8 "ch7k2m9v0001d3q5r8t0" with_job ≡ returned w')
    × HasRun working 8 "ch7k2m9v0001d3q5r8t0" (queued_job "ch7k2m9v0001d3q5r8t0" 5 host) with_job w'
run_job_lem_example =
    run_job_lem 8 "ch7k2m9v0001d3q5r8t0" working with_job (queued_job "ch7k2m9v0001d3q5r8t0" 5 host)
      job_stored (omega arith)

queued_twice_example :
    (poll_once (submit "ch7k2m9v0001d3q5r8t0" 5 host idle).1).queue
    ≡ "ch7k2m9v0001d3q5r8t0" ∷ "ch7k2m9v0001d3q5r8t0" ∷ []
queued_twice_example =
    queued_twice "ch7k2m9v0001d3q5r8t0" 5 host idle refl no_job_stored no_job_marked none_pending
      (omega arith)
