-- ===== src/Provision/Worker/Twice.antt =====
-- internal/provision/worker.go: a submitted job that a poll meets before a worker takes it.
use vcdeploy.Prelude.{
  ℕ, ◌+◌, ◌<◌, String, ◌≡◌, refl, ap, ◌∙◌, true, false, none, [], ◌∷◌, ◌++◌, arith, Table, insert,
  has_key, ltb, length, length-append,
}
use mathlib.Core.List.{append_assoc}
use vcdeploy.Provision.Worker.{
  ProvisionJob, SshProvisionRequest, Worker, submit, queued_job, list_pending, poll_job, poll_jobs,
  poll_once,
}

list_pending-insert :
    (id : String) (now : ℕ) (req : SshProvisionRequest) (jobs : Table ProvisionJob)
    → has_key id jobs ≡ false
    → list_pending jobs ≡ []
    → list_pending (insert id (queued_job id now req) jobs) ≡ queued_job id now req ∷ []
unfolding list_pending insert has_key
list_pending-insert id now req [] h e = refl
list_pending-insert id now req ((j, v) ∷ jobs) h e =
    ground (arith, list_pending-insert id now req jobs)

submit_accepted :
    (id : String) (now : ℕ) (req : SshProvisionRequest) (w : Worker)
    → w.is_shutdown ≡ false
    → has_key id w.jobs ≡ false
    → length w.queue < w.capacity
    → submit id now req w ≡ (
      none,
      record w { jobs = insert id (queued_job id now req) w.jobs; queue = w.queue ++ id ∷ [] },
    )
unfolding submit
submit_accepted id now req w up fresh room =
    let tested : ltb (length w.queue) w.capacity ≡ true = ground arith in
    rw up (rw fresh (rw tested refl))

poll_unmarked :
    (job : ProvisionJob) (w : Worker)
    → has_key job.id w.poll_running ≡ false
    → length w.queue < w.capacity
    → (poll_job job w).queue ≡ w.queue ++ job.id ∷ []
unfolding poll_job
poll_unmarked job w e room =
    let tested : ltb (length w.queue) w.capacity ≡ true = ground arith in rw e (rw tested refl)

-- On a worker that is not shut down, with no other job pending and room for two: `submit` of a new job
-- puts it into the queue without a mark, and the next poll, if no worker has taken the job yet, puts
-- it there a second time.
pub queued_twice :
    (id : String) (now : ℕ) (req : SshProvisionRequest) (w : Worker)
    → w.is_shutdown ≡ false
    → has_key id w.jobs ≡ false
    → has_key id w.poll_running ≡ false
    → list_pending w.jobs ≡ []
    → length w.queue + 1 < w.capacity
    → (poll_once (submit id now req w).1).queue ≡ w.queue ++ id ∷ id ∷ []
unfolding poll_once poll_jobs
queued_twice id now req w up fresh unmarked idle room =
    let job = queued_job id now req in
    let v : Worker = record w { jobs = insert id job w.jobs; queue = w.queue ++ id ∷ [] } in
    ap (λ p. (poll_once p.1).queue) (submit_accepted id now req w up fresh (omega (arith, room)))
    ∙ ap (λ jobs. (poll_jobs jobs v).queue) (list_pending-insert id now req w.jobs fresh idle)
    ∙ poll_unmarked job v unmarked (omega (arith, room, length-append w.queue (id ∷ [])))
    ∙ append_assoc w.queue (id ∷ []) (id ∷ [])
