-- ===== src/Deploy/Orchestrator/Requests.antt =====
-- internal/deploy/orchestrator.go: what `Deploy`, `Rollback`, `Cancel` and the agents' reports do.
use vcdeploy.Prelude.{
  Bool-cases, adjust, ℕ, String, ◌≡◌, ◌≢◌, ◌↔◌, ◌⊎◌, true, false, Option, none, some, [], ◌∷◌, ◌++◌,
  arith, str_eq, eq_iff, if◌then◌else◌, lookup, insert, lookup-insert, lookup-adjust, inl, inr,
}
use vcdeploy.Deploy.Orchestrator.{
  get_deployment, cancel, new_deployment, deploy, rollback, rollback_deployment, build_command,
}
use vcdeploy.Deploy.Orchestrator.Types.{
  pending, queued, failed, cancelled, command_failed, cancelled_for, project_required,
  agent_required, repository_required, send_failed, Deployment, DeployCommand, DeployRequest,
  RollbackRequest, Orchestrator, is_finished,
}

-- The three fields that `Deploy` requires.
abbrev pub IsComplete : DeployRequest → Type 0
IsComplete req =
    (str_eq req.project_id "" ≡ false)
    × (str_eq req.agent_id "" ≡ false)
    × (str_eq req.repository "" ≡ false)

-- The command for a request, field by field.
abbrev pub command_for : String → DeployRequest → DeployCommand
command_for id req = record {
  deployment_id = id;
  project = req.project_id;
  target = req.target_id;
  repository = req.repository;
  branch = req.branch;
  commit = req.commit;
  path = req.path;
  settings = req.settings;
  env_vars = req.env_vars;
  env_file_content = req.env_file_content;
  pre_deploy_hooks = req.pre_deploy_hooks;
  post_deploy_hooks = req.post_deploy_hooks;
  reload_services = req.reload_services;
}

-- A deployment of a request whose command was sent, field by field.
abbrev pub queued_for : String → DeployRequest → ℕ → Deployment
queued_for id req now = record {
  id = id;
  project_id = req.project_id;
  target_id = req.target_id;
  agent_id = req.agent_id;
  repository = req.repository;
  branch = req.branch;
  commit = req.commit;
  status = queued;
  progress = 0;
  current_step = "";
  logs = [];
  release_number = 0;
  started_at = none;
  completed_at = none;
  error = none;
  triggered_by = req.triggered_by;
  trigger_source = req.trigger_source;
  created_at = now;
}

-- With a sender that accepts the command, `Deploy` sends exactly one command, which has each of its
-- fields from the request, to the agent of the request; the deployment is stored as queued, with the
-- fields of the request and the time, the callback, if there is one, hears pending and then queued, and
-- every other deployment is as before.
pub deploy_accepted :
    (id : String) (now later : ℕ) (req : DeployRequest) (o : Orchestrator)
    (send : String → DeployCommand → Option String)
    → IsComplete req
    → o.send_command ≡ some send
    → send req.agent_id (command_for id req) ≡ none
    → let (o', err) = deploy id now later req o in
      (err ≡ none)
      × (o'.sent ≡ o.sent ++ (req.agent_id, command_for id req) ∷ [])
      × (o'.notified ≡ (
          if o.on_status_change
          then (o.notified ++ (id, pending) ∷ []) ++ (id, queued) ∷ []
          else o.notified))
      × (get_deployment id o' ≡ some (queued_for id req now))
      × ((j : String) → str_eq id j ≡ false → get_deployment j o' ≡ get_deployment j o)
unfolding deploy get_deployment new_deployment build_command
deploy_accepted id now later req o send h s a =
    let d = new_deployment id req now in
    let m = insert id d o.deployments in
    let stored : lookup id m ≡ some d =
      ground (arith, lookup-insert id id d o.deployments, eq_iff id id) in
    (
      ground (arith, h),
      ground (arith, h),
      ground (arith, h),
      ground (
        arith,
        h,
        lookup-adjust id id (λ (e : Deployment). record e { status = queued }) m,
        eq_iff id id,
      ),
      λ j ne. ground (
        arith,
        h,
        lookup-insert id j d o.deployments,
        lookup-adjust id j (λ (e : Deployment). record e { status = queued }) m,
      ),
    )

-- With a sender that refuses the command, `Deploy` returns the sender's error, the command has still
-- been handed to it once, and the stored deployment is failed, with that error and the time of the
-- failure; every other deployment is as before.
pub deploy_refused :
    (id : String) (now later : ℕ) (req : DeployRequest) (o : Orchestrator)
    (send : String → DeployCommand → Option String) (err : String)
    → IsComplete req
    → o.send_command ≡ some send
    → send req.agent_id (build_command id req) ≡ some err
    → let (o', res) = deploy id now later req o in
      (res ≡ some (send_failed err))
      × (o'.sent ≡ o.sent ++ (req.agent_id, build_command id req) ∷ [])
      × (get_deployment id o'
          ≡ some (record (new_deployment id req now) {
            status = failed;
            error = some (command_failed err);
            completed_at = some later;
          }))
      × ((j : String) → str_eq id j ≡ false → get_deployment j o' ≡ get_deployment j o)
unfolding deploy get_deployment new_deployment
deploy_refused id now later req o send err h s a =
    let d = new_deployment id req now in
    let m = insert id d o.deployments in
    let m' = adjust id (λ (e : Deployment). record e { status = queued }) m in
    let fail = λ (e : Deployment). record e {
      status = failed;
      error = some (command_failed err);
      completed_at = some later;
    } in
    let stored : lookup id m ≡ some d =
      ground (arith, lookup-insert id id d o.deployments, eq_iff id id) in
    let stored' : lookup id m' ≡ some (record d { status = queued }) = ground (
      arith,
      lookup-adjust id id (λ (e : Deployment). record e { status = queued }) m,
      eq_iff id id,
    ) in
    (
      ground (arith, h),
      ground (arith, h),
      ground (arith, h, lookup-adjust id id fail m', eq_iff id id),
      λ j ne. ground (
        arith,
        h,
        lookup-insert id j d o.deployments,
        lookup-adjust id j (λ (e : Deployment). record e { status = queued }) m,
        lookup-adjust id j fail m',
      ),
    )

missing_field :
    (req : DeployRequest)
    → ¬ IsComplete req
    → (str_eq req.project_id "" ≡ true)
      ⊎ ((str_eq req.agent_id "" ≡ true) ⊎ (str_eq req.repository "" ≡ true))
missing_field req n = elim (Bool-cases (str_eq req.project_id "")) [
  | inl e ↦ inl e
  | inr p ↦ elim (Bool-cases (str_eq req.agent_id "")) [
    | inl e ↦ inr (inl e)
    | inr a ↦ elim (Bool-cases (str_eq req.repository "")) [
      | inl e ↦ inr (inr e)
      | inr r ↦ absurd (n (p, a, r))
    ]
  ]
]

-- `Deploy` refuses a request for a missing field exactly when the project, the agent or the
-- repository is missing, and then changes nothing.
pub deploy_incomplete :
    (id : String) (now later : ℕ) (req : DeployRequest) (o : Orchestrator)
    → let (o', res) = deploy id now later req o in
      (((res ≡ some project_required)
          ⊎ ((res ≡ some agent_required) ⊎ (res ≡ some repository_required)))
        ↔ (¬ IsComplete req))
      × (¬ IsComplete req → o' ≡ o)
unfolding deploy
deploy_incomplete id now later req o = (
  (λ r c. ground (arith, c), λ n. ground (arith, missing_field req n)),
  λ n. ground (arith, missing_field req n),
)

abbrev stop : String → ℕ → Deployment → Deployment
stop reason now d = record d {
  status = cancelled;
  error = some (cancelled_for reason);
  completed_at = some now;
}

-- `Cancel` succeeds exactly on a stored deployment that is not completed, failed or cancelled. Then
-- that deployment is cancelled, with the reason and the time; otherwise nothing changes. The other
-- deployments stay as they are, and no command goes out.
pub cancel_lem :
    (id reason : String) (now : ℕ) (o : Orchestrator)
    → let (o', res) = cancel id reason now o in
      ((res ≡ none)
        ↔ ((d : Deployment) × (get_deployment id o ≡ some d) × (is_finished d.status ≡ false)))
      × (res ≢ none → o' ≡ o)
      × ((d : Deployment)
          → get_deployment id o ≡ some d
          → res ≡ none
          → get_deployment id o'
            ≡ some (record d {
              status = cancelled;
              error = some (cancelled_for reason);
              completed_at = some now;
            }))
      × ((j : String) → str_eq id j ≡ false → get_deployment j o' ≡ get_deployment j o)
      × (o'.sent ≡ o.sent)
unfolding cancel get_deployment
cancel_lem id reason now o = (
  (ground arith, ground arith),
  λ e. ground arith,
  λ d f e. ground (arith, lookup-adjust id id (stop reason now) o.deployments, eq_iff id id),
  λ j e. ground (arith, lookup-adjust id j (stop reason now) o.deployments),
  ground arith,
)

-- `Rollback` with a project and an agent records a deployment that is rolling back and returns it,
-- and sends no command to any agent, whatever sender is configured.
pub rollback_sends_nothing :
    (id : String) (now : ℕ) (req : RollbackRequest) (o : Orchestrator)
    → str_eq req.project_id "" ≡ false
    → str_eq req.agent_id "" ≡ false
    → let (o', res) = rollback id now req o in
      (res ≡ none)
      × (o'.sent ≡ o.sent)
      × (get_deployment id o' ≡ some (rollback_deployment id req now))
unfolding rollback get_deployment
rollback_sends_nothing id now req o p a = (
  ground arith,
  ground arith,
  ground (arith, lookup-insert id id (rollback_deployment id req now) o.deployments, eq_iff id id),
)
