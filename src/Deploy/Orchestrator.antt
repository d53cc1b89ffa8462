-- ===== src/Deploy/Orchestrator.antt =====
-- internal/deploy/orchestrator.go (and the command it sends, internal/deploy/executor.go).
-- The map of deployments, the calls of the callbacks and the commands sent are explicit state. The
-- calls of `xid.New` and `time.Now` are arguments, and the methods run one at a time.
pub mod Types
pub mod Lifecycle
pub mod Requests
pub mod Keys
pub mod Cleanup
mod Witnesses
use vcdeploy.Prelude.{
  ℕ, ◌+◌, ◌-◌, String, Bool, true, false, not, ◌&&◌, ◌||◌, Option, none, some, List, [], ◌∷◌, ◌++◌,
  if◌then◌else◌, ltb, str_eq, length, Table, lookup, insert, delete, adjust, keys_where,
}
use Types.{
  DeploymentStatus, pending, queued, deploying, completed, failed, cancelled, rolling_back, Cause,
  command_failed, DeployError, project_required, agent_required, repository_required, send_failed,
  not_found, already_finished, LogEntry, Deployment, DeployCommand, DeployRequest, RollbackRequest,
  StatusChange, Orchestrator, is_finished, is_deploying, blank,
}

-- `notifyStatusChange`
unfoldable pub notify_status_change : String → DeploymentStatus → Orchestrator → Orchestrator
notify_status_change id status o =
    if o.on_status_change then record o { notified = o.notified ++ (id, status) ∷ [] } else o

-- A write through the pointer that the map holds, then the callback; nothing for an unknown id.
unfoldable pub update_with :
    String → DeploymentStatus → (Deployment → Deployment) → Orchestrator → Orchestrator
unfolding notify_status_change
update_with id status f o = elim (lookup id o.deployments) [
  | none ↦ o
  | some d ↦ notify_status_change id status (record o { deployments = adjust id f o.deployments })
]

-- `updateStatus`
unfoldable pub update_status : String → DeploymentStatus → Orchestrator → Orchestrator
unfolding update_with
update_status id status = update_with id status (λ d. record d { status = status })

-- `updateStatusWithError`
unfoldable pub update_status_with_error :
    String → DeploymentStatus → Cause → ℕ → Orchestrator → Orchestrator
unfolding update_with
update_status_with_error id status cause now =
    update_with id status
      (λ d. record d { status = status; error = some cause; completed_at = some now })

-- What `UpdateDeploymentStatus` writes.
unfoldable pub report : DeploymentStatus → ℕ → String → ℕ → Deployment → Deployment
report status progress current_step now d = record d {
  status = status;
  progress = progress;
  current_step = current_step;
  started_at = elim d.started_at [
    | none ↦ if is_deploying status then some now else none
    | some t ↦ some t
  ];
  completed_at = if is_finished status then some now else d.completed_at;
}

-- `UpdateDeploymentStatus`, called for what an agent reports.
unfoldable pub update_deployment_status :
    String → DeploymentStatus → ℕ → String → ℕ → Orchestrator → Orchestrator
unfolding update_with report
update_deployment_status id status progress current_step now =
    update_with id status (report status progress current_step now)

-- `AddDeploymentLog`
unfoldable pub add_deployment_log : String → LogEntry → Orchestrator → Orchestrator
add_deployment_log id entry o = elim (lookup id o.deployments) [
  | none ↦ o
  | some d ↦
      let o' = record o {
        deployments = adjust id (λ e. record e { logs = e.logs ++ entry ∷ [] }) o.deployments;
      } in
      if o.on_log then record o' { logged = o'.logged ++ (id, entry) ∷ [] } else o'
]

-- `SetReleaseNumber`
unfoldable pub set_release_number : String → ℕ → Orchestrator → Orchestrator
set_release_number id n o = record o {
  deployments = adjust id (λ d. record d { release_number = n }) o.deployments;
}

-- `SetError`
unfoldable pub set_error : String → Cause → ℕ → Orchestrator → Orchestrator
unfolding update_status_with_error
set_error id cause now = update_status_with_error id failed cause now

-- `GetDeployment`
unfoldable pub get_deployment : String → Orchestrator → Option Deployment
get_deployment id o = lookup id o.deployments

-- `ListProjectDeployments`
unfoldable pub list_project_deployments : String → Table Deployment → List Deployment
list_project_deployments project [] = []
list_project_deployments project ((id, d) ∷ m) =
    let rest = list_project_deployments project m in
    if str_eq d.project_id project then d ∷ rest else rest

-- `Cancel`
unfoldable pub cancel : String → String → ℕ → Orchestrator → Orchestrator × Option DeployError
unfolding update_status_with_error
cancel id reason now o = elim (lookup id o.deployments) [
  | none ↦ (o, some (not_found id))
  | some d ↦
      if is_finished d.status
      then (o, some (already_finished id))
      else (update_status_with_error id cancelled (Cause.cancelled_for reason) now o, none)
]

-- The command that `Deploy` builds from a request.
unfoldable pub build_command : String → DeployRequest → DeployCommand
build_command id req = record {
  deployment_id = id;
  project = req.project_id;
  target = req.target_id;
  repository = req.repository;
  branch = req.branch;
  commit = req.commit;
  path = req.path;
  settings = req.settings;
  env_vars = req.env_vars;
  env_file_content = req.env_file_content;
  pre_deploy_hooks = req.pre_deploy_hooks;
  post_deploy_hooks = req.post_deploy_hooks;
  reload_services = req.reload_services;
}

-- `o.deployments[id] = d`, under the lock.
unfoldable pub store_deployment : Deployment → Orchestrator → Orchestrator
store_deployment d o = record o { deployments = insert d.id d o.deployments }

-- What `Deploy` does with the answer of the sender.
unfoldable pub conclude :
    Option String → String → ℕ → Orchestrator → Orchestrator × Option DeployError
unfolding update_status_with_error
conclude none id later o = (o, none)
conclude (some err) id later o =
    (update_status_with_error id failed (command_failed err) later o, some (send_failed err))

-- The last part of `Deploy`: the command goes out, if a sender is configured.
unfoldable pub dispatch :
    Option (String → DeployCommand → Option String)
    → String
    → DeployRequest
    → ℕ
    → Orchestrator
    → Orchestrator × Option DeployError
unfolding update_status build_command conclude
dispatch none id req later o = (o, none)
dispatch (some send) id req later o =
    let o' = update_status id queued o in
    let cmd = build_command id req in
    conclude (send req.agent_id cmd) id later
      (record o' { sent = o'.sent ++ (req.agent_id, cmd) ∷ [] })

-- The record that `Deploy` creates.
unfoldable pub new_deployment : String → DeployRequest → ℕ → Deployment
new_deployment id req now = record (blank id now) {
  project_id = req.project_id;
  target_id = req.target_id;
  agent_id = req.agent_id;
  repository = req.repository;
  branch = req.branch;
  commit = req.commit;
  triggered_by = req.triggered_by;
  trigger_source = req.trigger_source;
}

-- `Deploy`: `id` is the fresh identifier, `now` and `later` what the two clock reads return.
unfoldable pub deploy :
    String → ℕ → ℕ → DeployRequest → Orchestrator → Orchestrator × Option DeployError
unfolding store_deployment notify_status_change dispatch new_deployment
deploy id now later req o =
    if str_eq req.project_id ""
    then (o, some project_required)
    else if str_eq req.agent_id ""
    then (o, some agent_required)
    else if str_eq req.repository ""
    then (o, some repository_required)
    else dispatch o.send_command id req later
        (notify_status_change id pending (store_deployment (new_deployment id req now) o))

-- The record that `Rollback` creates.
unfoldable pub rollback_deployment : String → RollbackRequest → ℕ → Deployment
rollback_deployment id req now = record (blank id now) {
  project_id = req.project_id;
  target_id = req.target_id;
  agent_id = req.agent_id;
  status = rolling_back;
  triggered_by = req.triggered_by;
  trigger_source = "rollback";
}

-- `Rollback`
unfoldable pub rollback :
    String → ℕ → RollbackRequest → Orchestrator → Orchestrator × Option DeployError
unfolding store_deployment notify_status_change rollback_deployment
rollback id now req o =
    if str_eq req.project_id ""
    then (o, some project_required)
    else if str_eq req.agent_id ""
    then (o, some agent_required)
    else (
      notify_status_change id rolling_back (store_deployment (rollback_deployment id req now) o),
      none,
    )

-- The test of `CleanupOldDeployments`: finished, and completed before the cutoff.
unfoldable pub is_stale : ℕ → Deployment → Bool
is_stale cutoff d =
    is_finished d.status && elim d.completed_at [ none ↦ false | some t ↦ ltb t cutoff ]

-- Its first loop, which collects identifiers.
unfoldable pub stale_ids : ℕ → Table Deployment → List String
unfolding is_stale keys_where
stale_ids cutoff = keys_where (is_stale cutoff)

-- Its second loop, which removes them.
unfoldable pub delete_all : List String → Table Deployment → Table Deployment
delete_all [] m = m
delete_all (id ∷ ids) m = delete_all ids (delete id m)

-- `CleanupOldDeployments`; `cutoff` is `time.Now().Add(-maxAge)`.
unfoldable pub cleanup_old_deployments : ℕ → Orchestrator → Orchestrator × ℕ
unfolding stale_ids delete_all
cleanup_old_deployments cutoff o =
    let ids = stale_ids cutoff o.deployments in
    (record o { deployments = delete_all ids o.deployments }, length ids)
