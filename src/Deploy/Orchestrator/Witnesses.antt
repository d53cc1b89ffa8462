-- ===== src/Deploy/Orchestrator/Witnesses.antt =====
-- Runs of the orchestrator, and the theorems at concrete inputs.
use vcdeploy.Prelude.{
  ◌+◌, String, ◌≡◌, refl, ◌≢◌, ◌↔◌, true, false, Option, none, some, [], ◌∷◌, ◌++◌, arith, str_eq,
  insert, adjust, lookup, length, if◌then◌else◌,
}
use vcdeploy.Deploy.Orchestrator.{
  deploy, cancel, cleanup_old_deployments, get_deployment, new_deployment,
}
use vcdeploy.Deploy.Orchestrator.Types.{
  pending, queued, cancelled, cancelled_for, Deployment, DeploySettings, DeployCommand,
  DeployRequest, RollbackRequest, Orchestrator, is_finished,
}
use vcdeploy.Deploy.Orchestrator.Lifecycle.{
  IsSound, Reach, here, next, deployed, cancel_requested, Reach-IsSound,
}
use vcdeploy.Deploy.Orchestrator.Keys.{HasKeysOnce, Reach-HasKeysOnce}
use vcdeploy.Deploy.Orchestrator.Requests.{
  IsComplete, command_for, queued_for, deploy_accepted, cancel_lem,
}
use vcdeploy.Deploy.Orchestrator.Cleanup.{IsOld, cleanup_exact}

abbrev settings : DeploySettings
settings = record {
  strategy = "symlink";
  keep_releases = 5;
  shared_dirs = [];
  shared_files = [];
  writable_dirs = [];
  execution_user = "www";
  execution_group = "www";
  timeout = 60;
}

abbrev request : DeployRequest
request = record {
  project_id = "shop";
  target_id = "live";
  agent_id = "a1";
  repository = "git@host:shop";
  branch = "main";
  commit = "c0ffee";
  path = "/srv/shop";
  settings = settings;
  env_vars = [];
  env_file_content = [];
  pre_deploy_hooks = [];
  post_deploy_hooks = [];
  reload_services = [];
  triggered_by = "ann";
  trigger_source = "ui";
}

abbrev accepting : String → DeployCommand → Option String
accepting agent cmd = none

abbrev refusing : String → DeployCommand → Option String
refusing agent cmd = some "offline"

abbrev empty : Option (String → DeployCommand → Option String) → Orchestrator
empty send = record {
  deployments = [];
  on_status_change = true;
  on_log = true;
  send_command = send;
  notified = [];
  logged = [];
  sent = [];
}

abbrev start : Orchestrator
start = empty (some accepting)

abbrev after_deploy : Orchestrator
after_deploy = (deploy "d1" 10 11 request start).0

abbrev after_cancel : Orchestrator
after_cancel = (cancel "d1" "typo" 20 after_deploy).0

IsSound-start : IsSound start
unfolding lookup
IsSound-start k d h = absurd (ground arith)

trace : Reach start after_cancel
trace =
    next (next here (deployed "d1" 10 11 request start))
      (cancel_requested "d1" "typo" 20 after_deploy)

Reach-IsSound_example : IsSound after_cancel
Reach-IsSound_example = Reach-IsSound IsSound-start trace

complete : IsComplete request
complete = (refl, refl, refl)

deploy_accepted_example :
    let (o', err) = deploy "d1" 10 11 request start in
    (err ≡ none)
    × (o'.sent ≡ start.sent ++ (request.agent_id, command_for "d1" request) ∷ [])
    × (o'.notified ≡ (
        if start.on_status_change
        then (start.notified ++ ("d1", pending) ∷ []) ++ ("d1", queued) ∷ []
        else start.notified))
    × (get_deployment "d1" o' ≡ some (queued_for "d1" request 10))
    × ((j : String) → str_eq "d1" j ≡ false → get_deployment j o' ≡ get_deployment j start)
deploy_accepted_example = deploy_accepted "d1" 10 11 request start accepting complete refl refl

cancel_lem_example :
    let (o', res) = cancel "d1" "typo" 20 after_deploy in
    ((res ≡ none) ↔ (
      (d : Deployment) × (get_deployment "d1" after_deploy ≡ some d)
      × (is_finished d.status ≡ false)))
    × (res ≢ none → o' ≡ after_deploy)
    × ((d : Deployment)
        → get_deployment "d1" after_deploy ≡ some d
        → res ≡ none
        → get_deployment "d1" o'
          ≡ some (record d {
            status = cancelled;
            error = some (cancelled_for "typo");
            completed_at = some 20;
          }))
    × ((j : String) → str_eq "d1" j ≡ false → get_deployment j o' ≡ get_deployment j after_deploy)
    × (o'.sent ≡ after_deploy.sent)
cancel_lem_example = cancel_lem "d1" "typo" 20 after_deploy

abbrev stopped : Deployment
stopped = record (new_deployment "d1" request 10) {
  status = cancelled;
  error = some (cancelled_for "typo");
  completed_at = some 20;
}

abbrev back : RollbackRequest
back = record {
  project_id = "shop";
  target_id = "live";
  agent_id = "a1";
  path = "/srv/shop";
  release_number = 0;
  rollback_hooks = [];
  reload_services = [];
  triggered_by = "ann";
}

after_cancel-HasKeysOnce : HasKeysOnce after_cancel
after_cancel-HasKeysOnce = Reach-HasKeysOnce {o = start} tt trace

cleanup_exact_example :
    let (o', n) = cleanup_old_deployments 25 after_cancel in
    ((id : String) (d : Deployment)
      → (get_deployment id o' ≡ some d)
        ↔ ((get_deployment id after_cancel ≡ some d) × (¬ IsOld 25 d)))
    × (length o'.deployments + n ≡ length after_cancel.deployments)
cleanup_exact_example = cleanup_exact 25 after_cancel after_cancel-HasKeysOnce

cleanup_run : (cleanup_old_deployments 25 after_cancel).1 ≡ 1
unfolding cleanup_old_deployments get_deployment cancel deploy new_deployment lookup is_finished
    insert adjust
cleanup_run = refl
