-- ===== src/Deploy/Orchestrator/Types.antt =====
-- The data of internal/deploy/orchestrator.go and, for the command, of internal/deploy/executor.go.
-- A `time.Time` is a number of nanoseconds, a pointer to one an `Option`.
use vcdeploy.Prelude.{ℕ, String, Bool, true, false, Option, none, List, [], Table}

pub data DeploymentStatus : Type 0 where
  pending queued preparing cloning building deploying verifying completed failed cancelled
        rolling_back :
      DeploymentStatus

-- Where the error of a deployment comes from.
pub data Cause : Type 0 where
  command_failed : String → Cause
  cancelled_for : String → Cause
  reported : String → Cause

-- What the methods return.
pub data DeployError : Type 0 where
  project_required agent_required repository_required : DeployError
  send_failed : String → DeployError
  not_found : String → DeployError
  already_finished : String → DeployError

pub data LogLevel : Type 0 where
  log_debug log_info log_warn log_error : LogLevel

pub record LogEntry : Type 0 where
  pub timestamp : ℕ
  pub level : LogLevel
  pub message : String
  pub source : String

pub record Deployment : Type 0 where
  pub id : String
  pub project_id : String
  pub target_id : String
  pub agent_id : String
  pub status : DeploymentStatus
  pub progress : ℕ
  pub current_step : String
  pub release_number : ℕ
  pub repository : String
  pub branch : String
  pub commit : String
  pub created_at : ℕ
  pub started_at : Option ℕ
  pub completed_at : Option ℕ
  pub triggered_by : String
  pub trigger_source : String
  pub error : Option Cause
  pub logs : List LogEntry

-- A struct literal gives some fields; the others are zero.
abbrev pub blank : String → ℕ → Deployment
blank id now = record {
  id = id;
  project_id = "";
  target_id = "";
  agent_id = "";
  status = pending;
  progress = 0;
  current_step = "";
  release_number = 0;
  repository = "";
  branch = "";
  commit = "";
  created_at = now;
  started_at = none;
  completed_at = none;
  triggered_by = "";
  trigger_source = "";
  error = none;
  logs = [];
}

pub record DeploySettings : Type 0 where
  pub strategy : String
  pub keep_releases : ℕ
  pub shared_dirs : List String
  pub shared_files : List String
  pub writable_dirs : List String
  pub execution_user : String
  pub execution_group : String
  pub timeout : ℕ

pub record ServiceReload : Type 0 where
  pub service : String
  pub action : String

pub record DeployCommand : Type 0 where
  pub deployment_id : String
  pub project : String
  pub target : String
  pub repository : String
  pub branch : String
  pub commit : String
  pub path : String
  pub settings : DeploySettings
  pub env_vars : Table String
  pub env_file_content : List ℕ
  pub pre_deploy_hooks : List String
  pub post_deploy_hooks : List String
  pub reload_services : List ServiceReload

pub record DeployRequest : Type 0 where
  pub project_id : String
  pub target_id : String
  pub agent_id : String
  pub repository : String
  pub branch : String
  pub commit : String
  pub path : String
  pub settings : DeploySettings
  pub env_vars : Table String
  pub env_file_content : List ℕ
  pub pre_deploy_hooks : List String
  pub post_deploy_hooks : List String
  pub reload_services : List ServiceReload
  pub triggered_by : String
  pub trigger_source : String

pub record RollbackRequest : Type 0 where
  pub project_id : String
  pub target_id : String
  pub agent_id : String
  pub path : String
  pub release_number : ℕ
  pub rollback_hooks : List String
  pub reload_services : List ServiceReload
  pub triggered_by : String

-- One call of `onStatusChange`.
abbrev pub StatusChange : Type 0
StatusChange = String × DeploymentStatus

-- The callbacks of the configuration are there or not. `send_command` returns an error or nothing.
-- `notified`, `logged` and `sent` list the calls made so far.
pub record Orchestrator : Type 0 where
  pub deployments : Table Deployment
  pub on_status_change : Bool
  pub on_log : Bool
  pub send_command : Option (String → DeployCommand → Option String)
  pub notified : List StatusChange
  pub logged : List (String × LogEntry)
  pub sent : List (String × DeployCommand)

-- The test for a final status that `Cancel`, `UpdateDeploymentStatus` and the cleanup make.
unfoldable pub is_finished : DeploymentStatus → Bool
is_finished completed = true
is_finished failed = true
is_finished cancelled = true
is_finished _ = false

unfoldable pub is_deploying : DeploymentStatus → Bool
is_deploying deploying = true
is_deploying _ = false
