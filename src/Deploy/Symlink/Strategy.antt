-- ===== src/Deploy/Symlink/Strategy.antt =====
-- internal/deploy/executor.go: `Deploy` and `Rollback` of the symlink strategy.
pub mod Activation
pub mod ExitCodes
pub mod Logic
pub mod Quiet
pub mod Releases
pub mod Switches
mod Witnesses
use vcdeploy.Prelude.{
  ℕ, ◌-◌, String, Bool, true, false, not, ◌&&◌, ◌||◌, Option, none, some, List, [], ◌∷◌, ◌++◌,
  if◌then◌else◌, ltb, leb_int, Text, codes, text_eq, ℤ, pos, any, trim_space, split_on, length,
  second_to_last,
}
use vcdeploy.Deploy.Orchestrator.Types.{DeploySettings, ServiceReload, DeployCommand}
use vcdeploy.Deploy.Symlink.Calls.{
  CommandResult, RunOptions, no_options, Outcome, failed, ran, Call, Runner, Cause, Res, ok, err, M,
  pure, fail, continue, tag, ◌>>=◌, ◌>>◌, try_run, run, invalid_service_name,
}
use vcdeploy.Deploy.Symlink.Scan.{decimal_int}
use vcdeploy.Deploy.Symlink.{
  slash, get_next_release_number, setup_directories, update_repo, create_release, link_shared,
  run_hooks, activate_release, reload_services, cleanup_releases, is_valid_service_name,
}

-- `RollbackCommand`, the fields that the strategy reads.
pub record RollbackCommand : Type 0 where
  pub path : Text
  pub release_number : ℤ
  pub rollback_hooks : List Text
  pub reload_services : List ServiceReload

-- The steps of `Deploy` by which its errors are told apart.
pub data Step : Type 0 where
  setting_up updating_repo creating_release linking_shared writing_env : Step
  pre_deploy_hooks post_deploy_hooks activating reloading : Step

-- `DeployResult`: the release, and the error, or none where it is a success.
pub record DeployResult : Type 0 where
  pub success : Bool
  pub release_number : ℤ
  pub release_path : Text
  pub error : Option (Step × Cause)

-- An error of a step.
abbrev pub at_step : {A : Type 0} → Step → M Cause A → M (Step × Cause) A
at_step step m s = tag (λ e. (step, e)) (m s)

abbrev pub result_of : ℤ → Text → Res (Step × Cause) (Unit {0}) → DeployResult
result_of n release_path (ok x) = record {
  success = true;
  release_number = n;
  release_path = release_path;
  error = none;
}
result_of n release_path (err e) = record {
  success = false;
  release_number = n;
  release_path = release_path;
  error = some e;
}

-- The options of the hooks.
abbrev pub hook_options : Text → DeploySettings → RunOptions
hook_options release_path settings = record {
  work_dir = release_path;
  user = settings.execution_user;
  group = settings.execution_group;
  timeout = settings.timeout;
}

-- `encode` is base64's `EncodeToString`.
module _ (runner : Runner) (encode : List ℕ → Text) where
  -- `writeEnvFile`
  unfoldable pub write_env_file : Text → List ℕ → M Cause (Unit {0})
  unfolding run
  write_env_file shared_path [] = pure tt
  write_env_file shared_path (c ∷ content) =
      let env_path = shared_path ++ codes "/.env" in
      run runner
        (codes "echo '"
          ++ (encode (c ∷ content)
              ++ (codes "' | base64 -d > " ++ (env_path ++ (codes " && chmod 600 " ++ env_path)))))
        no_options
      >> pure tt

  -- The steps 1 to 7 of `Deploy`.
  unfoldable pub prepare : DeployCommand → Text → M (Step × Cause) (Unit {0})
  unfolding setup_directories update_repo create_release link_shared write_env_file run_hooks
  prepare cmd release_path = do
    let base_path = codes cmd.path
    let shared_path = base_path ++ codes "/shared"
    let repo_path = base_path ++ codes "/repo"
    let opts = hook_options release_path cmd.settings
    at_step setting_up (
        setup_directories runner base_path (base_path ++ codes "/releases") shared_path
          cmd.settings)
    at_step updating_repo (update_repo runner repo_path (codes cmd.repository))
    at_step creating_release (create_release runner repo_path release_path (codes cmd.commit))
    at_step linking_shared (link_shared runner release_path shared_path cmd.settings)
    at_step writing_env (write_env_file shared_path cmd.env_file_content)
    at_step pre_deploy_hooks (run_hooks runner opts cmd.pre_deploy_hooks)
    at_step post_deploy_hooks (run_hooks runner opts cmd.post_deploy_hooks)

  -- The steps 8 to 10.
  unfoldable pub complete : DeployCommand → Text → M (Step × Cause) (Unit {0})
  unfolding activate_release reload_services cleanup_releases
  complete cmd release_path = do
    let base_path = codes cmd.path
    at_step activating (activate_release runner release_path (base_path ++ codes "/current"))
    at_step reloading (reload_services runner cmd.reload_services)
    at_step reloading
        (cleanup_releases runner (base_path ++ codes "/releases") cmd.settings.keep_releases)

  -- `SymlinkStrategy.Deploy`
  unfoldable pub deploy : DeployCommand → List Call → DeployResult × List Call
  unfolding get_next_release_number prepare complete
  deploy cmd s =
      let releases_path = codes cmd.path ++ codes "/releases" in
      let (n, s₁) = get_next_release_number runner releases_path s in
      let release_path = slash releases_path (decimal_int n) in
      let (res, s₂) = (prepare cmd release_path >> complete cmd release_path) s₁ in
      (result_of n release_path res, s₂)

-- The errors of `Rollback`.
pub data RollbackError : Type 0 where
  no_previous_release : RollbackError
  release_not_found : ℤ → RollbackError
  rollback_failed : Cause → RollbackError

abbrev pub failing : {A : Type 0} → M Cause A → M RollbackError A
failing m s = tag rollback_failed (m s)

-- The release that `Rollback` goes to, from the one before the last.
unfoldable pub select_among : ℤ → List Text → Option Text → Res RollbackError Text
unfolding any text_eq decimal_int
select_among release_number releases none = err no_previous_release
select_among release_number releases (some previous) =
    if not (leb_int release_number (pos 0))
    then if any (λ r. text_eq r (decimal_int release_number)) releases
      then ok (decimal_int release_number)
      else err (release_not_found release_number)
    else ok previous

unfoldable pub select_release : ℤ → List Text → Res RollbackError Text
unfolding select_among second_to_last
select_release release_number releases =
    select_among release_number releases (second_to_last releases)

module _ (runner : Runner) where
  unfoldable pub run_rollback_hooks : Text → List Text → M Cause (Unit {0})
  unfolding run
  run_rollback_hooks release_path [] = pure tt
  run_rollback_hooks release_path (hook ∷ hooks) = do
    run runner (codes "cd " ++ (release_path ++ (codes " && " ++ hook)))
        (record no_options { work_dir = release_path })
    run_rollback_hooks release_path hooks

  -- The switch of the link in `Rollback`.
  unfoldable pub switch_link : Text → Text → M Cause (Unit {0})
  unfolding run
  switch_link release_path current_path = do
    let tmp_link = current_path ++ codes ".tmp"
    run runner (codes "ln -sfn " ++ (release_path ++ (codes " " ++ tmp_link))) no_options
    run runner (codes "mv -Tf " ++ (tmp_link ++ (codes " " ++ current_path))) no_options
    pure tt

  -- The loop over the services in `Rollback`.
  unfoldable pub run_service_actions : List ServiceReload → M Cause (Unit {0})
  unfolding run is_valid_service_name
  run_service_actions [] = pure tt
  run_service_actions (svc ∷ rest) =
      let go_on = do
        run runner (codes "systemctl " ++ (codes svc.action ++ (codes " " ++ codes svc.service)))
            no_options
        run_service_actions rest
      in if not (is_valid_service_name (codes svc.service))
        then fail (invalid_service_name svc.service)
        else go_on

  -- The end of `Rollback`, once the release is chosen: its path.
  unfoldable pub go_back_to : RollbackCommand → Text → M RollbackError Text
  unfolding run_rollback_hooks switch_link run_service_actions
  go_back_to cmd target = do
    let release_path = slash (slash cmd.path (codes "releases")) target
    failing (run_rollback_hooks release_path cmd.rollback_hooks)
    failing (switch_link release_path (slash cmd.path (codes "current")))
    failing (run_service_actions cmd.reload_services)
    pure release_path

  unfoldable pub go_back_in : RollbackCommand → CommandResult → M RollbackError Text
  unfolding select_release trim_space split_on go_back_to
  go_back_in cmd listed s =
      continue (go_back_to cmd)
        (select_release cmd.release_number (split_on 10 (trim_space listed.stdout)), s)

  abbrev pub ls_releases : Text → Text
  ls_releases path = codes "ls -1 " ++ (slash path (codes "releases") ++ codes " | sort -n")

  -- `SymlinkStrategy.Rollback`: the path of the release that was gone back to, or the error.
  unfoldable pub rollback : RollbackCommand → M RollbackError Text
  unfolding run go_back_in
  rollback cmd =
      failing (run runner (ls_releases cmd.path) no_options) >>= λ listed. go_back_in cmd listed
