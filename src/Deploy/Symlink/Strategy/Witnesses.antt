-- ===== src/Deploy/Symlink/Strategy/Witnesses.antt =====
-- Runs of the symlink strategy, and the theorems at concrete inputs.
use vcdeploy.Prelude.{
  ◌≡◌, refl, String, true, false, some, List, [], ◌∷◌, ◌++◌, Text, codes, has_prefix, Any, ℕ, ℤ,
  pos, trim_space, split_on, if◌then◌else◌,
}
use vcdeploy.Deploy.Orchestrator.Types.{DeployCommand}
use vcdeploy.Deploy.Symlink.Calls.{CommandResult, Call, failed, ran, Runner, runner_failed, ok, err}
use vcdeploy.Deploy.Symlink.{slash, is_zero, is_valid_service_name, reload_command}
use vcdeploy.Deploy.Symlink.Strategy.Logic.{is_switch}
use vcdeploy.Deploy.Symlink.Strategy.{
  RollbackCommand, release_not_found, updating_repo, deploy, rollback,
}
use vcdeploy.Deploy.Symlink.Strategy.ExitCodes.{deploy_ignores_exit_codes}
use vcdeploy.Deploy.Symlink.Strategy.Activation.{no_switch_before_failure}
use vcdeploy.Deploy.Symlink.Strategy.Quiet.{NoSwitchSince}
use vcdeploy.Deploy.Symlink.Strategy.Releases.{rollback_is_listed}
use vcdeploy.Deploy.Symlink.Strategy.Switches.{SwitchesTo}

abbrev exiting : ℤ → String → CommandResult
exiting code out = record { exit_code = code; stdout = codes out; stderr = [] }

-- Every command but a hook exits with 128.
abbrev broken_host : Runner
broken_host s call =
    ran (exiting (if has_prefix call.cmd (codes "./hook") then pos 0 else pos 128) "")

-- A host that cannot run `git -C`.
abbrev no_git : Runner
no_git s call =
    if has_prefix call.cmd (codes "git -C")
    then failed (codes "no git")
    else ran (exiting (pos 0) "7\n")

abbrev three_releases : Runner
three_releases s call = ran (exiting (pos 0) "1\n2\n3\n")

abbrev shop : DeployCommand
shop = record {
  deployment_id = "d1";
  project = "shop";
  target = "live";
  repository = "git@host:shop";
  branch = "main";
  commit = "c0ffee";
  path = "/srv/shop";
  settings = record {
    strategy = "symlink";
    keep_releases = 5;
    shared_dirs = "log" ∷ [];
    shared_files = ".env" ∷ [];
    writable_dirs = "tmp" ∷ [];
    execution_user = "www";
    execution_group = "www";
    timeout = 60;
  };
  env_vars = [];
  env_file_content = [];
  pre_deploy_hooks = "./hook" ∷ [];
  post_deploy_hooks = [];
  reload_services = record { service = "nginx"; action = "reload" } ∷ [];
}

abbrev encode : List ℕ → Text
encode content = content

abbrev back_to : ℤ → RollbackCommand
back_to n = record {
  path = codes "/srv/shop";
  release_number = n;
  rollback_hooks = [];
  reload_services = [];
}

deploy_next : (deploy no_git encode shop []).0.release_number ≡ pos 8
unfolding deploy has_prefix is_zero
deploy_next = refl

deploy_without_git :
    (deploy no_git encode shop []).0.error ≡ some (updating_repo, runner_failed (codes "no git"))
unfolding deploy has_prefix is_zero
deploy_without_git = refl

rollback_previous :
    (rollback three_releases (back_to (pos 0)) []).0 ≡ ok (codes "/srv/shop/releases/2")
unfolding rollback
rollback_previous = refl

rollback_to_one :
    (rollback three_releases (back_to (pos 1)) []).0 ≡ ok (codes "/srv/shop/releases/1")
unfolding rollback
rollback_to_one = refl

rollback_to_four :
    (rollback three_releases (back_to (pos 4)) []).0 ≡ err (release_not_found (pos 4))
unfolding rollback
rollback_to_four = refl

nginx_valid : is_valid_service_name (codes "nginx") ≡ true
unfolding is_valid_service_name
nginx_valid = refl

nginx_command :
    (cmd : Text) × (reload_command (record { service = "nginx"; action = "reload" }) ≡ some cmd)
unfolding reload_command
nginx_command = (_, refl)

plain_hook : is_switch (codes "/srv/shop") (codes "./hook") ≡ false
unfolding is_switch has_prefix
plain_hook = refl

rollback_runs :
    rollback three_releases (back_to (pos 0)) []
    ≡ (ok (codes "/srv/shop/releases/2"), (rollback three_releases (back_to (pos 0)) []).1)
unfolding rollback
rollback_runs = refl

deploy_ignores_exit_codes_example : (deploy broken_host encode shop []).0.success ≡ true
unfolding has_prefix
deploy_ignores_exit_codes_example =
    deploy_ignores_exit_codes broken_host (λ s c. (_, refl)) encode shop []
      (λ path. (λ s. (_, refl, refl), tt)) (λ path. tt) ((nginx_valid, nginx_command), tt)

no_switch_before_failure_example :
    NoSwitchSince (codes "/srv/shop") [] (deploy no_git encode shop []).1
no_switch_before_failure_example =
    no_switch_before_failure no_git encode shop [] updating_repo (runner_failed (codes "no git"))
      (plain_hook, tt) tt deploy_without_git refl

rollback_is_listed_example :
    Any
      (λ r. codes "/srv/shop/releases/2" ≡ slash (codes "/srv/shop/releases") r)
      (split_on 10 (trim_space (codes "1\n2\n3\n")))
    × ((made : List Call) × ((rollback three_releases (back_to (pos 0)) []).1 ≡ [] ++ made)
        × SwitchesTo (codes "/srv/shop") (codes "/srv/shop/releases/2") made)
rollback_is_listed_example =
    rollback_is_listed three_releases (back_to (pos 0)) [] (exiting (pos 0) "1\n2\n3\n") refl
      (codes "/srv/shop/releases/2") _ rollback_runs
