-- ===== src/Deploy/Symlink/Strategy/ExitCodes.antt =====
-- internal/deploy/executor.go: which failures of commands `Deploy` notices.
use vcdeploy.Prelude.{◌≡◌, refl, String, true, some, List, [], ◌∷◌, ◌++◌, Text, codes, All, pos, ℕ}
use vcdeploy.Deploy.Orchestrator.Types.{ServiceReload, DeployCommand}
use vcdeploy.Deploy.Symlink.Calls.{
  CommandResult, RunOptions, no_options, Outcome, failed, ran, Call, Runner, Cause, ok, M, ◌>>=◌,
  try_run, run,
}
use vcdeploy.Deploy.Symlink.{
  slash, get_next_release_number, run_hook, judge_hook, move_or_link, activate_release,
  reload_service, reload_services, reload_command, cleanup_releases, is_valid_service_name,
}
use vcdeploy.Deploy.Symlink.Strategy.{
  Step, setting_up, updating_repo, creating_release, linking_shared, writing_env, pre_deploy_hooks,
  post_deploy_hooks, activating, reloading, at_step, hook_options, prepare, complete, deploy,
}
use vcdeploy.Deploy.Symlink.Scan.{decimal_int}
use vcdeploy.Deploy.Symlink.Strategy.Logic.{
  Closed, setup_directories-keeps, update_repo-keeps, create_release-keeps, link_shared-keeps,
  write_env_file-keeps, run_hooks-keeps,
}

-- From every history the computation gives a value.
pub record Succeeds {E A : Type 0} (m : M E A) : Type 0 where
  pub at : (s : List Call) → (a : A) × (s' : List Call) × (m s ≡ (ok a, s'))

Succeeds->>= :
    {E A B : Type 0} (m : M E A) (f : A → M E B)
    → Succeeds m
    → ((a : A) → Succeeds (f a))
    → Succeeds (m >>= f)
Succeeds->>= m f h k = record {
  at = λ s. let (a, s₁, e) = h.at s in let (b, s₂, e') = (k a).at s₁ in (b, s₂, rw e e');
}

Succeeds-at_step :
    {A : Type 0} (step : Step) (m : M Cause A) → Succeeds m → Succeeds (at_step step m)
Succeeds-at_step step m h = record { at = λ s. let (a, s₁, e) = h.at s in (a, s₁, rw e refl) }

-- A runner that answers every call with a result, of whatever exit code.
abbrev pub Answers : Runner → Type 0
Answers runner = (s : List Call) (c : Call) → (r : CommandResult) × (runner s c ≡ ran r)

-- A runner that answers the hook with exit code 0.
abbrev pub ExitsZero : Runner → RunOptions → String → Type 0
ExitsZero runner opts hook =
    (s : List Call)
    → (r : CommandResult) × (runner s (record { cmd = codes hook; opts = opts }) ≡ ran r)
      × (r.exit_code ≡ pos 0)

-- A service with a valid name and a known action.
abbrev pub Reloadable : ServiceReload → Type 0
Reloadable svc =
    (is_valid_service_name (codes svc.service) ≡ true)
    × ((cmd : Text) × (reload_command svc ≡ some cmd))

module _ (runner : Runner) where
  run_hook_lem :
      (opts : RunOptions) (hook : String)
      → ExitsZero runner opts hook
      → Succeeds (run_hook runner opts hook)
  unfolding run_hook try_run judge_hook
  run_hook_lem opts hook h = record {
    at = λ s.
        let (r, e, z) = h s in
        (tt, s ++ record { cmd = codes hook; opts = opts } ∷ [], rw e (rw z refl));
  }

  run_hooks_lem :
      (opts : RunOptions) (hooks : List String)
      → All (ExitsZero runner opts) hooks
      → All (λ hook. Succeeds (run_hook runner opts hook)) hooks
  run_hooks_lem opts [] h = tt
  run_hooks_lem opts (hook ∷ hooks) h = (run_hook_lem opts hook h.0, run_hooks_lem opts hooks h.1)

module _ (runner : Runner) (answers : Answers runner) where
  Succeeds-try_run : (cmd : Text) (opts : RunOptions) → Succeeds (try_run runner cmd opts)
  unfolding try_run
  Succeeds-try_run cmd opts = record { at = λ s. (_, _, refl) }

  Succeeds-run : (cmd : Text) (opts : RunOptions) → Succeeds (run runner cmd opts)
  unfolding run try_run
  Succeeds-run cmd opts = record {
    at = λ s.
        let (r, e) = answers s (record { cmd = cmd; opts = opts }) in
        (r, s ++ record { cmd = cmd; opts = opts } ∷ [], rw e refl);
  }

  Succeeds-Closed : (base : Text) → Closed runner base (λ A m. Succeeds m)
  Succeeds-Closed base = record {
    of_pure = λ a. record { at = λ s. (a, s, refl) };
    of_bind = λ m f h k. Succeeds->>= m f h k;
    of_try_run = λ cmd opts plain. Succeeds-try_run cmd opts;
    of_run = λ cmd opts plain. Succeeds-run cmd opts;
  }

  move_or_link_lem :
      (rel current : Text) (moved : Outcome) → Succeeds (move_or_link runner rel current moved)
  unfolding move_or_link
  move_or_link_lem rel current (ran r) = (Succeeds-Closed []).of_pure tt
  move_or_link_lem rel current (failed e) =
      Succeeds->>= (try_run runner (codes "rm -f " ++ (current ++ codes ".tmp")) no_options) _
        (Succeeds-try_run _ _)
        (λ o.
          Succeeds->>= (run runner (codes "ln -nfs " ++ (rel ++ (codes " " ++ current))) no_options)
            _ (Succeeds-run _ _) (λ r. (Succeeds-Closed []).of_pure tt))

  activate_release_lem : (rel current : Text) → Succeeds (activate_release runner rel current)
  unfolding activate_release
  activate_release_lem rel current =
      Succeeds->>=
        (run runner (codes "ln -nfs " ++ (rel ++ (codes " " ++ (current ++ codes ".tmp"))))
          no_options)
        _ (Succeeds-run _ _)
        (λ r.
          Succeeds->>=
            (try_run runner
              (codes "mv -T " ++ ((current ++ codes ".tmp") ++ (codes " " ++ current))) no_options)
            _ (Succeeds-try_run _ _) (λ o. move_or_link_lem rel current o))

  reload_service_lem : (svc : ServiceReload) → Reloadable svc → Succeeds (reload_service runner svc)
  unfolding reload_service
  reload_service_lem svc (v, (cmd, e)) = rw v (
      rw e (
        Succeeds->>= (run runner cmd no_options) _ (Succeeds-run _ _)
          (λ r. (Succeeds-Closed []).of_pure tt)))

  reload_services_lem :
      (svcs : List ServiceReload) → All Reloadable svcs → Succeeds (reload_services runner svcs)
  unfolding reload_services
  reload_services_lem [] h = (Succeeds-Closed []).of_pure tt
  reload_services_lem (svc ∷ svcs) h =
      Succeeds->>= (reload_service runner svc) _ (reload_service_lem svc h.0)
        (λ u. reload_services_lem svcs h.1)

  cleanup_releases_lem : (path : Text) (keep : ℕ) → Succeeds (cleanup_releases runner path keep)
  unfolding cleanup_releases
  cleanup_releases_lem path keep =
      Succeeds->>= (try_run runner _ no_options) _ (Succeeds-try_run _ _)
        (λ o. (Succeeds-Closed []).of_pure tt)

  module _ (encode : List ℕ → Text) (cmd : DeployCommand) (release_path : Text) where
    prepare_lem :
        All (ExitsZero runner (hook_options release_path cmd.settings)) cmd.pre_deploy_hooks
        → All (ExitsZero runner (hook_options release_path cmd.settings)) cmd.post_deploy_hooks
        → Succeeds (prepare runner encode cmd release_path)
    unfolding prepare
    prepare_lem pre post =
        let base = codes cmd.path in
        let opts = hook_options release_path cmd.settings in
        let step : (name : Step) (m : M Cause Unit) → Succeeds m → Succeeds (at_step name m) =
          λ name m h. Succeeds-at_step name m h in
        Succeeds->>= _ _
          (step setting_up _ (
            setup_directories-keeps runner base _ (Succeeds-Closed base) base
              (base ++ codes "/releases") (base ++ codes "/shared") cmd.settings))
          (λ u₁.
            Succeeds->>= _ _
              (step updating_repo _ (
                update_repo-keeps runner base _ (Succeeds-Closed base) (base ++ codes "/repo")
                  (codes cmd.repository)))
              (λ u₂.
                Succeeds->>= _ _
                  (step creating_release _ (
                    create_release-keeps runner base _ (Succeeds-Closed base)
                      (base ++ codes "/repo") release_path (codes cmd.commit)))
                  (λ u₃.
                    Succeeds->>= _ _
                      (step linking_shared _ (
                        link_shared-keeps runner base _ (Succeeds-Closed base) release_path
                          cmd.settings))
                      (λ u₄.
                        Succeeds->>= _ _
                          (step writing_env _ (
                            write_env_file-keeps runner base _ (Succeeds-Closed base) encode
                              (base ++ codes "/shared") cmd.env_file_content))
                          (λ u₅.
                            Succeeds->>= _ _
                              (step pre_deploy_hooks _ (
                                run_hooks-keeps runner base _ (Succeeds-Closed base) opts
                                  cmd.pre_deploy_hooks (run_hooks_lem runner opts _ pre)))
                              (λ u₆. step post_deploy_hooks _ (
                                run_hooks-keeps runner base _ (Succeeds-Closed base) opts
                                  cmd.post_deploy_hooks (run_hooks_lem runner opts _ post))))))))

    complete_lem :
        All Reloadable cmd.reload_services → Succeeds (complete runner encode cmd release_path)
    unfolding complete
    complete_lem svcs =
        Succeeds->>= _ _
          (Succeeds-at_step activating _
            (activate_release_lem release_path (codes cmd.path ++ codes "/current")))
          (λ u₁.
            Succeeds->>= _ _
              (Succeeds-at_step reloading _ (reload_services_lem cmd.reload_services svcs))
              (λ u₂. Succeeds-at_step reloading _ (
                cleanup_releases_lem (codes cmd.path ++ codes "/releases")
                  cmd.settings.keep_releases)))

  -- With a runner that answers every call with a result, hooks that exit with 0 and reloadable services,
  -- `deploy` reports a success, whatever the exit codes of all its other commands are.
  pub deploy_ignores_exit_codes :
      (encode : List ℕ → Text) (cmd : DeployCommand) (s : List Call)
      → ((release_path : Text)
          → All (ExitsZero runner (hook_options release_path cmd.settings)) cmd.pre_deploy_hooks)
      → ((release_path : Text)
          → All (ExitsZero runner (hook_options release_path cmd.settings)) cmd.post_deploy_hooks)
      → All Reloadable cmd.reload_services
      → (deploy runner encode cmd s).0.success ≡ true
  unfolding deploy get_next_release_number
  deploy_ignores_exit_codes encode cmd s pre post svcs =
      let rels = codes cmd.path ++ codes "/releases" in
      let (n, s₁) = get_next_release_number runner rels s in
      let path = slash rels (decimal_int n) in
      let (a, s₂, e) =
        (Succeeds->>= (prepare runner encode cmd path) (λ u. complete runner encode cmd path)
            (prepare_lem encode cmd path (pre path) (post path))
            (λ u. complete_lem encode cmd path svcs)).at
          s₁ in
      rw e refl
