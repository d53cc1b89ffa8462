-- ===== src/Deploy/Symlink.antt =====
-- internal/deploy/executor.go: the symlink strategy, over a command runner. A runner answers with a
-- result, which has the exit code of the command, or with an error; it may look at all calls made
-- before. Log entries and times are left out.
pub mod Calls
pub mod Scan
pub mod Strategy
use vcdeploy.Prelude.{
  ℕ, ◌-◌, String, Bool, true, false, not, ◌&&◌, ◌||◌, Option, none, some, List, [], ◌∷◌, ◌++◌,
  if◌then◌else◌, ◌==◌, ltb, leb, str_eq, Text, codes, text_eq, decimal, ℤ, pos, negsuc, any,
  trim_space, eq_int, add_int, leb_int, split_on, length, second_to_last, map,
}
use vcdeploy.Deploy.Orchestrator.Types.{DeploySettings, ServiceReload, DeployCommand}
use vcdeploy.Deploy.Symlink.Calls.{
  CommandResult, RunOptions, no_options, Outcome, failed, ran, Call, Runner, Cause, runner_failed,
  hook_failed, hook_exited, invalid_service_name, unknown_service_action, Res, ok, err, M, pure,
  fail, continue, ◌>>=◌, ◌>>◌, try_run, run,
}
use vcdeploy.Deploy.Symlink.Scan.{scan_int, decimal_int}

-- `ServiceNamePattern`
unfoldable pub is_alphanumeric : ℕ → Bool
is_alphanumeric c =
    (leb b'a' c && leb c b'z') || (leb b'A' c && leb c b'Z') || (leb b'0' c && leb c b'9')

unfoldable pub is_service_char : ℕ → Bool
unfolding is_alphanumeric
is_service_char c = is_alphanumeric c || c == b'.' || c == b'_' || c == b'@' || c == b'-'

unfoldable pub all_service_chars : Text → Bool
unfolding is_service_char
all_service_chars [] = true
all_service_chars (c ∷ s) = is_service_char c && all_service_chars s

-- `validation.IsValidServiceName`, for names whose length in bytes is that of the text.
unfoldable pub is_valid_service_name : Text → Bool
unfolding is_alphanumeric all_service_chars
is_valid_service_name [] = false
is_valid_service_name (c ∷ s) =
    if ltb 256 (length (c ∷ s)) then false else is_alphanumeric c && all_service_chars s

abbrev pub ls_next : Text → Text
ls_next releases_path =
    codes "ls -1 " ++ (releases_path ++ codes " 2>/dev/null | sort -n | tail -1")

unfoldable pub next_number : Outcome → ℤ
unfolding scan_int add_int
next_number (failed e) = pos 1
next_number (ran r) = add_int (scan_int r.stdout) 1

unfoldable pub is_zero : Outcome → Bool
is_zero (failed e) = false
is_zero (ran r) = eq_int r.exit_code (pos 0)

unfoldable pub ref_of : Text → Text
ref_of [] = codes "HEAD"
ref_of (c ∷ commit) = c ∷ commit

unfoldable pub judge_hook : String → Outcome → M Cause (Unit {0})
judge_hook hook (failed e) = fail (hook_failed hook e)
judge_hook hook (ran r) =
    if eq_int r.exit_code (pos 0) then pure tt else fail (hook_exited hook r.exit_code r.stderr)

-- The command of `reloadServices` for an action, none for one that is unknown.
unfoldable pub reload_command : ServiceReload → Option Text
reload_command svc =
    let name = codes svc.service in
    if str_eq svc.action "reload"
    then some (codes "systemctl reload " ++ (name ++ (codes " || systemctl restart " ++ name)))
    else if str_eq svc.action "restart"
    then some (codes "systemctl restart " ++ name)
    else if str_eq svc.action "start"
    then some (codes "systemctl start " ++ name)
    else if str_eq svc.action "stop"
    then some (codes "systemctl stop " ++ name)
    else none

abbrev pub slash : Text → Text → Text
slash a b = a ++ (codes "/" ++ b)

module _ (runner : Runner) where
  -- `getNextReleaseNumber`, which never fails.
  unfoldable pub get_next_release_number : Text → List Call → ℤ × List Call
  unfolding next_number
  get_next_release_number releases_path s =
      let call : Call = record { cmd = ls_next releases_path; opts = no_options } in
      (next_number (runner s call), s ++ call ∷ [])

  -- `mkdir -p` for each directory.
  unfoldable pub make_directories : List Text → M Cause (Unit {0})
  unfolding run
  make_directories [] = pure tt
  make_directories (dir ∷ dirs) =
      run runner (codes "mkdir -p " ++ dir) no_options >> make_directories dirs

  -- `setupDirectories`
  unfoldable pub setup_directories : Text → Text → Text → DeploySettings → M Cause (Unit {0})
  unfolding make_directories
  setup_directories base_path releases_path shared_path settings = make_directories (
      base_path
      ∷ releases_path
      ∷ shared_path
      ∷ map (λ dir. slash shared_path (codes dir)) settings.shared_dirs)

  -- The clone or the fetch of `updateRepo`.
  unfoldable pub clone_or_fetch : Text → Text → Outcome → M Cause (Unit {0})
  unfolding run
  clone_or_fetch repo_path repository there =
      if is_zero there
      then run runner (codes "git -C " ++ (repo_path ++ codes " fetch --all --prune")) no_options
        >> pure tt
      else run runner (codes "git clone --mirror " ++ (repository ++ (codes " " ++ repo_path)))
          no_options
        >> pure tt

  -- `updateRepo`
  unfoldable pub update_repo : Text → Text → M Cause (Unit {0})
  unfolding clone_or_fetch try_run
  update_repo repo_path repository = do
    there ← try_run runner (codes "test -d " ++ (repo_path ++ codes "/.git")) no_options
    clone_or_fetch repo_path repository there

  -- `createRelease`
  unfoldable pub create_release : Text → Text → Text → M Cause (Unit {0})
  unfolding run
  create_release repo_path release_path commit = do
    run runner (codes "mkdir -p " ++ release_path) no_options
    run runner
        (codes "git -C "
          ++ (repo_path
              ++ (codes " archive " ++ (ref_of commit ++ (codes " | tar -x -C " ++ release_path)))))
        no_options
    pure tt

  -- The loops of `linkShared`: directories, files, and writable directories.
  unfoldable pub link_dirs : Text → Text → List Text → M Cause (Unit {0})
  unfolding try_run run
  link_dirs release_path shared_path [] = pure tt
  link_dirs release_path shared_path (dir ∷ dirs) = do
    let target = slash release_path dir
    try_run runner (codes "rm -rf " ++ target) no_options
    run runner (codes "ln -nfs " ++ (slash shared_path dir ++ (codes " " ++ target))) no_options
    link_dirs release_path shared_path dirs

  unfoldable pub link_files : Text → Text → List Text → M Cause (Unit {0})
  unfolding try_run run
  link_files release_path shared_path [] = pure tt
  link_files release_path shared_path (file ∷ files) = do
    let target = slash release_path file
    try_run runner (codes "mkdir -p $(dirname " ++ (target ++ codes ")")) no_options
    try_run runner (codes "rm -f " ++ target) no_options
    run runner (codes "ln -nfs " ++ (slash shared_path file ++ (codes " " ++ target))) no_options
    link_files release_path shared_path files

  unfoldable pub make_writable : Text → List Text → M Cause (Unit {0})
  unfolding try_run
  make_writable release_path [] = pure tt
  make_writable release_path (dir ∷ dirs) = do
    let target = slash release_path dir
    try_run runner (codes "mkdir -p " ++ (target ++ (codes " && chmod -R 775 " ++ target)))
        no_options
    make_writable release_path dirs

  -- `linkShared`
  unfoldable pub link_shared : Text → Text → DeploySettings → M Cause (Unit {0})
  unfolding link_dirs link_files make_writable
  link_shared release_path shared_path settings = do
    link_dirs release_path shared_path (map (λ d. codes d) settings.shared_dirs)
    link_files release_path shared_path (map (λ f. codes f) settings.shared_files)
    make_writable release_path (map (λ d. codes d) settings.writable_dirs)

  -- `runHooks`
  unfoldable pub run_hook : RunOptions → String → M Cause (Unit {0})
  unfolding try_run
  run_hook opts hook = do answer ← try_run runner (codes hook) opts; judge_hook hook answer

  unfoldable pub run_hooks : RunOptions → List String → M Cause (Unit {0})
  unfolding run_hook
  run_hooks opts [] = pure tt
  run_hooks opts (hook ∷ hooks) = run_hook opts hook >> run_hooks opts hooks

  -- `activateRelease`
  unfoldable pub move_or_link : Text → Text → Outcome → M Cause (Unit {0})
  unfolding run try_run
  move_or_link release_path current_path (ran r) = pure tt
  move_or_link release_path current_path (failed e) = do
    try_run runner (codes "rm -f " ++ (current_path ++ codes ".tmp")) no_options
    run runner (codes "ln -nfs " ++ (release_path ++ (codes " " ++ current_path))) no_options
    pure tt

  unfoldable pub activate_release : Text → Text → M Cause (Unit {0})
  unfolding run try_run move_or_link
  activate_release release_path current_path = do
    let tmp_link = current_path ++ codes ".tmp"
    run runner (codes "ln -nfs " ++ (release_path ++ (codes " " ++ tmp_link))) no_options
    moved ← try_run runner (codes "mv -T " ++ (tmp_link ++ (codes " " ++ current_path))) no_options
    move_or_link release_path current_path moved

  -- `reloadServices`
  unfoldable pub reload_service : ServiceReload → M Cause (Unit {0})
  unfolding run is_valid_service_name reload_command
  reload_service svc =
      if not (is_valid_service_name (codes svc.service))
      then fail (invalid_service_name svc.service)
      else elim (reload_command svc) [
        | none ↦ fail (unknown_service_action svc.action)
        | some cmd ↦ run runner cmd no_options >> pure tt
      ]

  unfoldable pub reload_services : List ServiceReload → M Cause (Unit {0})
  unfolding reload_service
  reload_services [] = pure tt
  reload_services (svc ∷ rest) = reload_service svc >> reload_services rest

  -- `cleanupReleases`; a number that is not positive stands for 5.
  unfoldable pub cleanup_releases : Text → ℕ → M Cause (Unit {0})
  unfolding try_run decimal
  cleanup_releases releases_path keep_releases = do
    let keep : ℕ = if keep_releases == 0 then 5 else keep_releases
    try_run runner
        (codes "ls -1 "
          ++ (releases_path
              ++ (codes " | sort -n | head -n -"
                  ++ (decimal keep
                      ++ (codes " | xargs -I {} rm -rf " ++ (releases_path ++ codes "/{}"))))))
        no_options
    pure tt
