-- ===== src/Deploy/Symlink/Strategy/Logic.antt =====
-- internal/deploy/executor.go: what holds of every computation of the steps before the switch, for a
-- property of computations that the binds keep.
use vcdeploy.Prelude.{
  ◌≡◌, refl, String, Bool, false, List, [], ◌∷◌, ◌++◌, inl, inr, Bool-cases, ◌∙◌, ◌||◌, All,
  has_prefix, arith, Text, codes, map, ℕ,
}
use mathlib.Core.List.{append_assoc}
use vcdeploy.Deploy.Orchestrator.Types.{DeploySettings}
use vcdeploy.Deploy.Symlink.Calls.{
  RunOptions, no_options, Outcome, Runner, Cause, M, pure, CommandResult, ◌>>=◌, try_run, run,
}
use vcdeploy.Deploy.Symlink.{
  slash, ref_of, make_directories, setup_directories, clone_or_fetch, update_repo, create_release,
  link_dirs, link_files, make_writable, link_shared, run_hook, run_hooks, is_zero,
}
use vcdeploy.Deploy.Symlink.Strategy.{write_env_file}

-- The commands by which `activateRelease` puts a release in place: the text begins with `mv -T `, or
-- with `ln -nfs ` and a path in the directory of the releases.
unfoldable pub is_switch : Text → Text → Bool
unfolding has_prefix
is_switch base cmd =
    has_prefix cmd (codes "mv -T ")
    || has_prefix cmd (codes "ln -nfs " ++ (base ++ codes "/releases/"))

-- A property of computations that `pure` has, that binds keep, and that a call has which is no switch.
pub record Closed (runner : Runner) (base : Text) (W : (A : Type 0) → M Cause A → Type 0)
    : Type 1 where
  pub of_pure : {A : Type 0} (a : A) → W A (pure a)
  pub of_bind :
      {A B : Type 0} (m : M Cause A) (f : A → M Cause B)
      → W A m
      → ((a : A) → W B (f a))
      → W B (m >>= f)
  pub of_try_run :
      (cmd : Text) (opts : RunOptions)
      → is_switch base cmd ≡ false
      → W Outcome (try_run runner cmd opts)
  pub of_run :
      (cmd : Text) (opts : RunOptions)
      → is_switch base cmd ≡ false
      → W CommandResult (run runner cmd opts)

has_prefix-append_both : (a s p : Text) → has_prefix (a ++ s) (a ++ p) ≡ has_prefix s p
unfolding has_prefix
has_prefix-append_both [] s p = refl
has_prefix-append_both (c ∷ a) s p = ground (arith, has_prefix-append_both a s p)

-- A link to what the projects share is not one of them.
link_shared_plain :
    (base dir rest : Text)
    → is_switch base (codes "ln -nfs " ++ (slash (base ++ codes "/shared") dir ++ rest)) ≡ false
unfolding is_switch has_prefix
link_shared_plain base dir rest =
    let same : slash (base ++ codes "/shared") dir ++ rest
        ≡ base ++ (codes "/shared/" ++ (dir ++ rest)) =
      append_assoc (base ++ codes "/shared") (codes "/" ++ dir) rest
      ∙ append_assoc base (codes "/shared") ((codes "/" ++ dir) ++ rest) in
    rw same (has_prefix-append_both base (codes "/shared/" ++ (dir ++ rest)) (codes "/releases/"))

module _ (runner : Runner) (base : Text) (W : (A : Type 0) → M Cause A → Type 0)
    (laws : Closed runner base W) where
  run_then :
      {A : Type 0} (cmd : Text) (f : CommandResult → M Cause A)
      → is_switch base cmd ≡ false
      → ((r : CommandResult) → W A (f r))
      → W A (run runner cmd no_options >>= f)
  run_then cmd f plain =
      laws.of_bind (run runner cmd no_options) f (laws.of_run cmd no_options plain)

  try_run_then :
      {A : Type 0} (cmd : Text) (f : Outcome → M Cause A)
      → is_switch base cmd ≡ false
      → ((o : Outcome) → W A (f o))
      → W A (try_run runner cmd no_options >>= f)
  try_run_then cmd f plain =
      laws.of_bind (try_run runner cmd no_options) f (laws.of_try_run cmd no_options plain)

  make_directories-keeps : (dirs : List Text) → W Unit (make_directories runner dirs)
  unfolding make_directories is_switch has_prefix
  make_directories-keeps [] = laws.of_pure tt
  make_directories-keeps (d ∷ ds) =
      run_then (codes "mkdir -p " ++ d) _ refl (λ r. make_directories-keeps ds)

  pub setup_directories-keeps :
      (dir rels sh : Text) (settings : DeploySettings)
      → W Unit (setup_directories runner dir rels sh settings)
  unfolding setup_directories
  setup_directories-keeps dir rels sh settings =
      make_directories-keeps
        (dir ∷ rels ∷ sh ∷ map (λ dir. slash sh (codes dir)) settings.shared_dirs)

  clone_or_fetch-keeps :
      (repo_path repository : Text) (there : Outcome)
      → W Unit (clone_or_fetch runner repo_path repository there)
  unfolding clone_or_fetch is_switch has_prefix
  clone_or_fetch-keeps repo_path repository there = elim (Bool-cases (is_zero there)) [
    | inl e ↦ rw e (
        run_then (codes "git -C " ++ (repo_path ++ codes " fetch --all --prune")) _ refl
          (λ r. laws.of_pure tt))
    | inr e ↦ rw e (
        run_then (codes "git clone --mirror " ++ (repository ++ (codes " " ++ repo_path))) _ refl
          (λ r. laws.of_pure tt))
  ]

  pub update_repo-keeps :
      (repo_path repository : Text) → W Unit (update_repo runner repo_path repository)
  unfolding update_repo is_switch has_prefix
  update_repo-keeps repo_path repository =
      try_run_then (codes "test -d " ++ (repo_path ++ codes "/.git")) _ refl
        (λ o. clone_or_fetch-keeps repo_path repository o)

  pub create_release-keeps :
      (repo_path release_path commit : Text)
      → W Unit (create_release runner repo_path release_path commit)
  unfolding create_release is_switch has_prefix
  create_release-keeps repo_path release_path commit =
      run_then (codes "mkdir -p " ++ release_path) _ refl (λ r.
        run_then
          (codes "git -C "
            ++ (repo_path
                ++ (codes " archive "
                    ++ (ref_of commit ++ (codes " | tar -x -C " ++ release_path)))))
          _ refl (λ r'. laws.of_pure tt))

  link_dirs-keeps :
      (rel : Text) (ds : List Text) → W Unit (link_dirs runner rel (base ++ codes "/shared") ds)
  unfolding link_dirs is_switch has_prefix
  link_dirs-keeps rel [] = laws.of_pure tt
  link_dirs-keeps rel (d ∷ ds) = try_run_then (codes "rm -rf " ++ slash rel d) _ refl (λ o.
      run_then
        (codes "ln -nfs " ++ (slash (base ++ codes "/shared") d ++ (codes " " ++ slash rel d))) _
        (link_shared_plain base d _) (λ r. link_dirs-keeps rel ds))

  link_files-keeps :
      (rel : Text) (fs : List Text) → W Unit (link_files runner rel (base ++ codes "/shared") fs)
  unfolding link_files is_switch has_prefix
  link_files-keeps rel [] = laws.of_pure tt
  link_files-keeps rel (f ∷ fs) =
      try_run_then (codes "mkdir -p $(dirname " ++ (slash rel f ++ codes ")")) _ refl (λ o.
        try_run_then (codes "rm -f " ++ slash rel f) _ refl (λ o'.
          run_then
            (codes "ln -nfs " ++ (slash (base ++ codes "/shared") f ++ (codes " " ++ slash rel f)))
            _ (link_shared_plain base f _) (λ r. link_files-keeps rel fs)))

  make_writable-keeps : (rel : Text) (ds : List Text) → W Unit (make_writable runner rel ds)
  unfolding make_writable is_switch has_prefix
  make_writable-keeps rel [] = laws.of_pure tt
  make_writable-keeps rel (d ∷ ds) =
      try_run_then
        (codes "mkdir -p " ++ (slash rel d ++ (codes " && chmod -R 775 " ++ slash rel d))) _ refl
        (λ o. make_writable-keeps rel ds)

  pub link_shared-keeps :
      (rel : Text) (settings : DeploySettings)
      → W Unit (link_shared runner rel (base ++ codes "/shared") settings)
  unfolding link_shared
  link_shared-keeps rel settings =
      laws.of_bind
        (link_dirs runner rel (base ++ codes "/shared") (map (λ d. codes d) settings.shared_dirs)) _
        (link_dirs-keeps rel _)
        (λ u.
          laws.of_bind
            (link_files runner rel (base ++ codes "/shared")
              (map (λ f. codes f) settings.shared_files))
            _ (link_files-keeps rel _)
            (λ v. make_writable-keeps rel (map (λ d. codes d) settings.writable_dirs)))

  pub write_env_file-keeps :
      (encode : List ℕ → Text) (sh : Text) (content : List ℕ)
      → W Unit (write_env_file runner encode sh content)
  unfolding write_env_file is_switch has_prefix
  write_env_file-keeps encode sh [] = laws.of_pure tt
  write_env_file-keeps encode sh (c ∷ content) =
      run_then
        (codes "echo '"
          ++ (encode (c ∷ content)
              ++ (codes "' | base64 -d > "
                  ++ ((sh ++ codes "/.env") ++ (codes " && chmod 600 " ++ (sh ++ codes "/.env"))))))
        _ refl (λ r. laws.of_pure tt)

  -- Hooks keep it whose verdict has it for each answer.
  pub run_hooks-keeps :
      (opts : RunOptions) (hooks : List String)
      → All (λ hook. W Unit (run_hook runner opts hook)) hooks
      → W Unit (run_hooks runner opts hooks)
  unfolding run_hooks
  run_hooks-keeps opts [] h = laws.of_pure tt
  run_hooks-keeps opts (hook ∷ hooks) h =
      laws.of_bind (run_hook runner opts hook) _ h.0 (λ u. run_hooks-keeps opts hooks h.1)
