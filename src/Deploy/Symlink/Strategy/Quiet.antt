-- ===== src/Deploy/Symlink/Strategy/Quiet.antt =====
-- internal/deploy/executor.go: computations that do not switch the link `current`.
use vcdeploy.Prelude.{
  ◌≡◌, refl, String, false, List, [], ◌∷◌, ◌++◌, Text, codes, has_prefix, All, ℕ, eq_int, pos, inl,
  inr, Bool-cases,
}
use mathlib.Core.List.{append_assoc, append-nil}
use mathlib.Core.Path.{sym}
use vcdeploy.Deploy.Orchestrator.Types.{DeployCommand}
use vcdeploy.Deploy.Symlink.Calls.{
  RunOptions, Outcome, failed, ran, Call, Runner, Cause, Res, ok, err, M, pure, ◌>>=◌, continue,
  tag, try_run, run, checked,
}
use vcdeploy.Deploy.Symlink.{get_next_release_number, run_hook, judge_hook}
use vcdeploy.Deploy.Symlink.Strategy.{
  Step, setting_up, updating_repo, creating_release, linking_shared, writing_env, pre_deploy_hooks,
  post_deploy_hooks, at_step, hook_options, prepare,
}
use vcdeploy.Deploy.Symlink.Strategy.Logic.{
  is_switch, Closed, setup_directories-keeps, update_repo-keeps, create_release-keeps,
  link_shared-keeps, write_env_file-keeps, run_hooks-keeps,
}

abbrev pub IsPlain : Text → Call → Type 0
IsPlain base c = is_switch base c.cmd ≡ false

-- The calls made since `s`, none of which is a switch.
abbrev pub NoSwitchSince : Text → List Call → List Call → Type 0
NoSwitchSince base s t = (made : List Call) × (t ≡ s ++ made) × All (IsPlain base) made

All-append :
    (base : Text) (xs ys : List Call)
    → All (IsPlain base) xs
    → All (IsPlain base) ys
    → All (IsPlain base) (xs ++ ys)
All-append base [] ys h k = k
All-append base (x ∷ xs) ys h k = (h.0, All-append base xs ys h.1 k)

pub NoSwitchSince-trans :
    (base : Text) (s t u : List Call)
    → NoSwitchSince base s t
    → NoSwitchSince base t u
    → NoSwitchSince base s u
NoSwitchSince-trans base s t u (xs, e, h) (ys, e', k) =
    (xs ++ ys, rw e' (rw e (append_assoc s xs ys)), All-append base xs ys h k)

-- A computation that makes no switch.
pub record IsQuiet (base : Text) {E A : Type 0} (m : M E A) : Type 0 where
  pub at : (s : List Call) → NoSwitchSince base s (m s).1

quiet_continue :
    (base : Text) {E A B : Type 0} (s : List Call) (p : Res E A × List Call) (f : A → M E B)
    → NoSwitchSince base s p.1
    → ((a : A) → IsQuiet base (f a))
    → NoSwitchSince base s (continue f p).1
quiet_continue base s (ok a, t) f h k = NoSwitchSince-trans base s t _ h ((k a).at t)
quiet_continue base s (err e, t) f h k = h

quiet_tag :
    (base : Text) {E F A : Type 0} (s : List Call) (g : E → F) (p : Res E A × List Call)
    → NoSwitchSince base s p.1
    → NoSwitchSince base s (tag g p).1
quiet_tag base s g (ok a, t) h = h
quiet_tag base s g (err e, t) h = h

IsQuiet->>= :
    (base : Text) {E A B : Type 0} (m : M E A) (f : A → M E B)
    → IsQuiet base m
    → ((a : A) → IsQuiet base (f a))
    → IsQuiet base (m >>= f)
IsQuiet->>= base m f h k = record { at = λ s. quiet_continue base s (m s) f (h.at s) k }

IsQuiet-at_step :
    (base : Text) {A : Type 0} (step : Step) (m : M Cause A)
    → IsQuiet base m
    → IsQuiet base (at_step step m)
IsQuiet-at_step base step m h = record { at = λ s. quiet_tag base s _ (m s) (h.at s) }

append_nil : (s : List Call) → s ≡ s ++ []
append_nil s = sym (append-nil s)

module _ (base : Text) (runner : Runner) where
  IsQuiet-pure : {E A : Type 0} (a : A) → IsQuiet base {E = E} (pure a)
  IsQuiet-pure a = record { at = λ s. ([], append_nil s, tt) }

  IsQuiet-try_run :
      (cmd : Text) (opts : RunOptions)
      → is_switch base cmd ≡ false
      → IsQuiet base (try_run runner cmd opts)
  unfolding try_run
  IsQuiet-try_run cmd opts plain = record {
    at = λ s. (record { cmd = cmd; opts = opts } ∷ [], refl, (plain, tt));
  }

  IsQuiet-judge : (o : Outcome) → IsQuiet base (checked runner o)
  IsQuiet-judge (failed e) = record { at = λ s. ([], append_nil s, tt) }
  IsQuiet-judge (ran r) = record { at = λ s. ([], append_nil s, tt) }

  IsQuiet-Closed : Closed runner base (λ A m. IsQuiet base m)
  unfolding run
  IsQuiet-Closed = record {
    of_pure = λ a. IsQuiet-pure a;
    of_bind = λ m f h k. IsQuiet->>= base m f h k;
    of_try_run = λ cmd opts plain. IsQuiet-try_run cmd opts plain;
    of_run = λ cmd opts plain.
        IsQuiet->>= base (try_run runner cmd opts) (checked runner) (IsQuiet-try_run cmd opts plain)
          IsQuiet-judge;
  }

  judge_hook-IsQuiet : (hook : String) (o : Outcome) → IsQuiet base (judge_hook hook o)
  unfolding judge_hook
  judge_hook-IsQuiet hook (failed e) = record { at = λ s. ([], append_nil s, tt) }
  judge_hook-IsQuiet hook (ran r) = elim (Bool-cases (eq_int r.exit_code (pos 0))) [
    | inl e ↦ rw e (IsQuiet-pure tt)
    | inr e ↦ rw e (record { at = λ s. ([], append_nil s, tt) })
  ]

  run_hooks-IsQuiet :
      (opts : RunOptions) (hooks : List String)
      → All (λ hook. is_switch base (codes hook) ≡ false) hooks
      → All (λ hook. IsQuiet base (run_hook runner opts hook)) hooks
  unfolding run_hook
  run_hooks-IsQuiet opts [] h = tt
  run_hooks-IsQuiet opts (hook ∷ hooks) h = (
    IsQuiet->>= base (try_run runner (codes hook) opts) _ (IsQuiet-try_run _ _ h.0)
        (judge_hook-IsQuiet hook),
    run_hooks-IsQuiet opts hooks h.1,
  )

  pub get_next_quiet :
      (releases_path : Text) (s : List Call)
      → NoSwitchSince base s (get_next_release_number runner releases_path s).1
  unfolding get_next_release_number is_switch has_prefix
  get_next_quiet releases_path s = (_ ∷ [], refl, (refl, tt))

module _ (runner : Runner) (encode : List ℕ → Text) (cmd : DeployCommand)
    (release_path : Text) where
  pub prepare-IsQuiet :
      All (λ hook. is_switch (codes cmd.path) (codes hook) ≡ false) cmd.pre_deploy_hooks
      → All (λ hook. is_switch (codes cmd.path) (codes hook) ≡ false) cmd.post_deploy_hooks
      → IsQuiet (codes cmd.path) (prepare runner encode cmd release_path)
  unfolding prepare
  prepare-IsQuiet pre post =
      let base = codes cmd.path in
      let quiet = IsQuiet-Closed base runner in
      let opts = hook_options release_path cmd.settings in
      let step : (name : Step) (m : M Cause Unit) → IsQuiet base m → IsQuiet base (at_step name m) =
        λ name m h. IsQuiet-at_step base name m h in
      IsQuiet->>= base _ _
        (step setting_up _ (
          setup_directories-keeps runner base _ quiet base (base ++ codes "/releases")
            (base ++ codes "/shared") cmd.settings))
        (λ u₁.
          IsQuiet->>= base _ _
            (step updating_repo _ (
              update_repo-keeps runner base _ quiet (base ++ codes "/repo") (codes cmd.repository)))
            (λ u₂.
              IsQuiet->>= base _ _
                (step creating_release _ (
                  create_release-keeps runner base _ quiet (base ++ codes "/repo") release_path
                    (codes cmd.commit)))
                (λ u₃.
                  IsQuiet->>= base _ _
                    (step linking_shared _
                      (link_shared-keeps runner base _ quiet release_path cmd.settings))
                    (λ u₄.
                      IsQuiet->>= base _ _
                        (step writing_env _ (
                          write_env_file-keeps runner base _ quiet encode (base ++ codes "/shared")
                            cmd.env_file_content))
                        (λ u₅.
                          IsQuiet->>= base _ _
                            (step pre_deploy_hooks _ (
                              run_hooks-keeps runner base _ quiet opts cmd.pre_deploy_hooks
                                (run_hooks-IsQuiet base runner opts _ pre)))
                            (λ u₆. step post_deploy_hooks _ (
                              run_hooks-keeps runner base _ quiet opts cmd.post_deploy_hooks
                                (run_hooks-IsQuiet base runner opts _ post))))))))
