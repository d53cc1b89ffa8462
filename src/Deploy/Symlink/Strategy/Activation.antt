-- ===== src/Deploy/Symlink/Strategy/Activation.antt =====
-- internal/deploy/executor.go: when `Deploy` switches the link `current`.
use vcdeploy.Prelude.{◌≡◌, refl, Bool, true, false, some, List, ◌++◌, Text, codes, All, ℕ, arith, ℤ}
use vcdeploy.Deploy.Orchestrator.Types.{DeployCommand}
use vcdeploy.Deploy.Symlink.Calls.{Call, Runner, Cause, Res, ok, err, M, ◌>>=◌, continue, tag}
use vcdeploy.Deploy.Symlink.{
  slash, get_next_release_number, activate_release, reload_services, cleanup_releases,
}
use vcdeploy.Deploy.Symlink.Strategy.{
  Step, activating, reloading, at_step, result_of, prepare, complete, deploy,
}
use vcdeploy.Deploy.Symlink.Scan.{decimal_int}
use vcdeploy.Deploy.Symlink.Strategy.Logic.{is_switch}
use vcdeploy.Deploy.Symlink.Strategy.Quiet.{
  NoSwitchSince, NoSwitchSince-trans, get_next_quiet, prepare-IsQuiet,
}

-- The steps that come before the switch.
abbrev pub before_switch : Step → Bool
before_switch activating = false
before_switch reloading = false
before_switch step = true

-- An error of the result is one of the steps from the switch on.
abbrev IsLate : {A : Type 0} → Res (Step × Cause) A → Type 0
IsLate (ok a) = Unit {0}
IsLate (err e) = before_switch e.0 ≡ false

pub record EndsLate {A : Type 0} (m : M (Step × Cause) A) : Type 0 where
  pub at : (s : List Call) → IsLate (m s).0

IsLate-continue :
    {A B : Type 0} (p : Res (Step × Cause) A × List Call) (f : A → M (Step × Cause) B)
    → IsLate p.0
    → ((a : A) → EndsLate (f a))
    → IsLate (continue f p).0
IsLate-continue (ok a, s) f h k = (k a).at s
IsLate-continue (err e, s) f h k = h

EndsLate->>= :
    {A B : Type 0} (m : M (Step × Cause) A) (f : A → M (Step × Cause) B)
    → EndsLate m
    → ((a : A) → EndsLate (f a))
    → EndsLate (m >>= f)
EndsLate->>= m f h k = record { at = λ s. IsLate-continue (m s) f (h.at s) k }

IsLate-tag :
    {A : Type 0} (step : Step) (p : Res Cause A × List Call)
    → before_switch step ≡ false
    → IsLate (tag (λ e. (step, e)) p).0
IsLate-tag step (ok a, s) h = tt
IsLate-tag step (err e, s) h = h

EndsLate-at_step :
    {A : Type 0} (step : Step) (m : M Cause A)
    → before_switch step ≡ false
    → EndsLate (at_step step m)
EndsLate-at_step step m h = record { at = λ s. IsLate-tag step (m s) h }

module _ (runner : Runner) (encode : List ℕ → Text) (cmd : DeployCommand) where
  complete-EndsLate : (release_path : Text) → EndsLate (complete runner encode cmd release_path)
  unfolding complete
  complete-EndsLate release_path =
      let base = codes cmd.path in
      EndsLate->>= {A = Unit} _ _
        (EndsLate-at_step activating
          (activate_release runner release_path (base ++ codes "/current")) refl)
        (λ u.
          EndsLate->>= {A = Unit} _ _
            (EndsLate-at_step reloading (reload_services runner cmd.reload_services) refl)
            (λ v.
              EndsLate-at_step reloading
                (cleanup_releases runner (base ++ codes "/releases") cmd.settings.keep_releases)
                refl))

  -- What follows a quiet computation adds a switch only if an error is late.
  quiet_unless_late :
      (n : ℤ) (path : Text) (s : List Call) (p : Res (Step × Cause) Unit × List Call)
      → NoSwitchSince (codes cmd.path) s p.1
      → (step : Step) (cause : Cause)
      → (result_of n path (continue (λ u. complete runner encode cmd path) p).0).error
        ≡ some (step, cause)
      → before_switch step ≡ true
      → NoSwitchSince (codes cmd.path) s (continue (λ u. complete runner encode cmd path) p).1
  quiet_unless_late n path s (err e, t) h step cause failing early = h
  quiet_unless_late n path s (ok u, t) h step cause failing early =
      absurd
        (late_absurd (complete runner encode cmd path t).0 ((complete-EndsLate path).at t) failing)
    where
      late_absurd :
          (r : Res (Step × Cause) Unit)
          → IsLate r
          → (result_of n path r).error ≡ some (step, cause)
          → ⊥
      late_absurd (ok a) l eq = ground arith
      late_absurd (err e) l eq = ground arith

  -- Where `deploy` fails in a step before the switch, none of the calls that it made is one by which
  -- `activateRelease` puts a release in place, which are `mv -T ...` and `ln -nfs` of a path in the
  -- directory of the releases, where no hook is such a command itself.
  pub no_switch_before_failure :
      (s : List Call) (step : Step) (cause : Cause)
      → All (λ hook. is_switch (codes cmd.path) (codes hook) ≡ false) cmd.pre_deploy_hooks
      → All (λ hook. is_switch (codes cmd.path) (codes hook) ≡ false) cmd.post_deploy_hooks
      → (deploy runner encode cmd s).0.error ≡ some (step, cause)
      → before_switch step ≡ true
      → NoSwitchSince (codes cmd.path) s (deploy runner encode cmd s).1
  unfolding deploy
  no_switch_before_failure s step cause pre post failing early =
      let rels = codes cmd.path ++ codes "/releases" in
      let next = get_next_release_number runner rels s in
      let path = slash rels (decimal_int next.0) in
      let quiet = prepare-IsQuiet runner encode cmd path pre post in
      quiet_unless_late next.0 path s (prepare runner encode cmd path next.1)
        (NoSwitchSince-trans (codes cmd.path) s next.1 _
          (get_next_quiet (codes cmd.path) runner rels s) (quiet.at next.1))
        step cause failing early
