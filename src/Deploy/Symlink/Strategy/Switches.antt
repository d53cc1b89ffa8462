-- ===== src/Deploy/Symlink/Strategy/Switches.antt =====
-- internal/deploy/executor.go: the calls by which `Rollback` switches the link `current`.
use vcdeploy.Prelude.{
  ◌≡◌, refl, sym, ap, ◌∙◌, List, [], ◌∷◌, ◌++◌, Text, codes, arith, inl, inr, Bool-cases,
  trim_space, split_on,
}
use mathlib.Core.List.{append_assoc, append-nil}
use vcdeploy.Deploy.Orchestrator.Types.{ServiceReload}
use vcdeploy.Deploy.Symlink.Calls.{
  RunOptions, no_options, Outcome, failed, ran, CommandResult, Call, Runner, Cause, Res, ok, err, M,
  pure, ◌>>=◌, continue, tag, run, try_run, checked,
}
use vcdeploy.Deploy.Symlink.{slash, is_valid_service_name}
use vcdeploy.Deploy.Symlink.Strategy.{
  RollbackCommand, RollbackError, failing, run_rollback_hooks, switch_link, run_service_actions,
  go_back_to, go_back_in, rollback, select_release,
}

-- Where the computation succeeds, its value and the calls that it adds are so related.
pub record Does {E A : Type 0} (P : A → List Call → Type 0) (m : M E A) : Type 0 where
  pub at :
      (s : List Call) (a : A) (t : List Call)
      → m s ≡ (ok a, t)
      → (made : List Call) × (t ≡ s ++ made) × P a made

Does-pure : {E A : Type 0} (P : A → List Call → Type 0) (a : A) → P a [] → Does {E = E} P (pure a)
Does-pure P a p = record {
  at = λ s b t e.
      let same : b ≡ a = ground arith in
      let still : t ≡ s = ground arith in ([], rw still (sym (append-nil s)), rw same p);
}

Does-continue :
    {E A B : Type 0} (P : A → List Call → Type 0) (Q : A → B → List Call → Type 0)
    (R : B → List Call → Type 0) (f : A → M E B) (s : List Call)
    → ((a : A) → Does (Q a) (f a))
    → ((a : A) (b : B) (xs ys : List Call) → P a xs → Q a b ys → R b (xs ++ ys))
    → (p : Res E A × List Call)
    → ((a : A) (t : List Call) → p ≡ (ok a, t) → (made : List Call) × (t ≡ s ++ made) × P a made)
    → (b : B) (t : List Call) → continue f p ≡ (ok b, t)
    → (made : List Call) × (t ≡ s ++ made) × R b made
Does-continue P Q R f s k join (ok a, u) h b t e =
    let (xs, g, x) = h a u refl in
    let (ys, g', y) = (k a).at u b t e in
    (xs ++ ys, g' ∙ ap (λ l. l ++ ys) g ∙ append_assoc s xs ys, join a b xs ys x y)
Does-continue P Q R f s k join (err c, u) h b t e = absurd (ground arith)

pub Does->>= :
    {E A B : Type 0} (P : A → List Call → Type 0) (Q : A → B → List Call → Type 0)
    (R : B → List Call → Type 0) (m : M E A) (f : A → M E B)
    → Does P m
    → ((a : A) → Does (Q a) (f a))
    → ((a : A) (b : B) (xs ys : List Call) → P a xs → Q a b ys → R b (xs ++ ys))
    → Does R (m >>= f)
Does->>= P Q R m f h k join = record {
  at = λ s b t e. Does-continue P Q R f s k join (m s) (h.at s) b t e;
}

-- No relation at all.
abbrev pub Anything : {A : Type 0} → A → List Call → Type 0
Anything a made = Unit {0}

Does-tag :
    {A : Type 0} (P : A → List Call → Type 0) (s : List Call) (p : Res Cause A × List Call)
    → ((a : A) (t : List Call) → p ≡ (ok a, t) → (made : List Call) × (t ≡ s ++ made) × P a made)
    → (f : Cause → RollbackError) (a : A) (t : List Call) → tag f p ≡ (ok a, t)
    → (made : List Call) × (t ≡ s ++ made) × P a made
Does-tag P s (ok b, u) h f a t e = h a t (ground arith)
Does-tag P s (err c, u) h f a t e = absurd (ground arith)

pub Does-failing :
    {A : Type 0} (P : A → List Call → Type 0) (m : M Cause A) → Does P m → Does P (failing m)
Does-failing P m h = record { at = λ s a t e. Does-tag P s (m s) (h.at s) _ a t e }

-- The two calls that switch the link `current` of a base path to a release.
abbrev pub switch_to : Text → Text → List Call
switch_to base path =
    record {
      cmd =
          codes "ln -sfn " ++ (path ++ (codes " " ++ ((base ++ codes "/current") ++ codes ".tmp")));
      opts = no_options;
    }
    ∷ record {
      cmd =
          codes "mv -Tf "
          ++ (((base ++ codes "/current") ++ codes ".tmp")
              ++ (codes " " ++ (base ++ codes "/current")));
      opts = no_options;
    }
    ∷ []

-- The two calls, one after the other, are among the calls.
pub record SwitchesTo (base path : Text) (made : List Call) : Type 0 where
  pub before : List Call
  pub after : List Call
  pub calls : made ≡ before ++ (switch_to base path ++ after)

module _ (runner : Runner) where
  answered :
      (call : Call) (s : List Call) (o : Outcome) (r : CommandResult) (t : List Call)
      → checked runner o (s ++ call ∷ []) ≡ (ok r, t)
      → (made : List Call) × (t ≡ s ++ made) × (made ≡ call ∷ [])
  answered call s (failed e) r t h = absurd (ground arith)
  answered call s (ran q) r t h = (call ∷ [], ground arith, refl)

  -- A call whose error is returned adds itself.
  pub Does-run :
      (cmd : Text) (opts : RunOptions)
      → Does (λ r made. made ≡ record { cmd = cmd; opts = opts } ∷ []) (run runner cmd opts)
  unfolding run try_run
  Does-run cmd opts = record {
    at = λ s r t e. answered _ s (runner s (record { cmd = cmd; opts = opts })) r t e;
  }

  run_rollback_hooks-Does :
      (path : Text) (hooks : List Text) → Does Anything (run_rollback_hooks runner path hooks)
  unfolding run_rollback_hooks
  run_rollback_hooks-Does path [] = Does-pure Anything tt tt
  run_rollback_hooks-Does path (hook ∷ hooks) =
      Does->>= _ _ Anything _ _ (Does-run _ _) (λ r. run_rollback_hooks-Does path hooks)
        (λ a b xs ys p q. tt)

  run_service_actions-Does :
      (services : List ServiceReload) → Does Anything (run_service_actions runner services)
  unfolding run_service_actions
  run_service_actions-Does [] = Does-pure Anything tt tt
  run_service_actions-Does (svc ∷ rest) =
      elim (Bool-cases (is_valid_service_name (codes svc.service))) [
        | inl e ↦ rw e (
            Does->>= _ _ Anything _ _ (Does-run _ _) (λ r. run_service_actions-Does rest)
              (λ a b xs ys p q. tt))
        | inr e ↦ rw e (record { at = λ s a t h. absurd (ground arith) })
      ]

  switch_link-Does :
      (base path : Text)
      → Does
          (λ u made. made ≡ switch_to base path)
          (switch_link runner path (slash base (codes "current")))
  unfolding switch_link
  switch_link-Does base path =
      Does->>= _ (λ r u made. made ≡ _ ∷ []) _ _ _ (Does-run _ _)
        (λ r.
          Does->>= _ (λ q u made. made ≡ []) _ _ _ (Does-run _ _)
            (λ q. Does-pure (λ u made. made ≡ []) tt refl) (λ q u xs ys x y. rw (x, y) refl))
        (λ r u xs ys x y. rw (x, y) refl)

  SwitchesTo-prepend :
      (base path : Text) (xs ys : List Call)
      → SwitchesTo base path ys
      → SwitchesTo base path (xs ++ ys)
  SwitchesTo-prepend base path xs ys h = record {
    before = xs ++ h.before;
    after = h.after;
    calls = rw h.calls (sym (append_assoc xs h.before (switch_to base path ++ h.after)));
  }

  go_back_to-Does :
      (cmd : RollbackCommand) (target : Text)
      → Does (λ path made. SwitchesTo cmd.path path made) (go_back_to runner cmd target)
  unfolding go_back_to
  go_back_to-Does cmd target =
      let path = slash (slash cmd.path (codes "releases")) target in
      let Switching : Text → List Call → Type 0 = λ b made. SwitchesTo cmd.path b made in
      let Chosen : Text → List Call → Type 0 = λ b made. b ≡ path in
      Does->>= Anything (λ u. Switching) Switching _ _
        (Does-failing _ _ (run_rollback_hooks-Does path cmd.rollback_hooks))
        (λ u.
          Does->>= _ (λ v. Chosen) Switching _ _ (Does-failing _ _ (switch_link-Does cmd.path path))
            (λ v.
              Does->>= Anything (λ w. Chosen) Chosen _ _
                (Does-failing _ _ (run_service_actions-Does cmd.reload_services))
                (λ w. Does-pure Chosen path refl) (λ w b xs ys x y. y))
            (λ v b xs ys x y. rw (x, y) (record { before = []; after = ys; calls = refl })))
        (λ u b xs ys x y. SwitchesTo-prepend cmd.path b xs ys y)

  chosen-Does : {E A : Type 0} (r : Res E A) → Does Anything (λ s. (r, s))
  chosen-Does r = record { at = λ s a t e. ([], ground (arith, append-nil s), tt) }

  -- Where `rollback` succeeds, the switch to the path that it answers is among its calls.
  pub rollback-Does :
      (cmd : RollbackCommand)
      → Does (λ path made. SwitchesTo cmd.path path made) (rollback runner cmd)
  unfolding rollback go_back_in
  rollback-Does cmd =
      let Switching : Text → List Call → Type 0 = λ b made. SwitchesTo cmd.path b made in
      Does->>= _ (λ listed. Switching) Switching _ _ (Does-failing _ _ (Does-run _ no_options))
        (λ listed.
          Does->>= Anything (λ target. Switching) Switching _ _
            (chosen-Does
              (select_release cmd.release_number (split_on 10 (trim_space listed.stdout))))
            (λ target. go_back_to-Does cmd target)
            (λ target b xs ys x y. SwitchesTo-prepend cmd.path b xs ys y))
        (λ listed b xs ys x y. SwitchesTo-prepend cmd.path b xs ys y)
