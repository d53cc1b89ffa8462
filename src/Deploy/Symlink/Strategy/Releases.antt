-- ===== src/Deploy/Symlink/Strategy/Releases.antt =====
-- internal/deploy/executor.go: which release `Rollback` goes to.
use vcdeploy.Prelude.{
  ◌≡◌, refl, sym, ap, ◌∙◌, true, some, none, List, [], ◌∷◌, ◌++◌, Option, Text, codes, Any, Any-map,
  ℤ, pos, arith, inl, inr, Bool-cases, text_eq, trim_space, split_on, any, any_iff, second_to_last,
  leb_int, ◌↔◌, text_eq_iff,
}
use vcdeploy.Deploy.Symlink.Calls.{
  CommandResult, no_options, ran, Call, Runner, Res, ok, err, M, pure, ◌>>=◌, continue, run,
  try_run,
}
use vcdeploy.Deploy.Symlink.{slash}
use vcdeploy.Deploy.Symlink.Scan.{decimal_int}
use vcdeploy.Deploy.Symlink.Strategy.{
  RollbackCommand, select_among, select_release, rollback, failing, go_back_to, go_back_in,
  run_rollback_hooks, switch_link, run_service_actions, ls_releases,
}
use vcdeploy.Deploy.Symlink.Strategy.Switches.{SwitchesTo, rollback-Does}

second_to_last-Any :
    {A : Type 0} (xs : List A) (x : A) → second_to_last xs ≡ some x → Any (λ y. y ≡ x) xs
unfolding second_to_last
second_to_last-Any [] x e = absurd (ground arith)
second_to_last-Any (a ∷ []) x e = absurd (ground arith)
second_to_last-Any (a ∷ b ∷ []) x e = inl (ground arith)
second_to_last-Any (a ∷ b ∷ c ∷ xs) x e = inr (second_to_last-Any (b ∷ c ∷ xs) x e)

-- The release that was asked for, or the one before the last, is listed.
requested_or_previous :
    (n : ℤ) (releases : List Text) (o : Option Text) (t : Text)
    → second_to_last releases ≡ o
    → select_among n releases o ≡ ok t
    → Any (λ r. r ≡ t) releases
unfolding select_among
requested_or_previous n releases none t q e = absurd (ground arith)
requested_or_previous n releases (some previous) t q e = elim (Bool-cases (leb_int n (pos 0))) [
  | inl positive ↦ second_to_last-Any releases t (ground arith)
  | inr positive ↦ elim (Bool-cases (any (λ r. text_eq r (decimal_int n)) releases)) [
    | inl listed ↦
        (any_iff (λ r. text_eq r (decimal_int n)) (λ r. r ≡ t) releases
            (λ r. coe_iff r (ground arith))).0
          listed
    | inr listed ↦ absurd (ground arith)
  ]
]
  where
    coe_iff : (r : Text) → decimal_int n ≡ t → (text_eq r (decimal_int n) ≡ true) ↔ (r ≡ t)
    coe_iff r d = rw d (text_eq_iff r t)

-- The selected release is listed.
select_release-Any :
    (n : ℤ) (releases : List Text) (t : Text)
    → select_release n releases ≡ ok t
    → Any (λ r. r ≡ t) releases
unfolding select_release
select_release-Any n releases t e = requested_or_previous n releases _ t refl e

-- What the computation returns has the property.
pub record Gives {E A : Type 0} (P : A → Type 0) (m : M E A) : Type 0 where
  pub at : (s : List Call) (a : A) (t : List Call) → m s ≡ (ok a, t) → P a

Gives-continue :
    {E A B : Type 0} (P : B → Type 0) (p : Res E A × List Call) (f : A → M E B)
    → ((a : A) → p.0 ≡ ok a → Gives P (f a))
    → (b : B) (t : List Call) → continue f p ≡ (ok b, t)
    → P b
Gives-continue P (ok a, s) f h b t e = (h a refl).at s b t e
Gives-continue P (err c, s) f h b t e = absurd (ground arith)

Gives->>= :
    {E A B : Type 0} (P : B → Type 0) (m : M E A) (f : A → M E B)
    → ((a : A) → Gives P (f a))
    → Gives P (m >>= f)
Gives->>= P m f h = record { at = λ s b t e. Gives-continue P (m s) f (λ a q. h a) b t e }

Gives-pure : {E A : Type 0} (P : A → Type 0) (a : A) → P a → Gives {E = E} P (pure a)
Gives-pure P a p = record { at = λ s b t e. let q : b ≡ a = ground arith in rw q p }

module _ (runner : Runner) where
  go_back_to-Gives :
      (cmd : RollbackCommand) (target : Text)
      → Gives
          (λ path. path ≡ slash (slash cmd.path (codes "releases")) target)
          (go_back_to runner cmd target)
  unfolding go_back_to
  go_back_to-Gives cmd target =
      let P : Text → Type 0 = λ path. path ≡ slash (slash cmd.path (codes "releases")) target in
      let path = slash (slash cmd.path (codes "releases")) target in
      Gives->>= {A = Unit} P (failing (run_rollback_hooks runner path cmd.rollback_hooks)) _ (λ u.
        Gives->>= {A = Unit} P
          (failing (switch_link runner path (slash cmd.path (codes "current")))) _
          (λ v.
            Gives->>= {A = Unit} P (failing (run_service_actions runner cmd.reload_services)) _
              (λ w. Gives-pure P path refl)))

  -- The computation after the listing, which is an answer of the runner.
  go_back_in-listed :
      (cmd : RollbackCommand) (listed : CommandResult)
      → Gives
          (λ path.
            Any
              (λ r. path ≡ slash (slash cmd.path (codes "releases")) r)
              (split_on 10 (trim_space listed.stdout)))
          (go_back_in runner cmd listed)
  unfolding go_back_in
  go_back_in-listed cmd listed = record {
    at = λ s path t e.
        Gives-continue _
          (select_release cmd.release_number (split_on 10 (trim_space listed.stdout)), s)
          (go_back_to runner cmd)
          (λ target q. record {
            at = λ s' path' t' e'.
                let g = (go_back_to-Gives cmd target).at s' path' t' e' in
                Any-map (λ r. r ≡ target) (λ r. path' ≡ slash (slash cmd.path (codes "releases")) r)
                  (split_on 10 (trim_space listed.stdout)) (λ r d. rw d g)
                  (select_release-Any cmd.release_number (split_on 10 (trim_space listed.stdout))
                    target q);
          })
          path t e;
  }

  listing_ran :
      (cmd : Text) (s : List Call) (listed : CommandResult)
      → runner s (record { cmd = cmd; opts = no_options }) ≡ ran listed
      → failing (run runner cmd no_options) s
        ≡ (ok listed, s ++ record { cmd = cmd; opts = no_options } ∷ [])
  unfolding run try_run
  listing_ran cmd s listed l = rw l refl

  -- Where `rollback` succeeds, whatever release was asked for and whatever its hooks and its services
  -- did, the path that it returns is that of a release in the listing which its first command gave, and
  -- among its calls, one after the other, are the link of `current.tmp` to this path and the move of
  -- `current.tmp` onto `current`.
  pub rollback_is_listed :
      (cmd : RollbackCommand) (s : List Call) (listed : CommandResult)
      → runner s (record { cmd = ls_releases runner cmd.path; opts = no_options }) ≡ ran listed
      → (path : Text) (t : List Call) → rollback runner cmd s ≡ (ok path, t)
      → Any
          (λ r. path ≡ slash (slash cmd.path (codes "releases")) r)
          (split_on 10 (trim_space listed.stdout))
        × ((made : List Call) × (t ≡ s ++ made) × SwitchesTo cmd.path path made)
  unfolding rollback
  rollback_is_listed cmd s listed l path t e =
      let e' = sym (ap (λ p. continue (go_back_in runner cmd) p) (listing_ran _ s listed l)) ∙ e in
      ((go_back_in-listed cmd listed).at _ path t e', (rollback-Does runner cmd).at s path t e)
