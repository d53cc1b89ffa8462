-- ===== src/Recipes/Resolver/Hooks.antt =====
-- internal/services/recipes/resolver.go: the hooks that ToDeployHooks gives.
use vcdeploy.Prelude.{
  sym, String, ◌≡◌, refl, ap, ◌∙◌, false, Option, none, some, List, [], ◌∷◌, ◌++◌, inl, inr,
  Bool-cases, arith, All, Table, str_eq, Text, split_on,
}
use vcdeploy.Recipes.Resolver.{
  PlaybookStep, Component, Components, Playbook, ResolvedStep, ResolvedPlaybook, Resolved, ok, err,
  three_parts, resolved_step, step_from, add_step, started, resolve_step, resolve_steps, resolve,
  shell_contents, to_deploy_hooks, invalid_reference,
}

abbrev IsNoShell : ResolvedStep → Type 0
IsNoShell step = str_eq step.component_type "shell" ≡ false

record HasNoShell (r : ResolvedPlaybook) : Type 0 where
  pre : All IsNoShell r.pre_deploy_steps
  post : All IsNoShell r.post_deploy_steps
  back : All IsNoShell r.rollback_steps

All-snoc :
    (steps : List ResolvedStep) (s : ResolvedStep)
    → All IsNoShell steps
    → IsNoShell s
    → All IsNoShell (steps ++ s ∷ [])
All-snoc [] s h k = (k, tt)
All-snoc (x ∷ steps) s h k = (h.0, All-snoc steps s h.1 k)

add_step-HasNoShell :
    (s : ResolvedStep) (r : ResolvedPlaybook)
    → IsNoShell s
    → HasNoShell r
    → HasNoShell (add_step s r)
unfolding add_step
add_step-HasNoShell s r k h = elim (Bool-cases (str_eq s.phase "pre_deploy")) [
  | inl e ↦
      rw (e, add_step)
        (record { pre = All-snoc r.pre_deploy_steps s h.pre k; post = h.post; back = h.back })
  | inr e ↦ elim (Bool-cases (str_eq s.phase "deploy")) [
    | inl d ↦ rw (e, d, add_step) (record { pre = h.pre; post = h.post; back = h.back })
    | inr d ↦ elim (Bool-cases (str_eq s.phase "post_deploy")) [
      | inl p ↦
          rw (e, d, p, add_step)
            (record { pre = h.pre; post = All-snoc r.post_deploy_steps s h.post k; back = h.back })
      | inr p ↦ elim (Bool-cases (str_eq s.phase "rollback")) [
        | inl b ↦
            rw (e, d, p, b, add_step)
              (record { pre = h.pre; post = h.post; back = All-snoc r.rollback_steps s h.back k })
        | inr b ↦ rw (e, d, p, b, add_step) h
      ]
    ]
  ]
]

no_contents : (steps : List ResolvedStep) → All IsNoShell steps → shell_contents steps ≡ []
unfolding shell_contents
no_contents [] h = refl
no_contents (s ∷ steps) h = ground (arith, no_contents steps h.1, h.0)

-- No stored component is of the type `shell`.
abbrev pub StoresNoShell : Components → Type 0
StoresNoShell components =
    (n s v : Text) (component : Component)
    → components n s v ≡ some component
    → str_eq component.component_type "shell" ≡ false

module _ (components : Components) (types : StoresNoShell components) where
  step_from-IsNoShell :
      (step : PlaybookStep) (vars : Table Text) (n v w : Text) (o : Option Component)
      (s : ResolvedStep)
      → components n v w ≡ o
      → step_from step vars o ≡ ok s
      → IsNoShell s
  step_from-IsNoShell step vars n v w none s e h = absurd (ground arith)
  step_from-IsNoShell step vars n v w (some component) s e h =
      let same : resolved_step step vars component ≡ s = ground arith in
      ap (λ x. str_eq x.component_type "shell") (sym same) ∙ types n v w component e

  parts-IsNoShell :
      (step : PlaybookStep) (vars : Table Text) (parts : List Text) (s : ResolvedStep)
      → three_parts
          (λ n g v. step_from step vars (components n g v))
          (err (invalid_reference step.component_ref))
          parts
        ≡ ok s
      → IsNoShell s
  parts-IsNoShell step vars [] s h = absurd (ground arith)
  parts-IsNoShell step vars (a ∷ []) s h = absurd (ground arith)
  parts-IsNoShell step vars (a ∷ b ∷ []) s h = absurd (ground arith)
  parts-IsNoShell step vars (a ∷ b ∷ c ∷ []) s h =
      step_from-IsNoShell step vars a b c (components a b c) s refl h
  parts-IsNoShell step vars (a ∷ b ∷ c ∷ d ∷ parts) s h = absurd (ground arith)

  resolve_step-IsNoShell :
      (step : PlaybookStep) (vars : Table Text) (s : ResolvedStep)
      → resolve_step components step vars ≡ ok s
      → IsNoShell s
  unfolding resolve_step
  resolve_step-IsNoShell step vars s h =
      parts-IsNoShell step vars (split_on b':' step.component_ref) s h

  resolve_steps-HasNoShell :
      (steps : List PlaybookStep) (vars : Table Text) (r r' : ResolvedPlaybook)
      → HasNoShell r
      → resolve_steps components steps vars r ≡ ok r'
      → HasNoShell r'
  unfolding resolve_steps
  resolve_steps-HasNoShell [] vars r r' k h = let same : r ≡ r' = ground arith in rw (sym same) k
  resolve_steps-HasNoShell (step ∷ steps) vars r r' k h =
      add_first (λ s h k'. resolve_steps-HasNoShell steps vars (add_step s r) r' k' h)
        (resolve_step components step vars) refl h
    where
      add_first :
          ((s : ResolvedStep)
            → resolve_steps components steps vars (add_step s r) ≡ ok r'
            → HasNoShell (add_step s r)
            → HasNoShell r')
          → (x : Resolved ResolvedStep) → resolve_step components step vars ≡ x
          → elim x as (λ z. Resolved ResolvedPlaybook) [
            | err e ↦ err e
            | ok s ↦ resolve_steps components steps vars (add_step s r)
          ]
            ≡ ok r'
          → HasNoShell r'
      add_first rest (err e) p h = absurd (ground arith)
      add_first rest (ok s) p h =
          rest s h (add_step-HasNoShell s r (resolve_step-IsNoShell step vars s p) k)

  -- Where no stored component is of the type `shell`, a resolved playbook has no hooks, whatever its
  -- steps are.
  pub to_deploy_hooks_none :
      (project_id : String) (playbook : Playbook) (vars : Table Text) (r : ResolvedPlaybook)
      → resolve components project_id (some playbook) (some vars) ≡ ok r
      → to_deploy_hooks r
        ≡ record { pre_deploy_hooks = []; post_deploy_hooks = []; rollback_hooks = [] }
  unfolding resolve to_deploy_hooks
  to_deploy_hooks_none project_id playbook vars r h =
      let none_shell =
        resolve_steps-HasNoShell playbook.steps vars (started project_id playbook) r
          (record { pre = tt; post = tt; back = tt }) h in
      rw (no_contents r.pre_deploy_steps none_shell.pre) (
        rw (no_contents r.post_deploy_steps none_shell.post)
          (rw (no_contents r.rollback_steps none_shell.back) refl))
