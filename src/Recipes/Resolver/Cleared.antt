-- ===== src/Recipes/Resolver/Cleared.antt =====
-- internal/services/recipes/resolver.go: what ValidateForDeployment and Resolve together let through.
use vcdeploy.Prelude.{
  String, ◌≡◌, refl, Bool, true, Option, none, some, List, [], ◌∷◌, inl, inr, Bool-cases, arith,
  All, Table, Text, split_on,
}
use vcdeploy.Recipes.Resolver.{
  PlaybookStep, Component, Components, Playbook, ResolvedStep, ResolvedPlaybook, Resolved, ok, err,
  three_parts, step_from, is_cleared, add_step, started, resolve_step, resolve_steps, resolve,
  judge, validate_step, validate_steps, validate_for_deployment, invalid_reference, ResolveError,
}

module _ (components : Components) where
  -- The component that a step refers to.
  pub record RefersTo (step : PlaybookStep) (component : Component) : Type 0 where
    pub namespace : Text
    pub slug : Text
    pub version : Text
    pub parts : split_on b':' step.component_ref ≡ namespace ∷ slug ∷ version ∷ []
    pub found : components namespace slug version ≡ some component

  step_from-found :
      (step : PlaybookStep) (vars : Table Text) (o : Option Component) (s : ResolvedStep)
      → step_from step vars o ≡ ok s
      → (component : Component) × (o ≡ some component)
  step_from-found step vars none s h = absurd (ground arith)
  step_from-found step vars (some component) s h = (component, refl)

  resolved-RefersTo :
      (step : PlaybookStep) (vars : Table Text) (parts : List Text) (s : ResolvedStep)
      → split_on b':' step.component_ref ≡ parts
      → three_parts
          (λ n g v. step_from step vars (components n g v))
          (err (invalid_reference step.component_ref))
          parts
        ≡ ok s
      → (component : Component) × RefersTo step component
  resolved-RefersTo step vars [] s e h = absurd (ground arith)
  resolved-RefersTo step vars (a ∷ []) s e h = absurd (ground arith)
  resolved-RefersTo step vars (a ∷ b ∷ []) s e h = absurd (ground arith)
  resolved-RefersTo step vars (a ∷ b ∷ c ∷ []) s e h =
      let (component, found) = step_from-found step vars (components a b c) s h in
      (component, record { namespace = a; slug = b; version = c; parts = e; found = found })
  resolved-RefersTo step vars (a ∷ b ∷ c ∷ d ∷ parts) s e h = absurd (ground arith)

  resolve_step-RefersTo :
      (step : PlaybookStep) (vars : Table Text) (s : ResolvedStep)
      → resolve_step components step vars ≡ ok s
      → (component : Component) × RefersTo step component
  unfolding resolve_step
  resolve_step-RefersTo step vars s h =
      resolved-RefersTo step vars (split_on b':' step.component_ref) s refl h

  judged :
      (approved : String → Bool) (step : PlaybookStep) (component : Component)
      → RefersTo step component
      → validate_step components approved step ≡ none
      → is_cleared approved component ≡ true
  unfolding validate_step
  judged approved step component r h =
      let h' : judge components approved step.component_ref (some component) ≡ none =
        (rw (r.parts, r.found) at h) in
      elim (Bool-cases (is_cleared approved component)) [
        | inl e ↦ e
        | inr e ↦ absurd (ground arith)
      ]

  -- The step refers to a component that is not raw, or that is approved.
  abbrev pub IsCleared : (String → Bool) → PlaybookStep → Type 0
  IsCleared approved step =
      (component : Component) × RefersTo step component × (is_cleared approved component ≡ true)

  steps-IsCleared :
      (approved : String → Bool) (steps : List PlaybookStep) (vars : Table Text)
      (r r' : ResolvedPlaybook)
      → resolve_steps components steps vars r ≡ ok r'
      → validate_steps components approved steps ≡ none
      → All (IsCleared approved) steps
  unfolding resolve_steps validate_steps
  steps-IsCleared approved [] vars r r' h v = tt
  steps-IsCleared approved (step ∷ steps) vars r r' h v =
      check_step (λ s h v. steps-IsCleared approved steps vars (add_step s r) r' h v)
        (resolve_step components step vars) refl (validate_step components approved step) refl h v
    where
      check_step :
          ((s : ResolvedStep)
            → resolve_steps components steps vars (add_step s r) ≡ ok r'
            → validate_steps components approved steps ≡ none
            → All (IsCleared approved) steps)
          → (x : Resolved ResolvedStep) → resolve_step components step vars ≡ x
          → (y : Option ResolveError) → validate_step components approved step ≡ y
          → elim x as (λ z. Resolved ResolvedPlaybook) [
            | err e ↦ err e
            | ok s ↦ resolve_steps components steps vars (add_step s r)
          ]
            ≡ ok r'
          → elim y as (λ z. Option ResolveError) [
            | some e ↦ some e
            | none ↦ validate_steps components approved steps
          ]
            ≡ none
          → All (IsCleared approved) (step ∷ steps)
      check_step rest (err e) p y q h v = absurd (ground arith)
      check_step rest (ok s) p (some e) q h v = absurd (ground arith)
      check_step rest (ok s) p none q h v =
          let (component, refers) = resolve_step-RefersTo step vars s p in
          ((component, refers, judged approved step component refers q), rest s h v)

  -- Where the active playbook resolves to a deployment and passes the validation, each of its steps
  -- refers, by a reference of three parts, to a stored component, which is not raw or is approved.
  pub resolve-IsCleared :
      (approved : String → Bool) (project_id : String) (playbook : Playbook)
      (vars : Option (Table Text)) (r : ResolvedPlaybook)
      → resolve components project_id (some playbook) vars ≡ ok r
      → validate_for_deployment components approved (some playbook) ≡ none
      → All (IsCleared approved) playbook.steps
  unfolding resolve validate_for_deployment
  resolve-IsCleared approved project_id playbook none r h v = absurd (ground arith)
  resolve-IsCleared approved project_id playbook (some vars) r h v =
      steps-IsCleared approved playbook.steps vars (started project_id playbook) r h v
