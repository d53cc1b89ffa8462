-- ===== src/Recipes/Resolver.antt =====
-- internal/services/recipes/resolver.go: the steps of an active playbook as a deployment. The store's
-- components and approvals are arguments, as are the active playbook and its variables, which
-- activations.go finds; a map is visited in the order of its list.
mod Types
pub mod Cleared
pub mod Hooks
mod Witnesses
pub use Types.*
use vcdeploy.Prelude.{
  ℕ, zero, suc, ◌-◌, String, Bool, true, false, not, ◌&&◌, Option, none, some, List, [], ◌∷◌, ◌++◌,
  Table, insert, if◌then◌else◌, str_eq, Text, codes, has_prefix, text_eq, split_on, length, map,
}

-- `strings.ReplaceAll(s, old, new)` for an `old` that is not empty, after some codes that are passed.
unfoldable pub replace_all : Text → Text → ℕ → Text → Text
unfolding has_prefix
replace_all old new passed [] = []
replace_all old new (suc passed) (c ∷ s) = replace_all old new passed s
replace_all old new zero (c ∷ s) =
    let replaced = new ++ replace_all old new (length old - 1) s in
    let onward = c ∷ replace_all old new zero s in
    if has_prefix (c ∷ s) old then replaced else onward

-- The loop over the variables, for one command.
unfoldable pub resolve_command : List (String × Text) → Text → Text
unfolding replace_all
resolve_command [] cmd = cmd
resolve_command ((name, value) ∷ vars) cmd = resolve_command vars (
    replace_all (codes "${" ++ (codes name ++ codes "}")) value 0
      (replace_all (codes "{{" ++ (codes name ++ codes "}}")) value 0 cmd))

-- `strings.Join(lines, "\n")`
unfoldable pub join_lines : List Text → Text
join_lines [] = []
join_lines (l ∷ []) = l
join_lines (l ∷ m ∷ ls) = l ++ (b'\n' ∷ join_lines (m ∷ ls))

-- The copy of a map over another.
unfoldable pub override : Table Text → Table Text → Table Text
unfolding insert
override [] vars = vars
override ((k, v) ∷ bindings) vars = override bindings (insert k v vars)

-- The component of a reference `namespace:slug:version`.
abbrev pub Components : Type 0
Components = Text → Text → Text → Option Component

abbrev pub three_parts : {A : Type 0} → (Text → Text → Text → A) → A → List Text → A
three_parts f other (namespace ∷ slug ∷ version ∷ []) = f namespace slug version
three_parts f other parts = other

abbrev pub resolved_step : PlaybookStep → Table Text → Component → ResolvedStep
resolved_step step vars component =
    let variables = override step.variable_bindings vars in
    record {
      order = step.order;
      phase = step.phase;
      component_ref = step.component_ref;
      component_name = component.name;
      component_type = component.component_type;
      is_raw = component.is_raw;
      content = join_lines (map (resolve_command variables) component.commands);
      variables = variables;
      condition = step.condition;
      target_path =
          if str_eq component.component_type "file_op" && not (text_eq component.dest_path [])
          then component.dest_path
          else [];
    }

abbrev pub step_from : PlaybookStep → Table Text → Option Component → Resolved ResolvedStep
step_from step vars none = err (component_not_found step.component_ref)
step_from step vars (some component) = ok (resolved_step step vars component)

-- A resolved step in the list of its phase; one of another phase is dropped.
unfoldable pub add_step : ResolvedStep → ResolvedPlaybook → ResolvedPlaybook
add_step step r =
    if str_eq step.phase "pre_deploy"
    then record r { pre_deploy_steps = r.pre_deploy_steps ++ step ∷ [] }
    else if str_eq step.phase "deploy"
    then record r { deploy_steps = r.deploy_steps ++ step ∷ [] }
    else if str_eq step.phase "post_deploy"
    then record r { post_deploy_steps = r.post_deploy_steps ++ step ∷ [] }
    else if str_eq step.phase "rollback"
    then record r { rollback_steps = r.rollback_steps ++ step ∷ [] }
    else r

abbrev pub started : String → Playbook → ResolvedPlaybook
started project_id playbook = record {
  playbook_id = playbook.id;
  playbook_name = playbook.name;
  playbook_version = playbook.version;
  project_id = project_id;
  pre_deploy_steps = [];
  deploy_steps = [];
  post_deploy_steps = [];
  rollback_steps = [];
  shared_dirs = playbook.shared_dirs;
}

abbrev pub is_cleared : (String → Bool) → Component → Bool
is_cleared approved component = if component.is_raw then approved component.id else true

module _ (components : Components) where
  -- `resolveStep`
  unfoldable pub resolve_step : PlaybookStep → Table Text → Resolved ResolvedStep
  unfolding split_on override join_lines resolve_command
  resolve_step step vars =
      three_parts (λ n s v. step_from step vars (components n s v))
        (err (invalid_reference step.component_ref)) (split_on b':' step.component_ref)

  -- The loop of `Resolve`.
  unfoldable pub resolve_steps :
      List PlaybookStep → Table Text → ResolvedPlaybook → Resolved ResolvedPlaybook
  unfolding resolve_step add_step
  resolve_steps [] vars r = ok r
  resolve_steps (step ∷ steps) vars r = elim (resolve_step step vars) [
    | err e ↦ err e
    | ok s ↦ resolve_steps steps vars (add_step s r)
  ]

  abbrev pub with_variables : String → Playbook → Option (Table Text) → Resolved ResolvedPlaybook
  with_variables project_id playbook none = err variables_unresolved
  with_variables project_id playbook (some vars) =
      resolve_steps playbook.steps vars (started project_id playbook)

  -- `Resolve`
  unfoldable pub resolve :
      String → Option Playbook → Option (Table Text) → Resolved ResolvedPlaybook
  unfolding resolve_steps
  resolve project_id none vars = err no_active_playbook
  resolve project_id (some playbook) vars = with_variables project_id playbook vars

  -- One round of `ValidateForDeployment`: the error, or none.
  abbrev pub judge : (String → Bool) → Text → Option Component → Option ResolveError
  judge approved ref none = some (component_not_found ref)
  judge approved ref (some component) =
      if is_cleared approved component then none else some (approval_required component.name)

  unfoldable pub validate_step : (String → Bool) → PlaybookStep → Option ResolveError
  unfolding split_on
  validate_step approved step =
      three_parts (λ n s v. judge approved step.component_ref (components n s v)) none
        (split_on b':' step.component_ref)

  unfoldable pub validate_steps : (String → Bool) → List PlaybookStep → Option ResolveError
  unfolding validate_step
  validate_steps approved [] = none
  validate_steps approved (step ∷ steps) = elim (validate_step approved step) [
    | some e ↦ some e
    | none ↦ validate_steps approved steps
  ]

  -- `ValidateForDeployment`
  unfoldable pub validate_for_deployment : (String → Bool) → Option Playbook → Option ResolveError
  unfolding validate_steps
  validate_for_deployment approved none = some no_active_playbook
  validate_for_deployment approved (some playbook) = validate_steps approved playbook.steps

-- A loop of `ToDeployHooks`.
unfoldable pub shell_contents : List ResolvedStep → List Text
shell_contents [] = []
shell_contents (step ∷ steps) =
    let rest = shell_contents steps in
    if str_eq step.component_type "shell" then step.content ∷ rest else rest

-- `ToDeployHooks`
unfoldable pub to_deploy_hooks : ResolvedPlaybook → DeployHooks
unfolding shell_contents
to_deploy_hooks r = record {
  pre_deploy_hooks = shell_contents r.pre_deploy_steps;
  post_deploy_hooks = shell_contents r.post_deploy_steps;
  rollback_hooks = shell_contents r.rollback_steps;
}

-- A loop of `BuildDeployRequest`.
unfoldable pub contents : List ResolvedStep → List Text
unfolding text_eq
contents [] = []
contents (step ∷ steps) =
    let rest = contents steps in if not (text_eq step.content []) then step.content ∷ rest else rest

-- `BuildDeployRequest`, without what it copies from its configuration.
unfoldable pub build_deploy_request : ResolvedPlaybook → DeploymentRequest
unfolding contents
build_deploy_request r = record {
  playbook_id = r.playbook_id;
  playbook_name = r.playbook_name;
  playbook_version = r.playbook_version;
  pre_deploy_hooks = contents r.pre_deploy_steps;
  post_deploy_hooks = contents r.post_deploy_steps;
  rollback_hooks = contents r.rollback_steps;
  shared_dirs = r.shared_dirs;
}
