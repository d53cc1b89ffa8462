-- ===== src/Recipes/Resolver/Witnesses.antt =====
-- Runs of the resolver, and the theorems at concrete inputs.
use vcdeploy.Prelude.{
  sym, ◌≡◌, refl, true, false, none, some, [], ◌∷◌, inl, inr, arith, All, Table, Bool-cases,
  if◌then◌else◌, Text, codes, text_eq,
}
use vcdeploy.Recipes.Resolver.{
  PlaybookStep, Component, Components, Playbook, ResolvedPlaybook, ok, resolve_command, resolve,
  validate_for_deployment, approval_required, to_deploy_hooks, build_deploy_request,
}
use vcdeploy.Recipes.Resolver.Cleared.{IsCleared, resolve-IsCleared}
use vcdeploy.Recipes.Resolver.Hooks.{StoresNoShell, to_deploy_hooks_none}

abbrev migrate : Component
migrate = record {
  id = "c1";
  name = "migrate";
  component_type = "command";
  is_raw = true;
  commands = codes "rake {{task}}" ∷ [];
  dest_path = [];
}

abbrev components : Components
components n s v = if text_eq s (codes "migrate") then some migrate else none

abbrev step : PlaybookStep
step = record {
  order = 1;
  component_ref = codes "db:migrate:1.0.0";
  variable_bindings = [];
  condition = "";
  phase = "pre_deploy";
}

abbrev playbook : Playbook
playbook = record {
  id = "p1";
  name = "rails";
  version = "1.0.0";
  steps = step ∷ [];
  shared_dirs = [];
}

abbrev vars : Table Text
vars = ("task", codes "db:up") ∷ []

abbrev resolved : ResolvedPlaybook
resolved = record {
  playbook_id = "p1";
  playbook_name = "rails";
  playbook_version = "1.0.0";
  project_id = "shop";
  pre_deploy_steps =
      record {
        order = 1;
        phase = "pre_deploy";
        component_ref = codes "db:migrate:1.0.0";
        component_name = "migrate";
        component_type = "command";
        is_raw = true;
        content = codes "rake db:up";
        variables = vars;
        condition = "";
        target_path = [];
      }
      ∷ [];
  deploy_steps = [];
  post_deploy_steps = [];
  rollback_steps = [];
  shared_dirs = [];
}

-- The order of the variables matters where a value holds a placeholder.
order_matters :
    (resolve_command (("a", codes "{{b}}") ∷ ("b", codes "x") ∷ []) (codes "{{a}}") ≡ codes "x")
    × (resolve_command (("b", codes "x") ∷ ("a", codes "{{b}}") ∷ []) (codes "{{a}}")
        ≡ codes "{{b}}")
unfolding resolve_command
order_matters = (refl, refl)

resolves : resolve components "shop" (some playbook) (some vars) ≡ ok resolved
unfolding resolve text_eq
resolves = refl

refused :
    validate_for_deployment components (λ id. false) (some playbook)
    ≡ some (approval_required "migrate")
unfolding validate_for_deployment text_eq
refused = refl

validates : validate_for_deployment components (λ id. true) (some playbook) ≡ none
unfolding validate_for_deployment text_eq
validates = refl

built : (build_deploy_request resolved).pre_deploy_hooks ≡ codes "rake db:up" ∷ []
unfolding build_deploy_request
built = refl

-- A step of the phase `deploy` is in no hook.
deploy_steps_unused :
    build_deploy_request
      (record resolved { pre_deploy_steps = []; deploy_steps = resolved.pre_deploy_steps })
    ≡ build_deploy_request (record resolved { pre_deploy_steps = [] })
unfolding build_deploy_request
deploy_steps_unused = refl

no_shell : StoresNoShell components
no_shell n s v component h = elim (Bool-cases (text_eq s (codes "migrate"))) [
  | inl e ↦ let same : migrate ≡ component = ground arith in rw (sym same) refl
  | inr e ↦ absurd (ground arith)
]

resolve-IsCleared_example : All (IsCleared components (λ id. true)) playbook.steps
resolve-IsCleared_example =
    resolve-IsCleared components (λ id. true) "shop" playbook (some vars) resolved resolves
      validates

to_deploy_hooks_none_example :
    to_deploy_hooks resolved
    ≡ record { pre_deploy_hooks = []; post_deploy_hooks = []; rollback_hooks = [] }
to_deploy_hooks_none_example =
    to_deploy_hooks_none components no_shell "shop" playbook vars resolved resolves
