-- ===== src/Recipes/Resolver/Types.antt =====
-- internal/services/recipes/resolver.go and internal/storage: the data of the resolver.
use vcdeploy.Prelude.{ℕ, String, Bool, List, Table, Text}

-- `PlaybookStep`
pub record PlaybookStep : Type 0 where
  pub order : ℕ
  pub component_ref : Text
  pub variable_bindings : Table Text
  pub condition : String
  pub phase : String

-- `RecipeComponent`, the fields that the resolver reads.
pub record Component : Type 0 where
  pub id : String
  pub name : String
  pub component_type : String
  pub is_raw : Bool
  pub commands : List Text
  pub dest_path : Text

-- `Playbook`, the fields that the resolver reads.
pub record Playbook : Type 0 where
  pub id : String
  pub name : String
  pub version : String
  pub steps : List PlaybookStep
  pub shared_dirs : List String

pub record ResolvedStep : Type 0 where
  pub order : ℕ
  pub phase : String
  pub component_ref : Text
  pub component_name : String
  pub component_type : String
  pub is_raw : Bool
  pub content : Text
  pub variables : Table Text
  pub condition : String
  pub target_path : Text

pub record ResolvedPlaybook : Type 0 where
  pub playbook_id : String
  pub playbook_name : String
  pub playbook_version : String
  pub project_id : String
  pub pre_deploy_steps : List ResolvedStep
  pub deploy_steps : List ResolvedStep
  pub post_deploy_steps : List ResolvedStep
  pub rollback_steps : List ResolvedStep
  pub shared_dirs : List String

pub record DeployHooks : Type 0 where
  pub pre_deploy_hooks : List Text
  pub post_deploy_hooks : List Text
  pub rollback_hooks : List Text

pub data ResolveError : Type 0 where
  no_active_playbook variables_unresolved : ResolveError
  invalid_reference component_not_found : Text → ResolveError
  approval_required : String → ResolveError

pub data Resolved (A : Type 0) : Type 0 where
  ok : A → Resolved A
  err : ResolveError → Resolved A

-- `DeploymentRequest`, the fields that come from the playbook.
pub record DeploymentRequest : Type 0 where
  pub playbook_id : String
  pub playbook_name : String
  pub playbook_version : String
  pub pre_deploy_hooks : List Text
  pub post_deploy_hooks : List Text
  pub rollback_hooks : List Text
  pub shared_dirs : List String
