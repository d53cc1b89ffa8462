-- ===== src/Recipes.antt =====
-- internal/services/recipes: the recipes' components, and playbooks as deployments.
pub mod Approvals
pub mod Resolver
