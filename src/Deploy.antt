-- ===== src/Deploy.antt =====
-- internal/deploy: the orchestrator of deployments, and how a release is deployed.
pub mod Orchestrator
pub mod Symlink
