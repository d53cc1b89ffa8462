-- ===== src/Provision.antt =====
-- internal/provision: the worker that provisions agents.
pub mod Worker
