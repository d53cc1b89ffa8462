-- ===== src/Webhooks.antt =====
-- internal/webhooks: what a webhook event sets off.
pub mod Processor
