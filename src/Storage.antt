-- ===== src/Storage.antt =====
-- internal/storage: the in-memory store.
pub mod Types
pub mod Users
pub mod Sessions
pub mod Writer
