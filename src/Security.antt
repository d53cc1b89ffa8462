-- ===== src/Security.antt =====
-- internal/security: which commands may run, which hosts are trusted, and which paths are safe.
pub mod CommandValidator
pub mod HostKeys
pub mod SafePath
