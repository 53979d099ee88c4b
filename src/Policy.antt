-- ===== src/Policy.antt =====
-- The request policy: a plugin process that accepts or rejects requests
-- (internal/requestpolicy/plugin.go).
pub mod Texts
pub mod Engine
pub mod Verdicts
pub mod Rejects
