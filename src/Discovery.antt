-- ===== src/Discovery.antt =====
-- agent/internal/discovery and agent/internal/safety: what may be scanned.
pub mod Scope
pub mod Policy
