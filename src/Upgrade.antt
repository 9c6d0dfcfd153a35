-- ===== src/Upgrade.antt =====
-- The upgrade and rollback policy of a Runtime: runtime/hermes/upgrademanagement.
pub mod Patterns
pub mod Identity
pub mod Policy
pub mod Reasons
pub mod Assess
pub mod Plan
pub mod Rollback
