-- ===== src/Install/Manager.antt =====
-- The installer's transitions: manager.go, publish.go, activate.go and environment_apply.go. The
-- failpoints of the tests are not modelled: a write that fails stands for an interruption there.
pub mod Persist
pub mod Activate
pub mod Publish
pub mod Reconcile
