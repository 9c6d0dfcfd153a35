-- ===== src/Install/Decide.antt =====
-- recovery_decide.go, in parts: the outcomes and shared tests, the decision for one open
-- transaction, the decision over all, and what is proved of it.
pub mod Outcome
pub mod Single
pub mod Recovery
pub mod Classify
pub mod Safety
pub mod Failing
pub mod Environment
