-- ===== src/App.antt =====
-- The service that installs a Runtime: app/runtime_install.go, runtime_install_events.go and
-- runtime_install_run.go, on the disk, the table of operations, the gate and the broker.
pub mod Node
pub mod Preflight
pub mod Transactions
pub mod Project
pub mod Start
pub mod Cancel
pub mod Stale
pub mod Worker
