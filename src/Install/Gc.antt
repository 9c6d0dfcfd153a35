-- ===== src/Install/Gc.antt =====
-- gc.go: which directories are kept, and the removal of the others. The hooks of the tests are not
-- modelled.
pub mod Retention
pub mod Collect
pub mod Safety
pub mod Latest
pub mod Retained
pub mod Pointer
