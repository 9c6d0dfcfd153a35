-- ===== src/Install.antt =====
-- services/node/internal/install: the transactional install of a Runtime generation and its
-- crash recovery.
pub mod Types
pub mod Records
pub mod Ids
pub mod Paths
pub mod Validate
pub mod Transaction
pub mod Pointer
pub mod Environment
pub mod Disk
pub mod Store
pub mod Seal
pub mod Sealing
pub mod Observe
pub mod Manager
pub mod Gc
pub mod Execute
pub mod Recover
pub mod Decide
