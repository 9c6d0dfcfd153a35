-- ===== src/Operation.antt =====
-- The operations of the node service: domain/operation and persistence/sqlite/operations.go.
pub mod Types
pub mod Status
pub mod Constraints
pub mod Errors
pub mod Table
pub mod Clock
pub mod Queries
pub mod Lists
pub mod Installations
