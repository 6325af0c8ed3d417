-- ===== src/Backends.antt =====
-- The stores and the decorators: backends/**/*.ts.
pub mod Scan
pub mod Contract
pub mod Unique
pub mod Memory
pub mod Policy
pub mod Retry
pub mod Sql
pub mod Copy
