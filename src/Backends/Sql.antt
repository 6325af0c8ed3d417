-- ===== src/Backends/Sql.antt =====
-- The columnar SQL backends: backends/sql/*.ts
pub mod Fragment
pub mod Dialect
pub mod Servers
pub mod Compile
pub mod Engines
pub mod Rows
pub mod Reads
pub mod Writes
pub mod Migrate
