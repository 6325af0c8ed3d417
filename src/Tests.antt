-- ===== src/Tests.antt =====
-- Concrete inputs of the theorems, over the integers.
pub mod Samples
mod Expressions
mod Backends
mod Sync
mod Transport
mod Sql
mod Migrations
mod Repository
