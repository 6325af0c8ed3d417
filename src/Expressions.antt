-- ===== src/Expressions.antt =====
-- The query language: expressions/*.ts and the node types of core/QueryPlan.ts.
pub mod Path
pub mod Compare
pub mod Plan
pub mod Dates
pub mod Values
pub mod Nodes
pub mod Wire
pub mod Aggregate
pub mod Window
