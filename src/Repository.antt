-- ===== src/Repository.antt =====
-- repository/: the projections, the patches, the tracking of changes, the cache, and the live filters of the
-- repository layer.
pub mod Projection
pub mod Patch
pub mod Dirty
pub mod Live
pub mod Hash
pub mod Cache
pub mod Collection
