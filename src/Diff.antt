-- ===== src/Diff.antt =====
-- internal/snapshotdiff: the difference of two snapshots' stores, and its application.
pub mod Compute
pub mod Apply
pub mod ChunkWriter
pub mod Wire
pub mod Parse
pub mod Stream
pub mod Extensions
pub mod Header
