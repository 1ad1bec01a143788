-- ===== src/Import.antt =====
-- internal/snapshotimport: the parts of the importer that are modelled.
pub mod ChunkRing
pub mod SnapItem
pub mod Encoding
pub mod Nonces
pub mod Store
pub mod CommitInfo
pub mod Run
