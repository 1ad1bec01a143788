-- ===== src/Serve.antt =====
-- internal/snapserve: the snapshots that malcom serves to other peers.
pub mod Store
pub mod Catalog
pub mod Answers
