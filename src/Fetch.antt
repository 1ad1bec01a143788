-- ===== src/Fetch.antt =====
-- internal/snapfetch: how a state-sync snapshot is found among peers and downloaded.
pub mod Metadata
pub mod Offers
pub mod Walk
pub mod Download
