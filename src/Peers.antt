-- ===== src/Peers.antt =====
-- The parts that decide which peers are dialled, kept and dropped.
pub mod Manager
pub mod Watch
pub mod Banlist
