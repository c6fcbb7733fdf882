-- ===== src/Opus.antt =====
-- core/sync/src/opus: an Opus Quad, which the program joins as rekordbox lighting.
pub mod Packets
pub mod Session
pub mod Tracker
mod Tests
