-- ===== src/Prolink.antt =====
-- core/sync/src/prolink: the packets of Pro DJ Link, the join state machine and the device table.
pub mod Packets
pub mod Announce
pub mod Join
pub mod Updates
pub mod Devices
mod Tests
mod StateTests
