-- ===== src/Bridge.antt =====
-- apps/bridge/src: the headless bridge between the DJ network and the web app.
pub mod Base64
pub mod Counts
pub mod Ws
mod Tests
