-- ===== src/Engine.antt =====
-- core/engine/src: the render half, and the control half's record of the steps it has queued.
pub mod Renderer
pub mod Queued
mod Tests
