-- ===== src/Sequencer.antt =====
-- core/sequencer: the pattern, the event ring and the scheduler.
pub mod Pattern
pub mod Event
pub mod Queue
pub mod Clock
pub mod Scheduler
mod Tests
