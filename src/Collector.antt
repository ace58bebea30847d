-- ===== src/Collector.antt =====
-- src/collector/: the deduplicating queue, the poll cycle and the watermarks.
pub mod Queue
pub mod Poller
pub mod BlockWalk
pub mod Processor
pub mod Handle
mod Tests
mod HandleTests
