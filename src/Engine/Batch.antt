-- ===== src/Engine/Batch.antt =====
-- One tick of processChainBatch and the runs of a chain's loop, by what is proved of them.
pub mod Range
pub mod Trace
pub mod Ticks
pub mod Coverage
pub mod Loss
pub mod Tests
