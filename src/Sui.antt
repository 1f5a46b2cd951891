-- ===== src/Sui.antt =====
-- internal/parser/dexs/suidex: the extractors for Cetus and Bluefin.
pub mod Rows
pub mod Values
pub mod Events
pub mod Metadata
pub mod CetusTypes
pub mod CetusPool
pub mod Cetus
pub mod BluefinPool
pub mod Bluefin
pub mod Loop
pub mod Filter
pub mod Marks
pub mod Collected
pub mod CetusKeeps
pub mod BluefinPoolKeeps
pub mod BluefinKeeps
mod Tests
pub mod Runs
pub mod Estimate
pub mod Staleness
