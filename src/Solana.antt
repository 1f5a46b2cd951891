-- ===== src/Solana.antt =====
-- internal/parser/dexs/solana_extractor.go and internal/parser/dexs/solanadex: events of Solana
-- programs. PumpFun and PumpSwap keep no state; their loops are those of Scan. Of a pool of PumpFun
-- the texts `Args` are left out.
pub mod Borsh
pub mod Events
pub mod PumpFun
pub mod PumpSwap
pub mod Index
pub mod RoundTrip
pub mod Examples
mod Tests
