-- ===== src/Bsc.antt =====
-- internal/parser/dexs/bsc: the extractors of PancakeSwap and FourMeme. They keep no state, and their
-- loops are those of Scan. Of a pool of
-- FourMeme, the texts `Args` are left out: its creator stands in `extra` too, its version is that
-- of its factory.
pub mod PancakeSwap
pub mod FourMeme
pub mod Index
pub mod Rows
mod Tests
