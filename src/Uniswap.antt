-- ===== src/Uniswap.antt =====
-- internal/parser/dexs/eth/uniswap.go with the helpers of internal/parser/dexs/utils.go: the
-- extractor of Uniswap V2/V3 events. `float64` and `big.Float` are the record `Floats`, go-ethereum's
-- encodings the record `EthLib`, and the answers of Redis, of the RPC node and of the rate limiter
-- the record `Env`; all three are parameters, since their code is not in the repository.
pub mod Bytes
pub mod Text
pub mod Logs
pub mod State
pub mod Floats
pub mod Records
pub mod Swap
pub mod Warmup
pub mod Worker
pub mod Events
pub mod Extract
pub mod Examples
mod Tests
