-- ===== src/Lib.antt =====
-- Verification of chain-parse-service, a service that reads blocks of several chains, extracts the
-- events of decentralised exchanges from them and stores them.
--
-- How the program works. For each chain the engine (internal/parser/engine) runs a loop: it asks
-- the progress tracker for the last processed block and the chain processor for the newest one,
-- fetches a range of blocks, hands them to every extractor that supports them, gives the results to
-- the storage engine, and saves the progress. An extractor (internal/parser/dexs) turns the logs of
-- a transaction into rows (internal/model). The Uniswap extractor knows a pool's tokens from its
-- caches; the swaps of a pool that it does not know go to the pending queue
-- (internal/pendingqueue), whose consumer resolves the pool over RPC and stores their rows later.
--
-- Where each part is modelled.
--   Base          shared notation: tests on numbers and texts, lists, Go maps (Base.Dict), integers
--                 (Base.Int)
--   Model, Types  internal/model and internal/types/interfaces.go: rows, blocks, DexData, progress
--   PendingQueue  internal/pendingqueue/memory.go: Enqueue is `enqueue`, processOnce is
--                 `process_once`, one turn of its loop over pools `process_one`
--   Engine        internal/parser/engine/engine.go: processChainBatch is `process_chain_batch`,
--                 extractDexData `extract_dex_data`; Engine.Batch has the runs of ticks of
--                 processChain, and Engine.Lifecycle registration, Start and Stop
--   Cache         internal/parser/dexs/cache.go: CacheManager, one function for each method;
--                 Cache.Batch has the caches by asset in a heap, and the pointers to them
--   Uniswap       internal/parser/dexs/eth/uniswap.go and internal/parser/dexs/utils.go: decoding
--                 (Bytes, Logs), caches (State), swaps (Swap), the consumer of the pending queue
--                 (Worker), the warm-up (Warmup), the other events (Events), ExtractDexData and
--                 SupportsBlock (Extract)
--   Scan          the loops that ExtractDexData and SupportsBlock of the extractors without state
--                 share
--   Bsc           internal/parser/dexs/bsc: PancakeSwap and FourMeme
--   Solana        internal/parser/dexs/solana_extractor.go (Borsh, Events) and
--                 internal/parser/dexs/solanadex (PumpFun, PumpSwap)
--   Factory       internal/parser/dexs/extractor_factory.go and internal/parser/dexs/extractor.go:
--                 the registry of extractors, and the extractor that asks all of them
--   Fallback      internal/storage/progress/fallback/fallback_progress.go: one function for each
--                 method, or for the methods that have one body
--   Progress      internal/parser/engine/progress.go: MemoryProgressTracker, one function for each
--                 method (Progress, Progress.History, Progress.Report); Progress.Calls has the
--                 sequences of calls
--   Subgraph      internal/thegraph: the saved cursor (Cursor), the rows of an entity (Mapping),
--                 and the paging loop with syncVersion as its callback (Sync)
--   Pipeline      the Uniswap extractor as an extractor of the engine
--   Influx        internal/storage/influxdb/synthetic_timestamp.go
--   Retry         internal/utils/retry.go
--   Common        internal/utils/common.go: fields of untyped maps, lists of texts, types of pools
--   Sui           internal/parser/dexs/suidex: the rows and the state (Rows), the events of a
--                 transaction (Events), prices and values (Values), the cache of tokens
--                 (Metadata), the two extractors (Cetus and Bluefin with CetusTypes, CetusPool and
--                 BluefinPool), and the loops that they share (Loop)
--
-- How state is modelled. A Go object is a record that its methods take and return. The clock is an
-- argument. The answers of code outside the repository (RPC nodes, Redis, SQL, go-ethereum's
-- encodings, floating point) are parameters: `Replies`, `Env`, `PoolReply`, `Answers`, `Attempt`,
-- `EthLib`, `Floats`, `Rates`, `Turn`, `SolanaLib`, `SolanaFloats`, `Numbers`, `SuiFloats`,
-- `FeeOf`, `ThroughJson`; an error is `none` or `false`. Calls that other goroutines make meanwhile
-- are lists of calls (`Round`). The range that a tick of the engine fetches and its
-- writes are a list (`Effect`) in the order of the calls; its reads are not in that list.
--
-- Bounds and fuel. Every loop of the modelled code runs over a list, or over the number of retries
-- left (Retry), so no definition has fuel. The paging loop runs over the list of its turns, which
-- ends where the process is killed; more turns than there are entities are enough. `big.Int` and
-- `int64` are the unbounded integers of Base.Int, since the model adds block numbers, counters and
-- lengths only, far below 2^63; where the code narrows a `big.Int` to 64 bits (`to_int64`), counts
-- calls without an end (Fallback) or multiplies (Influx), the arithmetic modulo 2^64 is written
-- out. The bytes of a log are a list of numbers.
--
-- What is not modelled. Logging; the HTTP API, the configuration and the start of the process,
-- which are glue; the storage engines, the cursor stores and the chain processors, which only call
-- databases, Redis and RPC nodes; the GraphQL client. Of the Uniswap extractor, the joining of
-- concurrent lookups by singleflight is left out, and of the factories the functions that register
-- the extractors of the repository. The Sui extractors have rows of their own (Sui.Rows), since
-- their amounts may be nil, so the engine is not instantiated with them.
pub mod Base
pub mod Bsc
pub mod Cache
pub mod Common
pub mod Engine
pub mod Factory
pub mod Fallback
pub mod Influx
pub mod Model
pub mod PendingQueue
pub mod Pipeline
pub mod Progress
pub mod Retry
pub mod Scan
pub mod Solana
pub mod Subgraph
pub mod Sui
pub mod Types
pub mod Uniswap
