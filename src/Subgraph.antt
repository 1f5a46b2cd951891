-- ===== src/Subgraph.antt =====
-- internal/thegraph (sync.go, uniswap.go, mapping.go): the sync of Uniswap pools from a subgraph, page
-- by page, with a cursor that is saved after each page. What the subgraph answers is a function of
-- the cursor, and `Turn` says what fails while a page is processed. The write to Redis is best
-- effort and seen by nothing here.
pub mod Cursor
pub mod Mapping
pub mod Sync
mod Tests
