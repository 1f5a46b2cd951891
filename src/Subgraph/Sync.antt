-- ===== src/Subgraph/Sync.antt =====
-- internal/thegraph: fetchV2PairsSince and FetchV3PoolsSince with the callback of syncVersion. A pass
-- ends where its list of turns ends: the process is killed there.
pub mod Stored
pub mod Resume
use chain_parse_service.Base.{
  ℕ, String, ◌≡◌, Bool, true, false, Option, none, some, List, [], ◌∷◌, ◌++◌, ltb, if◌then◌else◌,
  length,
}
use chain_parse_service.Base.Int.{ℤ}
use chain_parse_service.Base.Decimal.{int_or_zero}
use chain_parse_service.Model.{Pool, Token}
use chain_parse_service.Subgraph.Cursor.{format_cursor, resume_cursor}
use chain_parse_service.Subgraph.Mapping.{
  Entity, V2Pair, V3Pool, v2_entity, v3_entity, page_pools, page_tokens,
}

-- Whether the query, StoreDexData and SetCursor of one page succeed.
pub record Turn : Type 0 where
  pub query_ok : Bool
  pub store_ok : Bool
  pub cursor_ok : Bool

-- What is written durably: the pools and tokens of all stored pages, and the saved cursor.
pub record Store : Type 0 where
  pub pools : List Pool
  pub tokens : List Token
  pub cursor : Option String

pub data SyncResult : Type 0 where
  complete failed killed : SyncResult

-- One run of the process: whether the cursor can be read, and its turns.
pub record Pass : Type 0 where
  pub readable : Bool
  pub turns : List Turn

module _ {E : Type 0} ⦃e : Entity E⦄ where
  -- The cursor after a page: that of its last entity.
  unfoldable pub position : ℤ × String → List E → ℤ × String
  unfolding int_or_zero
  position c [] = c
  position c (x ∷ xs) = position (int_or_zero (e.created_at x), e.id x) xs

  -- StoreDexData and then SetCursor, whose error is only logged.
  unfoldable pub store_page : Store → List E → ℤ × String → Bool → Store
  unfolding format_cursor page_pools page_tokens
  store_page st page c cursor_ok = record {
    pools = st.pools ++ page_pools page;
    tokens = st.tokens ++ page_tokens page;
    cursor = if cursor_ok then some (format_cursor c.0 c.1) else st.cursor;
  }

module _ {E : Type 0} ⦃e : Entity E⦄ (first : ℕ) (query : ℤ → String → List E) where
  -- What is done with a page; `st'` is the store after it and `rest` what the next turns do.
  abbrev pub page_turn : Bool → Store → Store → List E → Store × SyncResult → Store × SyncResult
  page_turn store_ok st st' [] rest = (st, complete)
  page_turn store_ok st st' (x ∷ xs) rest =
      if store_ok
      then (if ltb (length (x ∷ xs)) first then (st', complete) else rest)
      else (st, failed)

  unfoldable pub sync_pages : List Turn → ℤ × String → Store → Store × SyncResult
  unfolding position store_page
  sync_pages [] c st = (st, killed)
  sync_pages (t ∷ ts) c st =
      let page = query c.0 c.1 in
      let c' = position c page in
      let st' = store_page st page c' t.cursor_ok in
      let rest = sync_pages ts c' st' in
      if t.query_ok then page_turn t.store_ok st st' page rest else (st, failed)

  unfoldable pub sync_version : ℤ → Store → Pass → Store × SyncResult
  unfolding sync_pages
  sync_version initial_since st p =
      sync_pages p.turns (resume_cursor initial_since p.readable st.cursor) st

  -- The passes that the operator starts, one after the other.
  unfoldable pub sync_versions : ℤ → Store → List Pass → Store
  unfolding sync_version
  sync_versions initial_since st [] = st
  sync_versions initial_since st (p ∷ ps) =
      sync_versions initial_since (sync_version initial_since st p).0 ps

abbrev pub page_size : ℕ
page_size = 1000

-- What `query` answers for the first `page_size` entities behind a cursor.
abbrev fetch_v2_pairs_since :
    (ℤ → String → List V2Pair) → List Turn → ℤ × String → Store → Store × SyncResult
fetch_v2_pairs_since query = sync_pages page_size query

abbrev fetch_v3_pools_since :
    (ℤ → String → List V3Pool) → List Turn → ℤ × String → Store → Store × SyncResult
fetch_v3_pools_since query = sync_pages page_size query
