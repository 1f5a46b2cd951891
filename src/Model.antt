-- ===== src/Model.antt =====
-- internal/model: the rows that the extractors produce and the storage engines persist. Amounts
-- (`*big.Int`) are integers, `map[int]string` is an association list, and `float64` is the
-- parameter `F`, since Go's floating point is not code of the repository. The texts `Key` and `Pos`
-- and the parts `Extra` of a transaction and of a liquidity event, which else repeat their fields, are
-- left out, and so are the fields of a pool and a token that the extractor leaves at zero, and
-- what FourMeme, PumpFun and PumpSwap put into Args and Extra of a pool and into Extra.QuoteAddr of a
-- transaction, which nothing that is modelled reads.
use chain_parse_service.Base.{ℕ, String, Option, List, [], ◌∷◌, ◌==◌, if◌then◌else◌}
use chain_parse_service.Base.Int.{ℤ}

pub data SwapRecordRole : Type 0 where
  role_token0 role_token1 : SwapRecordRole

pub data SwapRecordSide : Type 0 where
  side_in side_out : SwapRecordSide

pub data PoolSource : Type 0 where
  unset onchain thegraph : PoolSource

pub record PoolExtra : Type 0 where
  pub hash : String
  pub from : String
  pub time : ℕ

pub record Pool : Type 0 where
  pub addr : String
  pub factory : String
  pub protocol : String
  pub tokens : List (ℕ × String)
  pub fee : ℤ
  pub source : PoolSource
  pub extra : Option PoolExtra

-- `pool.Tokens[i]`: the empty text where the key is missing.
unfoldable pub token_at : ℕ → List (ℕ × String) → String
token_at i [] = ""
token_at i ((j, t) ∷ ts) = if j == i then t else token_at i ts

pub record Token : Type 0 where
  pub addr : String
  pub name : String
  pub symbol : String
  pub decimals : ℤ

pub record SwapRecord : Type 0 where
  pub token_addr : String
  pub pool_addr : String
  pub protocol : String
  pub role : SwapRecordRole
  pub side : SwapRecordSide
  pub tx_hash : String
  pub raw_amount : ℤ
  pub token_decimals : Option ℤ
  pub paired_token_addr : String
  pub block_number : ℤ
  pub block_time : ℕ
  pub log_index : ℕ

pub record Transaction (F : Type 0) : Type 0 where
  pub addr : String
  pub protocol : String
  pub router : String
  pub factory : String
  pub pool : String
  pub hash : String
  pub from : String
  pub side : String
  pub amount : ℤ
  pub price : F
  pub value : F
  pub time : ℕ
  pub event_index : ℕ
  pub tx_index : ℕ
  pub swap_index : ℕ
  pub block_number : ℤ

pub record Liquidity (F : Type 0) : Type 0 where
  pub addr : String
  pub router : String
  pub factory : String
  pub pool : String
  pub hash : String
  pub from : String
  pub side : String
  pub amount : ℤ
  pub value : F
  pub time : ℕ

pub record Reserve : Type 0 where
  pub addr : String
  pub protocol : String
  pub amounts : List (ℕ × ℕ)
  pub time : ℕ
