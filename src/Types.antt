-- ===== src/Types.antt =====
-- internal/types/interfaces.go: the chain-agnostic data that the engine passes between chain
-- processors, extractors, storage engines and progress trackers. `float64` is the parameter `F`;
-- times are seconds; the counters `int64` are natural numbers, which a run cannot take to 2^63.
-- Of a block and a transaction the model keeps the fields that the modelled code reads.
use chain_parse_service.Base.{ℕ, String, Option, List, []}
use chain_parse_service.Base.Int.{ℤ}
use chain_parse_service.Model.{Pool, Token, SwapRecord, Transaction, Liquidity, Reserve}

abbrev pub ethereum : String
ethereum = "ethereum"

abbrev pub bsc : String
bsc = "bsc"

abbrev pub solana : String
solana = "solana"

abbrev pub sui : String
sui = "sui"

-- `ethtypes.Log`: an address and topics are their bytes.
pub record EthLog : Type 0 where
  pub address : List ℕ
  pub topics : List (List ℕ)
  pub bytes : List ℕ
  pub index : ℕ

-- An element of a decoded JSON array of logs; `none` where a key is missing or of another type. A
-- `float64` index is the number that `uint(…)` makes of it.
pub record LogMap : Type 0 where
  pub log_index : Option ℕ
  pub log_index_snake : Option ℕ
  pub address : Option String
  pub topics : Option (List (Option String))
  pub bytes : Option String

pub data JsonLogs : Type 0 where
  json_array : List (Option LogMap) → JsonLogs
  json_other : JsonLogs

-- A list of texts in decoded JSON: `[]string`, or `[]interface{}`, where `none` is no text.
pub data Texts : Type 0 where
  texts : List String → Texts
  items : List (Option String) → Texts
  other_texts : Texts

-- The keys of a map that hold the log messages of a Solana transaction; `meta` is `some none` where
-- its value is no map.
pub record SolanaMeta : Type 0 where
  pub camel_case : Option Texts
  pub snake_case : Option Texts

pub record SolanaMap : Type 0 where
  pub log_messages : Option Texts
  pub log_messages_camel : Option Texts
  pub meta : Option (Option SolanaMeta)

-- `RawData interface{}` by its dynamic type; a receipt is its `Logs`, and `none` the nil pointer;
-- a map has the keys of an EVM transaction or those of a Solana transaction.
pub data RawData : Type 0 where
  raw_nil : RawData
  raw_map : Option JsonLogs → Option (Option (List EthLog)) → RawData
  raw_receipt : Option (List EthLog) → RawData
  raw_logs : List EthLog → RawData
  raw_solana : SolanaMap → RawData
  raw_other : RawData

pub record UnifiedTransaction : Type 0 where
  pub tx_hash : String
  pub block_number : Option ℤ
  pub tx_index : ℕ
  pub from_address : String
  pub to_address : String
  pub timestamp : ℕ
  pub raw_data : RawData

pub record UnifiedBlock : Type 0 where
  pub block_number : ℤ
  pub chain_type : String
  pub transactions : List UnifiedTransaction

pub record DexData (F : Type 0) : Type 0 where
  pub pools : List Pool
  pub transactions : List (Transaction F)
  pub liquidities : List (Liquidity F)
  pub reserves : List Reserve
  pub tokens : List Token
  pub swap_records : List SwapRecord

abbrev pub empty_dex_data : {F : Type 0} → DexData F
empty_dex_data = record {
  pools = [];
  transactions = [];
  liquidities = [];
  reserves = [];
  tokens = [];
  swap_records = [];
}

pub data ProcessingStatus : Type 0 where
  unset idle running paused failed stopped syncing catching_up : ProcessingStatus

pub record ProcessProgress (F : Type 0) : Type 0 where
  pub chain_type : String
  pub last_processed_block : ℤ
  pub last_update_time : ℕ
  pub total_transactions : ℕ
  pub total_events : ℕ
  pub processing_status : ProcessingStatus
  pub start_time : ℕ
  pub last_error_time : ℕ
  pub error_count : ℕ
  pub success_rate : F
