-- ===== src/Sui/Rows.antt =====
-- internal/parser/dexs/suidex/bluefin.go: the data that both extractors collect and the state they
-- keep. The rows are those of internal/model with the fields that these extractors set: an amount
-- may be nil here, and the index of an event is read from a text.
use chain_parse_service.Base.{ℕ, ◌*◌, ◌^◌, String, Bool, Option, none, some, List, [], ◌∷◌, not}
use chain_parse_service.Base.Dict.{Dict, lookup}
use chain_parse_service.Base.Int.{ℤ, pos, ltb_ℤ}
use chain_parse_service.Common.{Field}
use chain_parse_service.Model.{Pool}

pub record Token : Type 0 where
  pub addr : String
  pub symbol : String
  pub decimals : ℤ
  pub name : String
  pub is_stable : Bool

-- `Extra` of a swap.
pub record SwapExtra : Type 0 where
  pub quote_addr : String
  pub kind : String
  pub token_decimals : ℤ

pub record Transaction (F : Type 0) : Type 0 where
  pub addr : String
  pub factory : String
  pub pool : String
  pub hash : String
  pub event_index : ℤ
  pub tx_index : ℕ
  pub block_number : ℤ
  pub time : ℕ
  pub from : String
  pub side : String
  pub amount : Option ℤ
  pub price : F
  pub value : F
  pub extra : Option SwapExtra

pub record Liquidity (F : Type 0) : Type 0 where
  pub addr : String
  pub factory : String
  pub pool : String
  pub hash : String
  pub from : String
  pub side : String
  pub amount : Option ℤ
  pub value : F
  pub time : ℕ
  pub key : String

-- The amounts of the tokens 0 and 1.
pub record Reserve : Type 0 where
  pub addr : String
  pub amount0 : ℤ
  pub amount1 : ℤ
  pub time : ℕ

pub record PoolEventData : Type 0 where
  pub pool : Pool
  pub tokens : List Token
  pub reserve : Reserve

pub record SwapEventData (F : Type 0) : Type 0 where
  pub pool : Pool
  pub tokens : List Token
  pub reserve : Reserve
  pub transactions : List (Transaction F)

pub record LiquidityEventData (F : Type 0) : Type 0 where
  pub pool : Pool
  pub tokens : List Token
  pub reserve : Reserve
  pub liquidities : List (Liquidity F)

-- `types.DexData`
pub record SuiData (F : Type 0) : Type 0 where
  pub pools : List Pool
  pub transactions : List (Transaction F)
  pub liquidities : List (Liquidity F)
  pub reserves : List Reserve
  pub tokens : List Token

abbrev pub empty_sui_data : {F : Type 0} → SuiData F
empty_sui_data = record {
  pools = [];
  transactions = [];
  liquidities = [];
  reserves = [];
  tokens = [];
}

-- What the RPC node answers, behind the Sui client: the type of an object and the fields of its
-- content (`none` is a nil map), and the metadata of a coin.
pub record SuiObject (F : Type 0) : Type 0 where
  pub object_type : String
  pub fields : Option (Dict (Field F))

pub record CoinMetadata : Type 0 where
  pub symbol : String
  pub decimals : ℤ
  pub name : String

-- The clock in nanoseconds and the client while one event is processed; `none` is an error.
pub record Env (F : Type 0) : Type 0 where
  pub now : ℕ
  pub get_object : String → Option (SuiObject F)
  pub get_token : String → Option CoinMetadata

pub record TokenCacheItem : Type 0 where
  pub token : Token
  pub expires_at : ℕ

pub record PoolCacheItem (F : Type 0) : Type 0 where
  pub object : SuiObject F
  pub expires_at : ℕ

abbrev pub pool_cache_ttl : ℕ
pool_cache_ttl = 60 * 10 ^ 9

abbrev pub token_cache_ttl : ℕ
token_cache_ttl = 3600 * 10 ^ 9

pub record CetusExtractor : Type 0 where
  pub token_cache : Dict TokenCacheItem
  pub quote_assets : Dict ℤ

pub record BluefinExtractor (F : Type 0) : Type 0 where
  pub token_cache : Dict TokenCacheItem
  pub pool_cache : Dict (PoolCacheItem F)
  pub quote_assets : Dict ℤ

abbrev pub stable_rank_threshold : ℤ
stable_rank_threshold = pos 90

abbrev pub short_coin_type : String
short_coin_type = "0x2::sui::SUI"

abbrev is_stable_rank : Option ℤ → Bool
is_stable_rank none = Bool.false
is_stable_rank (some rank) = not (ltb_ℤ rank stable_rank_threshold)

unfoldable pub is_stable_coin : Dict ℤ → String → Bool
unfolding lookup
is_stable_coin quote_assets addr = is_stable_rank (lookup addr quote_assets)

abbrev pub default_sui_quote_assets : Dict ℤ
default_sui_quote_assets =
    ("0xdba34672e30cb065b1f93e3ab55318768fd6fef66c15942c9f7cb846e2f900e7::usdc::USDC", pos 100)
    ∷ ("0xc060006111016b8a020ad5b33834984a437aaa7d3c74c18e09a95d48aceab08c::coin::COIN", pos 99)
    ∷ ("0x5d4b302506645c37ff133b98c4b50a5ae14841659738d6d733d59d0d217a93bf::coin::COIN", pos 98)
    ∷ []

-- SetQuoteAssets of either extractor: an empty map changes nothing.
abbrev pub set_quote_assets : Dict ℤ → Dict ℤ → Dict ℤ
set_quote_assets old [] = old
set_quote_assets old (a ∷ assets) = a ∷ assets

abbrev pub new_cetus_extractor : CetusExtractor
new_cetus_extractor = record { token_cache = []; quote_assets = default_sui_quote_assets }

abbrev pub new_bluefin_extractor : {F : Type 0} → BluefinExtractor F
new_bluefin_extractor = record {
  token_cache = [];
  pool_cache = [];
  quote_assets = default_sui_quote_assets;
}

abbrev pub set_cetus_assets : CetusExtractor → Dict ℤ → CetusExtractor
set_cetus_assets c assets = record c { quote_assets = set_quote_assets c.quote_assets assets }

abbrev pub set_bluefin_assets : {F : Type 0} → BluefinExtractor F → Dict ℤ → BluefinExtractor F
set_bluefin_assets b assets = record b { quote_assets = set_quote_assets b.quote_assets assets }
