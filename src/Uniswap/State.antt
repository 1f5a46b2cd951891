-- ===== src/Uniswap/State.antt =====
-- internal/parser/dexs/eth/uniswap.go: the caches of the extractor and the lookups that go through
-- them: token metadata, pool tokens, lazy pools and the side of a swap. An extractor that gets its
-- collaborators by the `Set…` calls has them in its state (the pending queue) or in its `Env`.
use chain_parse_service.Base.{
  ℕ, String, Bool, ◌&&◌, not, Option, none, some, [], str_eq, if◌then◌else◌,
}
use chain_parse_service.Base.Dict.{Dict, lookup, insert}
use chain_parse_service.Base.Int.{ℤ, pos, negsuc, ltb_ℤ}
use chain_parse_service.Model.{Pool, PoolSource, Token, token_at}
use chain_parse_service.Types.{UnifiedTransaction}
use chain_parse_service.Cache
use chain_parse_service.Cache.{CacheManager}
use chain_parse_service.PendingQueue.{Memory}
use chain_parse_service.Uniswap.Text.{to_lower}

abbrev pub uniswap_v2_factory_addr : String
uniswap_v2_factory_addr = "0x5C69bEe701ef814a2B6a3EDD4B1652CB9cc5aA6f"

abbrev pub uniswap_v3_factory_addr : String
uniswap_v3_factory_addr = "0x1F98431c8aD98523631AE4a59f267346ea31F984"

pub record PoolMeta : Type 0 where
  pub token0 : String
  pub token1 : String

abbrev pub placeholder : PoolMeta
placeholder = record { token0 = ""; token1 = "" }

pub record UniswapExtractor : Type 0 where
  pub seen_pools : Dict PoolMeta
  pub token_cache : CacheManager Token
  pub pending_queue : Option Memory
  pub quote_assets : Dict ℤ

-- What a call of aggregate3 with decimals(), symbol() and name() comes to, decoded.
pub record TokenReply : Type 0 where
  pub decimals : Option ℤ
  pub symbol : Option String
  pub name : Option String

-- What Redis has (dexcache.GetToken, dexcache.GetPool), and the RPC node behind the rate limiter.
pub record Redis : Type 0 where
  pub get_token : String → Option Token
  pub get_pool : String → Option Pool

pub record EthClient : Type 0 where
  pub rate_ok : Bool
  pub call_token : String → TokenReply

-- The clock and the clients while one log is processed; `none` is a client that is not wired.
pub record Env : Type 0 where
  pub now : ℕ
  pub redis : Option Redis
  pub eth_client : Option EthClient

abbrev pub redis_token : Option Redis → String → Option Token
redis_token none addr = none
redis_token (some r) addr = r.get_token addr

abbrev pub redis_pool : Option Redis → String → Option Pool
redis_pool none addr = none
redis_pool (some r) addr = r.get_pool addr

unfoldable pub cache_token : UniswapExtractor → Env → String → Token → UniswapExtractor
cache_token u env addr token = record u { token_cache = Cache.set u.token_cache env.now addr token }

abbrev decimals_of_redis :
    UniswapExtractor → Env → String → Option Token → UniswapExtractor × Option ℤ
decimals_of_redis u env addr none = (u, none)
decimals_of_redis u env addr (some t) = (cache_token u env addr t, some t.decimals)

abbrev decimals_of_cache :
    UniswapExtractor → Env → String → Option Token → UniswapExtractor × Option ℤ
decimals_of_cache u env addr (some t) = (u, some t.decimals)
decimals_of_cache u env addr none = decimals_of_redis u env addr (redis_token env.redis addr)

unfoldable pub cached_token_decimals : UniswapExtractor → Env → String → UniswapExtractor × Option ℤ
unfolding cache_token
cached_token_decimals u env addr =
    decimals_of_cache u env addr (Cache.get u.token_cache env.now addr)

abbrev pub default_token : String → Token
default_token addr = record { addr = addr; name = ""; symbol = ""; decimals = pos 18 }

abbrev or_else {ℓ} : {A : Type ℓ} → A → Option A → A
or_else d none = d
or_else d (some a) = a

unfoldable pub token_of_reply : Token → TokenReply → Token
token_of_reply t r = record t {
  decimals = or_else t.decimals r.decimals;
  symbol = or_else t.symbol r.symbol;
  name = or_else t.name r.name;
}

abbrev token_of_chain : Option EthClient → String → Token
token_of_chain none addr = default_token addr
token_of_chain (some c) addr =
    if c.rate_ok
    then token_of_reply (default_token addr) (c.call_token addr)
    else default_token addr

abbrev token_of_redis : Env → String → Option Token → Token
token_of_redis env addr (some t) = t
token_of_redis env addr none = token_of_chain env.eth_client addr

abbrev meta_of_cache : UniswapExtractor → Env → String → Option Token → UniswapExtractor × Token
meta_of_cache u env addr (some t) = (u, t)
meta_of_cache u env addr none =
    let t = token_of_redis env addr (redis_token env.redis addr) in (cache_token u env addr t, t)

-- fetchTokenMeta with resolveTokenMeta: memory, Redis, the chain, and 18 decimals by default.
-- Whatever is found is cached; the write back to Redis is seen in the `Env` of later calls.
unfoldable pub fetch_token_meta : UniswapExtractor → Env → String → UniswapExtractor × Token
unfolding cache_token token_of_reply
fetch_token_meta u env addr = meta_of_cache u env addr (Cache.get u.token_cache env.now addr)

abbrev pub is_resolved : PoolMeta → Bool
is_resolved m = not (str_eq m.token0 "") && not (str_eq m.token1 "")

abbrev pub pool_of_redis :
    UniswapExtractor → String → Option Pool → UniswapExtractor × Option PoolMeta
pool_of_redis u addr none = (u, none)
pool_of_redis u addr (some p) =
    let m : PoolMeta = record { token0 = token_at 0 p.tokens; token1 = token_at 1 p.tokens } in
    if is_resolved m
    then (record u { seen_pools = insert addr m u.seen_pools }, some m)
    else (u, none)

abbrev pool_of_seen :
    UniswapExtractor → Env → String → Option PoolMeta → UniswapExtractor × Option PoolMeta
pool_of_seen u env addr none = pool_of_redis u addr (redis_pool env.redis addr)
pool_of_seen u env addr (some m) =
    if is_resolved m then (u, some m) else pool_of_redis u addr (redis_pool env.redis addr)

unfoldable pub resolve_pool_tokens :
    UniswapExtractor → Env → String → UniswapExtractor × Option PoolMeta
resolve_pool_tokens u env addr = pool_of_seen u env addr (lookup addr u.seen_pools)

abbrev lazy_of_seen :
    UniswapExtractor
    → String
    → String
    → String
    → UnifiedTransaction
    → Option PoolMeta
    → UniswapExtractor × Option Pool
lazy_of_seen u addr factory protocol tx (some _) = (u, none)
lazy_of_seen u addr factory protocol tx none = (
  record u { seen_pools = insert addr placeholder u.seen_pools },
  some (record {
    addr = addr;
    factory = factory;
    protocol = protocol;
    tokens = [];
    fee = pos 0;
    source = PoolSource.unset;
    extra = some (record { hash = tx.tx_hash; from = tx.from_address; time = tx.timestamp });
  }),
)

unfoldable pub lazy_pool :
    UniswapExtractor
    → String
    → String
    → String
    → UnifiedTransaction
    → UniswapExtractor × Option Pool
lazy_pool u addr factory protocol tx =
    lazy_of_seen u addr factory protocol tx (lookup addr u.seen_pools)

-- GetQuoteAssetRank (base_extractor.go): -1 where the asset is unknown.
abbrev rank_or : Option ℤ → ℤ
rank_or none = negsuc 0
rank_or (some r) = r

unfoldable pub get_quote_asset_rank : UniswapExtractor → String → ℤ
get_quote_asset_rank u addr = rank_or (lookup addr u.quote_assets)

abbrev pub is_quote : ℤ → Bool
is_quote r = not (ltb_ℤ r (pos 0))

unfoldable pub side_of_ranks : ℤ → ℤ → String
side_of_ranks rank_in rank_out =
    if is_quote rank_out && not (is_quote rank_in)
    then "sell"
    else if is_quote rank_in && not (is_quote rank_out)
    then "buy"
    else if is_quote rank_in && is_quote rank_out
    then (if ltb_ℤ rank_out rank_in then "buy" else "sell")
    else "swap"

unfoldable pub determine_side : UniswapExtractor → String → String → String
unfolding side_of_ranks get_quote_asset_rank
determine_side u token_in token_out =
    side_of_ranks (get_quote_asset_rank u (to_lower token_in))
      (get_quote_asset_rank u (to_lower token_out))
