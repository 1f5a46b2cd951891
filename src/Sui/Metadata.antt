-- ===== src/Sui/Metadata.antt =====
-- internal/parser/dexs/suidex: getTokenMetadataWithCache and getTokensMetadataWithCache, which are
-- the same in both extractors. They take the cache and return it.
use chain_parse_service.Base.{String, ◌+◌, Option, none, some, ltb, if◌then◌else◌}
use chain_parse_service.Base.Dict.{Dict, lookup, insert}
use chain_parse_service.Base.Int.{ℤ}
use chain_parse_service.Sui.Rows.{
  Token, TokenCacheItem, Env, CoinMetadata, token_cache_ttl, is_stable_coin,
}

abbrev pub token_of : Dict ℤ → String → CoinMetadata → Token
token_of quote_assets addr m = record {
  addr = addr;
  symbol = m.symbol;
  decimals = m.decimals;
  name = m.name;
  is_stable = is_stable_coin quote_assets addr;
}

abbrev pub second_token :
    Token → Dict TokenCacheItem × Option Token → Dict TokenCacheItem × Option (Token × Token)
second_token t0 (cache, none) = (cache, none)
second_token t0 (cache, some t1) = (cache, some (t0, t1))

module _ {F : Type 0} where
  abbrev pub of_chain :
      Dict ℤ
      → Env F
      → String
      → Dict TokenCacheItem
      → Option CoinMetadata
      → Dict TokenCacheItem × Option Token
  of_chain quote_assets env addr cache none = (cache, none)
  of_chain quote_assets env addr cache (some m) =
      let t = token_of quote_assets addr m in
      (insert addr (record { token = t; expires_at = env.now + token_cache_ttl }) cache, some t)

  abbrev pub of_token_item :
      Dict ℤ
      → Env F
      → String
      → Dict TokenCacheItem
      → Option TokenCacheItem
      → Dict TokenCacheItem × Option Token
  of_token_item quote_assets env addr cache none =
      of_chain quote_assets env addr cache (env.get_token addr)
  of_token_item quote_assets env addr cache (some item) =
      if ltb env.now item.expires_at
      then (cache, some item.token)
      else of_chain quote_assets env addr cache (env.get_token addr)

  unfoldable pub get_token_metadata_with_cache :
      Dict ℤ → Env F → String → Dict TokenCacheItem → Dict TokenCacheItem × Option Token
  unfolding lookup insert is_stable_coin
  get_token_metadata_with_cache quote_assets env addr cache =
      of_token_item quote_assets env addr cache (lookup addr cache)

  abbrev pub then_second :
      Dict ℤ
      → Env F
      → String
      → Dict TokenCacheItem × Option Token
      → Dict TokenCacheItem × Option (Token × Token)
  then_second quote_assets env token1 (cache, none) = (cache, none)
  then_second quote_assets env token1 (cache, some t0) =
      second_token t0 (get_token_metadata_with_cache quote_assets env token1 cache)

  unfoldable pub get_tokens_metadata_with_cache :
      Dict ℤ
      → Env F
      → String
      → String
      → Dict TokenCacheItem
      → Dict TokenCacheItem × Option (Token × Token)
  unfolding get_token_metadata_with_cache
  get_tokens_metadata_with_cache quote_assets env token0 token1 cache =
      then_second quote_assets env token1
        (get_token_metadata_with_cache quote_assets env token0 cache)
