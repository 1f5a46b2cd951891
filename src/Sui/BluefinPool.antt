-- ===== src/Sui/BluefinPool.antt =====
-- internal/parser/dexs/suidex/bluefin.go: the types of events, the cache of pool objects and
-- getPoolEventData. A Sui object of the RPC node has its `Data` and `Content`.
use chain_parse_service.Base.{
  ◌+◌, ◌/◌, String, Bool, false, ◌||◌, Option, none, some, [], ◌∷◌, str_eq, if◌then◌else◌, ltb,
}
use chain_parse_service.Base.Dict.{Dict, lookup, insert}
use chain_parse_service.Base.Int.{ℤ, pos, pos_part, neg_part, ◌-ℤ◌}
use chain_parse_service.Base.Strings.{join}
use chain_parse_service.Common.{Field, text, float64, Numbers, extract_pool_tokens}
use chain_parse_service.Model.{PoolSource}
use chain_parse_service.Sui.Rows.{
  Token, PoolEventData, SuiObject, Env, BluefinExtractor, TokenCacheItem, PoolCacheItem,
  pool_cache_ttl,
}
use chain_parse_service.Sui.Events.{Event, SuiTransaction, event_type_of}
use chain_parse_service.Sui.Metadata.{get_tokens_metadata_with_cache}
use chain_parse_service.Sui.CetusTypes.{
  EventKind, swap, add_liquidity, remove_liquidity, pool_created, unknown, short_sui,
}

abbrev pub bluefin_amm_addr : String
bluefin_amm_addr = "0x3492c874c1e3b3e2984e8c41b589e642d4d0a5d6459e5a9cfc2d52fd7c89c267"

unfoldable pub is_bluefin_type : String → Bool
unfolding join
is_bluefin_type t =
    str_eq t (join bluefin_amm_addr "::events::PoolCreated")
    || (str_eq t (join bluefin_amm_addr "::events::LiquidityProvided")
        || (str_eq t (join bluefin_amm_addr "::events::LiquidityRemoved")
            || (str_eq t (join bluefin_amm_addr "::events::AssetSwap")
                || str_eq t (join bluefin_amm_addr "::events::FlashSwap"))))

abbrev pub bluefin_type_of : Option String → Bool
bluefin_type_of none = false
bluefin_type_of (some t) = is_bluefin_type t

unfoldable pub bluefin_kind : String → EventKind
unfolding join
bluefin_kind t =
    if str_eq t (join bluefin_amm_addr "::events::AssetSwap")
      || str_eq t (join bluefin_amm_addr "::events::FlashSwap")
    then swap
    else if str_eq t (join bluefin_amm_addr "::events::LiquidityProvided")
    then add_liquidity
    else if str_eq t (join bluefin_amm_addr "::events::LiquidityRemoved")
    then remove_liquidity
    else if str_eq t (join bluefin_amm_addr "::events::PoolCreated")
    then pool_created
    else unknown

abbrev pub bluefin_kind_of : Option String → EventKind
bluefin_kind_of none = unknown
bluefin_kind_of (some t) = bluefin_kind t

-- ExtractPoolCoin
unfoldable pub bluefin_pool_coin : String → String × String
unfolding extract_pool_tokens short_sui
bluefin_pool_coin coin_type =
    let (token0, token1) = extract_pool_tokens coin_type in (short_sui token0, short_sui token1)

-- What Bluefin asks of a float64 in the fee: `int(v / 100)`.
abbrev pub FeeOf : Type 0 → Type 0
FeeOf F = F → ℤ

-- The quotient by 100, towards zero.
abbrev hundredth : ℤ → ℤ
hundredth n = pos (pos_part n / 100) -ℤ pos (neg_part n / 100)

abbrev hundredth_or_zero : Option ℤ → ℤ
hundredth_or_zero none = pos 0
hundredth_or_zero (some n) = hundredth n

abbrev filled : String → Option String
filled s = if str_eq s "" then none else some s

abbrev both_parsed : (String → Option ℤ) → Option String → Option String → Option (ℤ × ℤ)
both_parsed parse (some a) (some b) = elim (parse a) [
  | none ↦ none
  | some x ↦ elim (parse b) [ none ↦ none | some y ↦ some (x, y) ]
]
both_parsed parse _ _ = none

abbrev pub or_zeros : Option (ℤ × ℤ) → ℤ × ℤ
or_zeros none = (pos 0, pos 0)
or_zeros (some r) = r

module _ {F : Type 0} where
  unfoldable pub is_bluefin_event : Event F → Bool
  unfolding event_type_of is_bluefin_type
  is_bluefin_event event = bluefin_type_of (event_type_of event)

  unfoldable pub bluefin_event_type : Event F → EventKind
  unfolding event_type_of bluefin_kind
  bluefin_event_type event = bluefin_kind_of (event_type_of event)

  abbrev filled_text : Option (Field F) → Option String
  filled_text (some (text s)) = filled s
  filled_text _ = none

  abbrev balances_of : Numbers F → Option (Dict (Field F)) → Option (ℤ × ℤ)
  balances_of lib none = none
  balances_of lib (some fields) =
      both_parsed lib.set_string (filled_text (lookup "coin_a" fields))
        (filled_text (lookup "coin_b" fields))

  unfoldable pub bluefin_pool_token_balances : Numbers F → SuiObject F → Option (ℤ × ℤ)
  unfolding lookup
  bluefin_pool_token_balances lib object = balances_of lib object.fields

  abbrev fee_of_field : Numbers F → FeeOf F → Option (Field F) → ℤ
  fee_of_field lib fee (some (text s)) = hundredth_or_zero (lib.parse_int s)
  fee_of_field lib fee (some (float64 v)) = fee v
  fee_of_field lib fee _ = pos 0

  abbrev fee_of_fields : Numbers F → FeeOf F → Option (Dict (Field F)) → ℤ
  fee_of_fields lib fee none = pos 0
  fee_of_fields lib fee (some fields) = fee_of_field lib fee (lookup "fee_rate" fields)

  unfoldable pub fee_bps : Numbers F → FeeOf F → SuiObject F → ℤ
  unfolding lookup ◌-ℤ◌
  fee_bps lib fee object = fee_of_fields lib fee object.fields

  abbrev pub cache_object :
      BluefinExtractor F
      → Env F
      → String
      → Option (SuiObject F)
      → BluefinExtractor F × Option (SuiObject F)
  cache_object b env pool_id none = (b, none)
  cache_object b env pool_id (some object) = (
    record b {
      pool_cache =
          insert pool_id (record { object = object; expires_at = env.now + pool_cache_ttl })
            b.pool_cache;
    },
    some object,
  )

  abbrev pub of_pool_item :
      BluefinExtractor F
      → Env F
      → String
      → Option (PoolCacheItem F)
      → BluefinExtractor F × Option (SuiObject F)
  of_pool_item b env pool_id none = cache_object b env pool_id (env.get_object pool_id)
  of_pool_item b env pool_id (some item) =
      if ltb env.now item.expires_at
      then (b, some item.object)
      else cache_object b env pool_id (env.get_object pool_id)

  unfoldable pub get_pool_object :
      BluefinExtractor F → Env F → String → BluefinExtractor F × Option (SuiObject F)
  unfolding lookup insert
  get_pool_object b env pool_id = of_pool_item b env pool_id (lookup pool_id b.pool_cache)

  abbrev pub pool_with :
      Numbers F
      → FeeOf F
      → String
      → SuiObject F
      → String × String
      → SuiTransaction F
      → Token × Token
      → PoolEventData
  pool_with lib fee pool_id object (token0, token1) tx (m0, m1) =
      let (r0, r1) = or_zeros (bluefin_pool_token_balances lib object) in
      record {
        pool = record {
          addr = pool_id;
          factory = bluefin_amm_addr;
          protocol = "bluefin";
          tokens = (0, token0) ∷ (1, token1) ∷ [];
          fee = fee_bps lib fee object;
          source = PoolSource.unset;
          extra = none;
        };
        tokens = m0 ∷ m1 ∷ [];
        reserve = record { addr = pool_id; amount0 = r0; amount1 = r1; time = tx.base.timestamp };
      }

  abbrev pub with_metadata :
      Numbers F
      → FeeOf F
      → BluefinExtractor F
      → String
      → SuiObject F
      → String × String
      → SuiTransaction F
      → Dict TokenCacheItem × Option (Token × Token)
      → BluefinExtractor F × Option PoolEventData
  with_metadata lib fee b pool_id object coins tx (cache, none) =
      (record b { token_cache = cache }, none)
  with_metadata lib fee b pool_id object coins tx (cache, some ms) =
      (record b { token_cache = cache }, some (pool_with lib fee pool_id object coins tx ms))

  abbrev pub of_object :
      Numbers F
      → FeeOf F
      → Env F
      → String
      → SuiTransaction F
      → BluefinExtractor F × Option (SuiObject F)
      → BluefinExtractor F × Option PoolEventData
  of_object lib fee env pool_id tx (b, none) = (b, none)
  of_object lib fee env pool_id tx (b, some object) =
      let (token0, token1) = bluefin_pool_coin object.object_type in
      if str_eq token0 "" || str_eq token1 ""
      then (b, none)
      else with_metadata lib fee b pool_id object (token0, token1) tx
          (get_tokens_metadata_with_cache b.quote_assets env token0 token1 b.token_cache)

  -- getPoolEventData; `none` is an error.
  unfoldable pub bluefin_pool_event_data :
      Numbers F
      → FeeOf F
      → BluefinExtractor F
      → Env F
      → String
      → SuiTransaction F
      → BluefinExtractor F × Option PoolEventData
  unfolding bluefin_pool_coin get_tokens_metadata_with_cache bluefin_pool_token_balances fee_bps
      get_pool_object
  bluefin_pool_event_data lib fee b env pool_id tx =
      if str_eq pool_id ""
      then (b, none)
      else of_object lib fee env pool_id tx (get_pool_object b env pool_id)
