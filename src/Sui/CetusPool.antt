-- ===== src/Sui/CetusPool.antt =====
-- internal/parser/dexs/suidex/cetus.go: getPoolEventData and the readers of fields that are only in
-- this file. A Sui object of the RPC node has its `Data` and `Content`.
use chain_parse_service.Base.{
  String, Bool, false, ◌||◌, Option, none, some, [], ◌∷◌, str_eq, if◌then◌else◌,
}
use chain_parse_service.Base.Dict.{Dict, lookup}
use chain_parse_service.Base.Int.{ℤ, pos}
use chain_parse_service.Common.{
  Field, text, int64, int, float64, bool, Numbers, get_string_field, or_zero,
}
use chain_parse_service.Model.{PoolSource}
use chain_parse_service.Sui.Rows.{
  Token, PoolEventData, SuiObject, Env, CetusExtractor, TokenCacheItem,
}
use chain_parse_service.Sui.Events.{Event, SuiTransaction, event_type_of}
use chain_parse_service.Sui.Metadata.{get_tokens_metadata_with_cache}
use chain_parse_service.Sui.CetusTypes.{
  EventKind, exact_kind, kind_by_name, kind_of, is_cetus_type, cetus_type_of, cetus_pool_coin,
  cetus_clmm_pool_addr,
}

abbrev both_parsed : Option ℤ → Option ℤ → ℤ × ℤ
both_parsed (some a) (some b) = (a, b)
both_parsed _ _ = (pos 0, pos 0)

module _ {F : Type 0} where
  unfoldable pub is_cetus_event : Event F → Bool
  unfolding event_type_of is_cetus_type
  is_cetus_event event = cetus_type_of (event_type_of event)

  unfoldable pub get_event_type : Event F → EventKind
  unfolding event_type_of exact_kind kind_by_name
  get_event_type event = kind_of (event_type_of event)

  abbrev pub nil_map : Option (Dict (Field F)) → Dict (Field F)
  nil_map none = []
  nil_map (some d) = d

  -- The caller ignores the error, which comes with two zeros.
  unfoldable pub cetus_pool_token_balances : Numbers F → SuiObject F → ℤ × ℤ
  unfolding get_string_field
  cetus_pool_token_balances lib object =
      let a = get_string_field (nil_map object.fields) "coin_a" in
      let b = get_string_field (nil_map object.fields) "coin_b" in
      if str_eq a "" || str_eq b ""
      then (pos 0, pos 0)
      else both_parsed (lib.set_string a) (lib.set_string b)

  abbrev strict_int : Numbers F → Option (Field F) → ℤ
  strict_int lib (some (int v)) = v
  strict_int lib (some (int64 v)) = v
  strict_int lib (some (float64 v)) = lib.to_int64 v
  strict_int lib (some (text s)) = or_zero (lib.parse_int s)
  strict_int lib _ = pos 0

  unfoldable pub cetus_int_field : Numbers F → Dict (Field F) → String → ℤ
  unfolding lookup
  cetus_int_field lib fields key = strict_int lib (lookup key fields)

  abbrev strict_bool : Option (Field F) → Bool
  strict_bool (some (bool b)) = b
  strict_bool _ = false

  -- getBoolField of Cetus, which reads no texts.
  unfoldable pub cetus_bool_field : Dict (Field F) → String → Bool
  unfolding lookup
  cetus_bool_field fields key = strict_bool (lookup key fields)

  abbrev pub pool_with :
      Numbers F
      → String
      → SuiObject F
      → String × String
      → SuiTransaction F
      → Token × Token
      → PoolEventData
  pool_with lib pool_id object (token0, token1) tx (m0, m1) =
      let (r0, r1) = cetus_pool_token_balances lib object in
      record {
        pool = record {
          addr = pool_id;
          factory = cetus_clmm_pool_addr;
          protocol = "cetus";
          tokens = (0, token0) ∷ (1, token1) ∷ [];
          fee = pos 0;
          source = PoolSource.unset;
          extra = none;
        };
        tokens = m0 ∷ m1 ∷ [];
        reserve = record { addr = pool_id; amount0 = r0; amount1 = r1; time = tx.base.timestamp };
      }

  abbrev pub with_metadata :
      Numbers F
      → CetusExtractor
      → String
      → SuiObject F
      → String × String
      → SuiTransaction F
      → Dict TokenCacheItem × Option (Token × Token)
      → CetusExtractor × Option PoolEventData
  with_metadata lib c pool_id object coins tx (cache, none) =
      (record c { token_cache = cache }, none)
  with_metadata lib c pool_id object coins tx (cache, some ms) =
      (record c { token_cache = cache }, some (pool_with lib pool_id object coins tx ms))

  abbrev pub of_object :
      Numbers F
      → CetusExtractor
      → Env F
      → String
      → SuiTransaction F
      → Option (SuiObject F)
      → CetusExtractor × Option PoolEventData
  of_object lib c env pool_id tx none = (c, none)
  of_object lib c env pool_id tx (some object) =
      let (token0, token1) = cetus_pool_coin object.object_type in
      if str_eq token0 "" || str_eq token1 ""
      then (c, none)
      else with_metadata lib c pool_id object (token0, token1) tx
          (get_tokens_metadata_with_cache c.quote_assets env token0 token1 c.token_cache)

  -- getPoolEventData; `none` is an error.
  unfoldable pub cetus_pool_event_data :
      Numbers F
      → CetusExtractor
      → Env F
      → String
      → SuiTransaction F
      → CetusExtractor × Option PoolEventData
  unfolding cetus_pool_coin get_tokens_metadata_with_cache cetus_pool_token_balances
  cetus_pool_event_data lib c env pool_id tx =
      if str_eq pool_id ""
      then (c, none)
      else of_object lib c env pool_id tx (env.get_object pool_id)
