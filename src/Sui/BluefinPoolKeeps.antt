-- ===== src/Sui/BluefinPoolKeeps.antt =====
-- What getPoolEventData of Bluefin keeps of a valid cache of tokens.
use chain_parse_service.Base.{
  String, ◌≡◌, refl, sym, ◌∙◌, ◌≢◌, ◌||◌, Option, none, some, [], ◌∷◌, arith, ltb, str_eq,
  ne_of_str_eq, if_elim,
}
use chain_parse_service.Base.Dict.{Dict, lookup}
use chain_parse_service.Base.Int.{ℤ}
use chain_parse_service.Common.{Numbers}
use chain_parse_service.Sui.Rows.{
  Token, PoolEventData, SuiObject, Env, BluefinExtractor, TokenCacheItem, PoolCacheItem,
}
use chain_parse_service.Sui.Values.{SuiFloats}
use chain_parse_service.Sui.Events.{SuiTransaction}
use chain_parse_service.Sui.Metadata.{get_tokens_metadata_with_cache}
use chain_parse_service.Sui.BluefinPool.{
  FeeOf, with_metadata, of_object, bluefin_pool_coin, cache_object, of_pool_item, get_pool_object,
}
use chain_parse_service.Sui.Marks.{CacheValid, KeepsBoth, PoolValid, get_tokens_metadata-CacheValid}

-- The extractor has these quote assets and a valid cache.
abbrev pub BluefinValid : {F : Type 0} → Dict ℤ → BluefinExtractor F → Type 0
BluefinValid q b = (b.quote_assets ≡ q) × CacheValid q b.token_cache

abbrev pub PoolOrNone : Dict ℤ → Option PoolEventData → Type 0
PoolOrNone q none = Unit {0}
PoolOrNone q (some p) = PoolValid q p

module _ {F : Type 0} (fl : SuiFloats F) (lib : Numbers F) (fee : FeeOf F) (b : BluefinExtractor F)
    (env : Env F) where
  abbrev q : Dict ℤ
  q = b.quote_assets

  abbrev pub KeepsPool : BluefinExtractor F × Option PoolEventData → Type 0
  KeepsPool r = BluefinValid q r.0 × PoolOrNone q r.1

  with_metadata-KeepsPool :
      (pool_id k0 k1 : String) (object : SuiObject F) (tx : SuiTransaction F)
      (r : Dict TokenCacheItem × Option (Token × Token))
      → k0 ≢ ""
      → k1 ≢ ""
      → KeepsBoth q env k0 k1 r
      → KeepsPool (with_metadata lib fee b pool_id object (k0, k1) tx r)
  with_metadata-KeepsPool pool_id k0 k1 object tx (cache, none) n0 n1 v = ((refl, v.0), tt)
  with_metadata-KeepsPool pool_id k0 k1 object tx (cache, some (m0, m1)) n0 n1 v =
      let ((e0, mark0), (e1, mark1)) = v.1 in
      (
        (refl, v.0),
        (
          m0,
          m1,
          refl,
          (λ i. (0, sym e0 i) ∷ (1, sym e1 i) ∷ []),
          refl,
          (λ z. n0 (sym e0 ∙ z)),
          (λ z. n1 (sym e1 ∙ z)),
          mark0,
          mark1,
        ),
      )

  pub of_object-KeepsPool :
      (pool_id : String) (tx : SuiTransaction F) (object : Option (SuiObject F))
      → CacheValid q b.token_cache
      → KeepsPool (of_object lib fee env pool_id tx (b, object))
  of_object-KeepsPool pool_id tx none valid = ((refl, valid), tt)
  of_object-KeepsPool pool_id tx (some object) valid =
      let (k0, k1) = bluefin_pool_coin object.object_type in
      if_elim KeepsPool (str_eq k0 "" || str_eq k1 "") (b, none)
        (with_metadata lib fee b pool_id object (k0, k1) tx
          (get_tokens_metadata_with_cache q env k0 k1 b.token_cache))
        (λ _. ((refl, valid), tt))
        (λ h.
          with_metadata-KeepsPool pool_id k0 k1 object tx
            (get_tokens_metadata_with_cache q env k0 k1 b.token_cache)
            (ne_of_str_eq k0 "" (ground arith)) (ne_of_str_eq k1 "" (ground arith))
            (get_tokens_metadata-CacheValid q env k0 k1 b.token_cache valid))

  -- The cache of pool objects is all that a lookup of an object changes.
  abbrev pub SameTokens : BluefinExtractor F × Option (SuiObject F) → Type 0
  SameTokens r = (r.0.quote_assets ≡ q) × (r.0.token_cache ≡ b.token_cache)

  cache_object-SameTokens :
      (pool_id : String) (o : Option (SuiObject F)) → SameTokens (cache_object b env pool_id o)
  cache_object-SameTokens pool_id none = (refl, refl)
  cache_object-SameTokens pool_id (some object) = (refl, refl)

  of_pool_item-SameTokens :
      (pool_id : String) (item : Option (PoolCacheItem F))
      → SameTokens (of_pool_item b env pool_id item)
  of_pool_item-SameTokens pool_id none = cache_object-SameTokens pool_id (env.get_object pool_id)
  of_pool_item-SameTokens pool_id (some item) =
      if_elim SameTokens (ltb env.now item.expires_at) (b, some item.object)
        (cache_object b env pool_id (env.get_object pool_id)) (λ _. (refl, refl))
        (λ _. cache_object-SameTokens pool_id (env.get_object pool_id))

  pub get_pool_object-SameTokens : (pool_id : String) → SameTokens (get_pool_object b env pool_id)
  unfolding get_pool_object
  get_pool_object-SameTokens pool_id = of_pool_item-SameTokens pool_id (lookup pool_id b.pool_cache)
