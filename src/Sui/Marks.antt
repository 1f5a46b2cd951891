-- ===== src/Sui/Marks.antt =====
-- The tokens that the Sui extractors have in their caches and in the data of a pool.
use mathlib.Core.Path.{subst}
use chain_parse_service.Base.{
  String, ◌≡◌, refl, sym, ◌≢◌, Option, none, some, [], ◌∷◌, str_eq, str_eq_iff, if_elim, ltb,
}
use chain_parse_service.Base.Dict.{Dict, lookup, insert, lookup-insert}
use chain_parse_service.Base.Int.{ℤ}
use chain_parse_service.Sui.Rows.{
  Token, TokenCacheItem, Env, CoinMetadata, is_stable_coin, PoolEventData,
}
use chain_parse_service.Sui.Metadata.{
  of_chain, of_token_item, get_token_metadata_with_cache, second_token, then_second,
  get_tokens_metadata_with_cache,
}

-- The token is marked stable exactly if the quote assets rank it so.
abbrev pub Marked : Dict ℤ → Token → Type 0
Marked q t = t.is_stable ≡ is_stable_coin q t.addr

abbrev pub Holds : Dict ℤ → String → Option TokenCacheItem → Type 0
Holds q k none = Unit {0}
Holds q k (some item) = (item.token.addr ≡ k) × Marked q item.token

-- Each entry of the cache is the token of its key.
abbrev pub CacheValid : Dict ℤ → Dict TokenCacheItem → Type 0
CacheValid q cache = (k : String) → Holds q k (lookup k cache)

abbrev Answers : Dict ℤ → String → Option Token → Type 0
Answers q k none = Unit {0}
Answers q k (some t) = (t.addr ≡ k) × Marked q t

abbrev pub BothAnswer : Dict ℤ → String → String → Option (Token × Token) → Type 0
BothAnswer q k0 k1 none = Unit {0}
BothAnswer q k0 k1 (some (t0, t1)) = ((t0.addr ≡ k0) × Marked q t0) × ((t1.addr ≡ k1) × Marked q t1)

insert-CacheValid :
    (q : Dict ℤ) (k : String) (item : TokenCacheItem) (cache : Dict TokenCacheItem)
    → Holds q k (some item)
    → CacheValid q cache
    → CacheValid q (insert k item cache)
insert-CacheValid q k item cache h valid j =
    subst (Holds q j) (sym (lookup-insert k j item cache)) (
      if_elim (Holds q j) (str_eq k j) (some item) (lookup j cache)
        (λ e. subst (λ i. Holds q i (some item)) ((str_eq_iff k j).0 e) h) (λ _. valid j))

module _ {F : Type 0} (q : Dict ℤ) (env : Env F) where
  abbrev KeepsFor : String → Dict TokenCacheItem × Option Token → Type 0
  KeepsFor k (cache, t) = CacheValid q cache × Answers q k t

  of_chain-CacheValid :
      (k : String) (cache : Dict TokenCacheItem) (m : Option CoinMetadata)
      → CacheValid q cache
      → KeepsFor k (of_chain q env k cache m)
  of_chain-CacheValid k cache none valid = (valid, tt)
  of_chain-CacheValid k cache (some m) valid =
      (insert-CacheValid q k _ cache (refl, refl) valid, (refl, refl))

  of_token_item-CacheValid :
      (k : String) (cache : Dict TokenCacheItem) (item : Option TokenCacheItem)
      → CacheValid q cache
      → Holds q k item
      → KeepsFor k (of_token_item q env k cache item)
  of_token_item-CacheValid k cache none valid h =
      of_chain-CacheValid k cache (env.get_token k) valid
  of_token_item-CacheValid k cache (some item) valid h =
      if_elim (KeepsFor k) (ltb env.now item.expires_at) (cache, some item.token)
        (of_chain q env k cache (env.get_token k)) (λ _. (valid, h))
        (λ _. of_chain-CacheValid k cache (env.get_token k) valid)

  get_token_metadata-CacheValid :
      (k : String) (cache : Dict TokenCacheItem)
      → CacheValid q cache
      → KeepsFor k (get_token_metadata_with_cache q env k cache)
  unfolding get_token_metadata_with_cache
  get_token_metadata-CacheValid k cache valid =
      of_token_item-CacheValid k cache (lookup k cache) valid (valid k)

  abbrev pub KeepsBoth : String → String → Dict TokenCacheItem × Option (Token × Token) → Type 0
  KeepsBoth k0 k1 (cache, ts) = CacheValid q cache × BothAnswer q k0 k1 ts

  second_token-CacheValid :
      (k0 k1 : String) (t0 : Token) (r : Dict TokenCacheItem × Option Token)
      → (t0.addr ≡ k0) × Marked q t0
      → KeepsFor k1 r
      → KeepsBoth k0 k1 (second_token t0 r)
  second_token-CacheValid k0 k1 t0 (cache, none) h v = (v.0, tt)
  second_token-CacheValid k0 k1 t0 (cache, some t1) h v = (v.0, (h, v.1))

  then_second-CacheValid :
      (k0 k1 : String) (r : Dict TokenCacheItem × Option Token)
      → KeepsFor k0 r
      → KeepsBoth k0 k1 (then_second q env k1 r)
  then_second-CacheValid k0 k1 (cache, none) v = (v.0, tt)
  then_second-CacheValid k0 k1 (cache, some t0) v =
      second_token-CacheValid k0 k1 t0 (get_token_metadata_with_cache q env k1 cache) v.1
        (get_token_metadata-CacheValid k1 cache v.0)

  pub get_tokens_metadata-CacheValid :
      (k0 k1 : String) (cache : Dict TokenCacheItem)
      → CacheValid q cache
      → KeepsBoth k0 k1 (get_tokens_metadata_with_cache q env k0 k1 cache)
  unfolding get_tokens_metadata_with_cache
  get_tokens_metadata-CacheValid k0 k1 cache valid =
      then_second-CacheValid k0 k1 (get_token_metadata_with_cache q env k0 cache)
        (get_token_metadata-CacheValid k0 cache valid)

-- The data of a pool has its two tokens, which are marked, and its reserve.
abbrev pub PoolValid : Dict ℤ → PoolEventData → Type 0
PoolValid q p =
    (t0 t1 : Token) × (p.tokens ≡ t0 ∷ t1 ∷ [])
    × (p.pool.tokens ≡ (0, t0.addr) ∷ (1, t1.addr) ∷ [])
    × (p.reserve.addr ≡ p.pool.addr)
    × (t0.addr ≢ "")
    × (t1.addr ≢ "")
    × Marked q t0
    × Marked q t1
