-- ===== src/Uniswap/Warmup.antt =====
-- internal/parser/dexs/eth/uniswap.go: WarmupPoolTokens and WarmupTokenMeta, which fill the caches
-- from storage before the engine starts. A Go map is visited in the order of the list.
use chain_parse_service.Base.{
  ℕ, String, ◌+◌, ◌≡◌, ◌||◌, Option, none, some, Option-cases, [], ◌∷◌, str_eq, str_eq_iff,
  if◌then◌else◌, arith,
}
use chain_parse_service.Base.Dict.{Dict, lookup, insert, NodupKeys, lookup-insert}
use chain_parse_service.Model.{Token}
use chain_parse_service.Cache
use chain_parse_service.Uniswap.State.{UniswapExtractor, PoolMeta}

-- LoadOrStore, where `found` is what the cache has.
abbrev store_pool : UniswapExtractor → String → PoolMeta → Option PoolMeta → UniswapExtractor × ℕ
store_pool u addr m (some _) = (u, 0)
store_pool u addr m none = (record u { seen_pools = insert addr m u.seen_pools }, 1)

unfoldable pub warm_pool : UniswapExtractor → String → PoolMeta → UniswapExtractor × ℕ
warm_pool u addr m =
    if str_eq m.token0 "" || str_eq m.token1 ""
    then (u, 0)
    else store_pool u addr m (lookup addr u.seen_pools)

unfoldable pub warmup_pool_tokens : UniswapExtractor → Dict PoolMeta → UniswapExtractor × ℕ
warmup_pool_tokens u [] = (u, 0)
warmup_pool_tokens u ((addr, m) ∷ pools) =
    let (u', here) = warm_pool u addr m in
    let (u'', rest) = warmup_pool_tokens u' pools in (u'', here + rest)

abbrev store_token : UniswapExtractor → ℕ → String → Token → Option Token → UniswapExtractor × ℕ
store_token u now addr t (some _) = (u, 0)
store_token u now addr t none = (record u { token_cache = Cache.set u.token_cache now addr t }, 1)

unfoldable pub warmup_token_meta : UniswapExtractor → ℕ → Dict Token → UniswapExtractor × ℕ
warmup_token_meta u now [] = (u, 0)
warmup_token_meta u now ((addr, t) ∷ tokens) =
    let (u', here) = store_token u now addr t (Cache.get u.token_cache now addr) in
    let (u'', rest) = warmup_token_meta u' now tokens in (u'', here + rest)

-- What the cache has for an address after a warm-up with one pool: `found` before, else the pool if
-- both its tokens are known.
abbrev pub warmed : Option PoolMeta → Option PoolMeta → Option PoolMeta
warmed (some m) _ = some m
warmed none none = none
warmed none (some m) = if str_eq m.token0 "" || str_eq m.token1 "" then none else some m

lookup-warm_pool :
    (u : UniswapExtractor) (addr k : String) (m : PoolMeta)
    → lookup k (warm_pool u addr m).0.seen_pools
      ≡ (if str_eq addr k then warmed (lookup k u.seen_pools) (some m) else lookup k u.seen_pools)
unfolding warm_pool
lookup-warm_pool u addr k m = ground (
  arith,
  Option-cases (lookup addr u.seen_pools),
  Option-cases (lookup k u.seen_pools),
  lookup-insert addr k m u.seen_pools,
  str_eq_iff addr k,
)

-- After the warm-up, the cache has for each address what it had before, and where it had nothing,
-- the stored pool if both its tokens are known.
pub lookup-warmup_pool_tokens :
    (u : UniswapExtractor) (pools : Dict PoolMeta) (k : String)
    → NodupKeys pools
    → lookup k (warmup_pool_tokens u pools).0.seen_pools
      ≡ warmed (lookup k u.seen_pools) (lookup k pools)
unfolding warmup_pool_tokens lookup
lookup-warmup_pool_tokens u [] k n = ground (arith, Option-cases (lookup k u.seen_pools))
lookup-warmup_pool_tokens u ((addr, m) ∷ pools) k n =
    let u' = (warm_pool u addr m).0 in
    ground (
      arith,
      lookup-warmup_pool_tokens u' pools k n.1,
      lookup-warm_pool u addr k m,
      n.0,
      str_eq_iff addr k,
      Option-cases (lookup k u.seen_pools),
      Option-cases (lookup k pools),
    )
