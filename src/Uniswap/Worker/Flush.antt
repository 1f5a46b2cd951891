-- ===== src/Uniswap/Worker/Flush.antt =====
-- What resolvePendingPool makes of the queued swaps.
use mathlib.Core.Path.{subst}
use chain_parse_service.Base.{
  ℕ, String, ◌≡◌, refl, sym, ap, Bool, false, some, List, [], ◌∷◌, ◌++◌, Option-cases, str_eq,
  str_eq_iff, concat_by, arith, map,
}
use chain_parse_service.Base.Dict.{insert, lookup, lookup-insert}
use chain_parse_service.Base.Int.{ℤ}
use chain_parse_service.Model.{SwapRecord, Token}
use chain_parse_service.Types.{DexData, UnifiedTransaction}
use chain_parse_service.PendingQueue.{Message}
use chain_parse_service.Cache
use chain_parse_service.Uniswap.State.{
  UniswapExtractor, PoolMeta, Env, fetch_token_meta, cache_token,
}
use chain_parse_service.Uniswap.Swap.{build_swap_records, SwapEvent, message, get_block_number}
use chain_parse_service.Uniswap.Worker.{
  PoolReply, pool_of_reply, resolve, onchain_pool, resolve_pending_pool, records_of_message,
  pending_data, Resolved,
}

-- A swap event with the transaction and the log index that it was read from.
abbrev pub Swap : Type 0 → Type 0
Swap F = SwapEvent F × UnifiedTransaction × ℕ

abbrev pub message_of : {F : Type 0} → Swap F → Message
message_of (e, tx, i) = message e tx i

-- The two records that the parser makes of the swap where the pool is known.
abbrev pub direct : {F : Type 0} → PoolMeta → ℤ → ℤ → Swap F → List SwapRecord
direct m d0 d1 (e, tx, i) =
    build_swap_records e.protocol e.pool_addr tx.tx_hash (get_block_number tx) tx.timestamp i m
      e.leg0 (some d0) e.leg1 (some d1)

queued_direct :
    {F : Type 0} (m : PoolMeta) (d0 d1 : ℤ) (swaps : List (Swap F))
    → concat_by (records_of_message m (some d0) (some d1)) (map message_of swaps)
      ≡ concat_by (direct m d0 d1) swaps
unfolding records_of_message message
queued_direct m d0 d1 [] = refl
queued_direct m d0 d1 ((e, tx, i) ∷ swaps) =
    ap (λ rest. direct m d0 d1 (e, tx, i) ++ rest) (queued_direct m d0 d1 swaps)

seen_pools_of_meta :
    (u : UniswapExtractor) (env : Env) (t : String)
    → (fetch_token_meta u env t).0.seen_pools ≡ u.seen_pools
unfolding fetch_token_meta cache_token
seen_pools_of_meta u env t = ground (arith, Option-cases (Cache.get u.token_cache env.now t))

resolved_parts :
    (protocol : String) (r : PoolReply) (m : PoolMeta) (fee : ℤ)
    → pool_of_reply protocol r ≡ some (m, fee)
    → (str_eq m.token0 "" ≡ false) × (str_eq m.token1 "" ≡ false)
unfolding pool_of_reply
resolved_parts protocol r m fee h = ground arith

-- What fetchTokenMeta answers for token 0, and after that for token 1.
abbrev pub meta0 : UniswapExtractor → Env → PoolMeta → UniswapExtractor × Token
meta0 u env m = fetch_token_meta u env m.token0

abbrev pub meta1 : UniswapExtractor → Env → PoolMeta → UniswapExtractor × Token
meta1 u env m = fetch_token_meta (meta0 u env m).0 env m.token1

-- The storage engine got the two tokens, and the records of the swaps with the decimals of token 0
-- for token 0 and those of token 1 for token 1.
abbrev pub Flushed :
    {F : Type 0} → UniswapExtractor → Env → PoolMeta → List (Swap F) → Resolved F → Type 0
Flushed {F} u env m swaps r =
    let t0 = (meta0 u env m).1 in
    let t1 = (meta1 u env m).1 in
    (d : DexData F) × ((r.stored ≡ some d)
      × (d.tokens ≡ t0 ∷ t1 ∷ [])
      × (d.swap_records ≡ concat_by (direct m t0.decimals t1.decimals) swaps))

-- The extractor that knows the pool.
abbrev pub knowing : UniswapExtractor → String → PoolMeta → UniswapExtractor
knowing u pool_addr m = record u { seen_pools = insert pool_addr m u.seen_pools }

abbrev first_protocol : {F : Type 0} → Swap F → String
first_protocol (e, tx, i) = e.protocol

flush_of_resolve :
    {F : Type 0} (u : UniswapExtractor) (env : Env) (ok : Bool) (pool_addr protocol : String)
    (swaps : List (Swap F)) (m : PoolMeta) (fee : ℤ)
    → str_eq m.token0 "" ≡ false
    → str_eq m.token1 "" ≡ false
    → Flushed
        (knowing u pool_addr m)
        env
        m
        swaps
        (resolve u env (some ok) pool_addr protocol (map message_of swaps) (some (m, fee)))
      × (lookup pool_addr
            (resolve {F = F} u env
              (some ok)
              pool_addr
              protocol
              (map message_of swaps)
              (some (m, fee))).extractor.seen_pools
          ≡ some m)
unfolding pending_data
flush_of_resolve u env ok pool_addr protocol swaps m fee h0 h1 =
    let seen : UniswapExtractor = record u { seen_pools = insert pool_addr m u.seen_pools } in
    let found = fetch_token_meta seen env m.token0 in
    let next = fetch_token_meta found.0 env m.token1 in
    let x = found.1 in
    let y = next.1 in
    let pool = onchain_pool pool_addr protocol m fee in
    let stored = pending_data pool m (some x) (some y) (map message_of swaps) in
    (
      (stored, (ground (arith, h0, h1), refl, queued_direct m x.decimals y.decimals swaps)),
      ground (
        arith,
        h0,
        h1,
        seen_pools_of_meta seen env m.token0,
        seen_pools_of_meta found.0 env m.token1,
        lookup-insert pool_addr pool_addr m u.seen_pools,
        str_eq_iff pool_addr pool_addr,
      ),
    )

-- If the pool resolves and a storage engine is wired, the engine gets, for the queued swaps in
-- their order, the same two records each that the parser makes where the pool is known, with the
-- decimals that fetchTokenMeta answers for each of the two tokens, and it gets these two tokens; and
-- the pool is known from then on.
pub resolve_pending_pool_flush :
    {F : Type 0} (u : UniswapExtractor) (env : Env) (r : PoolReply) (ok : Bool) (pool_addr : String)
    (s : Swap F) (swaps : List (Swap F)) (m : PoolMeta) (fee : ℤ)
    → pool_of_reply (first_protocol s) r ≡ some (m, fee)
    → Flushed
        (knowing u pool_addr m)
        env
        m
        (s ∷ swaps)
        (resolve_pending_pool u env (some r) (some ok) pool_addr (map message_of (s ∷ swaps)))
      × (lookup pool_addr
            (resolve_pending_pool {F = F} u env
              (some r)
              (some ok)
              pool_addr
              (map message_of (s ∷ swaps))).extractor.seen_pools
          ≡ some m)
unfolding resolve_pending_pool pending_data message
resolve_pending_pool_flush {F} u env r ok pool_addr (e, tx, i) swaps m fee h =
    let (h0, h1) = resolved_parts e.protocol r m fee h in
    let queued = map message_of ((e, tx, i) ∷ swaps) in
    subst
      (λ o.
        Flushed (knowing u pool_addr m) env m ((e, tx, i) ∷ swaps)
          (resolve u env (some ok) pool_addr e.protocol queued o)
        × (lookup pool_addr
              (resolve {F = F} u env (some ok) pool_addr e.protocol queued o).extractor.seen_pools
            ≡ some m))
      (sym h) (flush_of_resolve u env ok pool_addr e.protocol ((e, tx, i) ∷ swaps) m fee h0 h1)
