-- ===== src/Uniswap/Worker.antt =====
-- internal/parser/dexs/eth/uniswap.go: resolvePendingPool, the handler of the pending queue, with
-- the decoding part of doResolvePoolTokensViaMulticall. The write of the pool to Redis is seen in
-- the `Env` of later calls.
pub mod Flush
use chain_parse_service.Base.{
  ℕ, zero, String, ◌≡◌, refl, sym, ap, ◌∙◌, Bool, true, false, ◌||◌, Option, none, some, List, [],
  ◌∷◌, ◌++◌, Option-cases, Bool-cases, inl, inr, str_eq, str_eq_iff, if◌then◌else◌, leb, ltb,
  length, drop, ◌-◌, ◌%◌, ◌^◌, concat_by, arith, map,
}
use chain_parse_service.Base.Dict.{insert, lookup, lookup-insert}
use chain_parse_service.Base.Int.{ℤ, pos, ◌-ℤ◌}
use chain_parse_service.Model.{Pool, PoolSource, Token, SwapRecord}
use chain_parse_service.Types.{DexData, empty_dex_data, UnifiedTransaction}
use chain_parse_service.PendingQueue.{Message}
use chain_parse_service.Cache
use chain_parse_service.Uniswap.Bytes.{set_bytes}
use chain_parse_service.Uniswap.State.{
  UniswapExtractor, PoolMeta, Env, fetch_token_meta, cache_token, uniswap_v2_factory_addr,
  uniswap_v3_factory_addr,
}
use chain_parse_service.Uniswap.Swap.{Leg, build_swap_records, SwapEvent, message, get_block_number}

-- The low 64 bits as an `int`.
unfoldable pub to_int64 : ℕ → ℤ
to_int64 n = let w = n % 2 ^ 64 in if leb (2 ^ 63) w then pos w -ℤ pos (2 ^ 64) else pos w

-- What the call of aggregate3 with token0(), token1() and, for V3, fee() comes to.
pub record PoolReply : Type 0 where
  pub token0 : Option String
  pub token1 : Option String
  pub fee : Option (List ℕ)

abbrev text_or_empty : Option String → String
text_or_empty none = ""
text_or_empty (some s) = s

abbrev fee_of : Option (List ℕ) → ℤ
fee_of none = pos 3000
fee_of (some bs) =
    if ltb (length bs) 32 then pos 3000 else to_int64 (set_bytes (drop (length bs - 32) bs))

unfoldable pub pool_of_reply : String → PoolReply → Option (PoolMeta × ℤ)
unfolding to_int64
pool_of_reply protocol r =
    let t0 = text_or_empty r.token0 in
    let t1 = text_or_empty r.token1 in
    if str_eq t0 "" || str_eq t1 ""
    then none
    else some (
      record { token0 = t0; token1 = t1 },
      if str_eq protocol "uniswap_v3" then fee_of r.fee else pos 3000,
    )

pub data PendingError : Type 0 where
  unresolved store_failed : PendingError

-- `stored` is what StoreDexData was called with.
pub record Resolved (F : Type 0) : Type 0 where
  pub extractor : UniswapExtractor
  pub stored : Option (DexData F)
  pub error : Option PendingError

unfoldable pub records_of_message : PoolMeta → Option ℤ → Option ℤ → Message → List SwapRecord
records_of_message m d0 d1 msg =
    build_swap_records msg.protocol msg.pool_addr msg.tx_hash msg.block_number msg.block_time
      msg.log_index m (record { amount = msg.amount0; side = msg.side0 }) d0
      (record { amount = msg.amount1; side = msg.side1 }) d1

unfoldable pub factory_of : String → String
factory_of protocol =
    if str_eq protocol "uniswap_v3" then uniswap_v3_factory_addr else uniswap_v2_factory_addr

abbrev pub meta_unless_empty : UniswapExtractor → Env → String → UniswapExtractor × Option Token
meta_unless_empty u env t =
    if str_eq t ""
    then (u, none)
    else let (u', token) = fetch_token_meta u env t in (u', some token)

abbrev pub to_list : Option Token → List Token
to_list none = []
to_list (some t) = t ∷ []

abbrev pub decimals_of : Option Token → Option ℤ
decimals_of none = none
decimals_of (some t) = some t.decimals

unfoldable pub onchain_pool : String → String → PoolMeta → ℤ → Pool
onchain_pool pool_addr protocol m fee = record {
  addr = pool_addr;
  factory = factory_of protocol;
  protocol = protocol;
  tokens = (0, m.token0) ∷ (1, m.token1) ∷ [];
  fee = fee;
  source = PoolSource.onchain;
  extra = none;
}

-- The reply is `none` where there is no client, no token of the rate limiter or no answer.
abbrev pool_of_answer : String → Option PoolReply → Option (PoolMeta × ℤ)
pool_of_answer protocol none = none
pool_of_answer protocol (some r) = pool_of_reply protocol r

module _ {F : Type 0} where
  unfoldable pub pending_data :
      Pool → PoolMeta → Option Token → Option Token → List Message → DexData F
  pending_data pool m t0 t1 msgs = record empty_dex_data {
    pools = pool ∷ [];
    tokens = to_list t0 ++ to_list t1;
    swap_records = concat_by (records_of_message m (decimals_of t0) (decimals_of t1)) msgs;
  }

  -- `none` is an extractor without a storage engine; else whether StoreDexData succeeds.
  abbrev store : UniswapExtractor → DexData F → Option Bool → Resolved F
  store u d none = record { extractor = u; stored = none; error = none }
  store u d (some ok) = record {
    extractor = u;
    stored = some d;
    error = if ok then none else some store_failed;
  }

  abbrev pub resolve :
      UniswapExtractor
      → Env
      → Option Bool
      → String
      → String
      → List Message
      → Option (PoolMeta × ℤ)
      → Resolved F
  resolve u env storage pool_addr protocol msgs none = record {
    extractor = u;
    stored = none;
    error = some unresolved;
  }
  resolve u env storage pool_addr protocol msgs (some (m, fee)) =
      let seen : UniswapExtractor = record u { seen_pools = insert pool_addr m u.seen_pools } in
      let (u', t0) = meta_unless_empty seen env m.token0 in
      let (u'', t1) = meta_unless_empty u' env m.token1 in
      store u'' (pending_data (onchain_pool pool_addr protocol m fee) m t0 t1 msgs) storage

  unfoldable pub resolve_pending_pool :
      UniswapExtractor → Env → Option PoolReply → Option Bool → String → List Message → Resolved F
  unfolding pending_data
  resolve_pending_pool u env reply storage pool_addr [] = record {
    extractor = u;
    stored = none;
    error = none;
  }
  resolve_pending_pool u env reply storage pool_addr (msg ∷ msgs) =
      resolve u env storage pool_addr msg.protocol (msg ∷ msgs) (pool_of_answer msg.protocol reply)
