-- ===== src/Uniswap/Swap.antt =====
-- internal/parser/dexs/eth/uniswap.go: parseV2Swap and parseV3Swap. Log data too short is logged and
-- skipped.
pub mod DoubleEntry
pub mod Decode
pub mod Side
pub use chain_parse_service.Uniswap.Records.{Leg, get_block_number}
unfoldable pub use chain_parse_service.Uniswap.Records.{build_swap_records}
use chain_parse_service.Base.{
  ℕ, ◌+◌, String, ◌≡◌, Bool, true, false, ◌&&◌, ◌||◌, not, Option, none, some, List, [], ◌∷◌,
  str_eq, if◌then◌else◌, ltb, ◌==◌, length, ◌^◌,
}
use chain_parse_service.Base.Int.{ℤ, pos, ltb_ℤ}
use chain_parse_service.Model.{
  Transaction, SwapRecord, SwapRecordSide, side_in, side_out, role_token0, role_token1,
}
use chain_parse_service.Types.{UnifiedTransaction, EthLog}
use chain_parse_service.PendingQueue.{Memory, Message, enqueue}
use chain_parse_service.Uniswap.Bytes.{set_bytes, slice, to_signed_int256}
use chain_parse_service.Uniswap.Logs.{EthLib}
use chain_parse_service.Uniswap.Floats.{Floats, abs, calc_price, calc_v3_price, calc_value}
use chain_parse_service.Uniswap.State.{
  UniswapExtractor, PoolMeta, Env, resolve_pool_tokens, cached_token_decimals, determine_side,
  uniswap_v2_factory_addr, uniswap_v3_factory_addr,
}

-- What a parser has read off a swap log before it looks at the pool.
pub record SwapEvent (F : Type 0) : Type 0 where
  pub protocol : String
  pub factory : String
  pub pool_addr : String
  pub token0_is_in : Bool
  pub amount_in : ℤ
  pub price : F
  pub value : F
  pub leg0 : Leg
  pub leg1 : Leg

abbrev pub queue_message : Option Memory → ℕ → Message → Option Memory
queue_message none now msg = none
queue_message (some q) now msg = some (enqueue q now msg).0

module _ {F : Type 0} where
  unfoldable pub message : SwapEvent F → UnifiedTransaction → ℕ → Message
  message e tx log_index = record {
    pool_addr = e.pool_addr;
    protocol = e.protocol;
    tx_hash = tx.tx_hash;
    block_number = get_block_number tx;
    block_time = tx.timestamp;
    log_index = log_index;
    amount0 = e.leg0.amount;
    side0 = e.leg0.side;
    amount1 = e.leg1.amount;
    side1 = e.leg1.side;
    enqueued_at = 0;
  }

  unfoldable pub swap_side : UniswapExtractor → SwapEvent F → PoolMeta → String
  swap_side u e m =
      if e.token0_is_in
      then determine_side u m.token0 m.token1
      else determine_side u m.token1 m.token0

  -- The pool is known: two records. It is not: the event goes to the pending queue, if there is one.
  abbrev pub records_of :
      UniswapExtractor
      → Env
      → SwapEvent F
      → UnifiedTransaction
      → ℕ
      → Option PoolMeta
      → UniswapExtractor × String × List SwapRecord
  records_of u env e tx log_index none = (
    record u { pending_queue = queue_message u.pending_queue env.now (message e tx log_index) },
    "swap",
    [],
  )
  records_of u env e tx log_index (some m) =
      let (u', decimals0) = cached_token_decimals u env m.token0 in
      let (u'', decimals1) = cached_token_decimals u' env m.token1 in
      (
        u'',
        swap_side u e m,
        build_swap_records e.protocol e.pool_addr tx.tx_hash (get_block_number tx) tx.timestamp
            log_index m e.leg0 decimals0 e.leg1 decimals1,
      )

  unfoldable pub transaction : SwapEvent F → UnifiedTransaction → ℕ → ℕ → String → Transaction F
  transaction e tx log_index swap_index side = record {
    addr = e.pool_addr;
    protocol = e.protocol;
    router = tx.to_address;
    factory = e.factory;
    pool = e.pool_addr;
    hash = tx.tx_hash;
    from = tx.from_address;
    side = side;
    amount = e.amount_in;
    price = e.price;
    value = e.value;
    time = tx.timestamp;
    event_index = log_index;
    tx_index = tx.tx_index;
    swap_index = swap_index;
    block_number = get_block_number tx;
  }

  -- The part that the two parsers share, from the lookup of the pool on.
  unfoldable pub emit_swap :
      UniswapExtractor
      → Env
      → SwapEvent F
      → UnifiedTransaction
      → ℕ
      → ℕ
      → UniswapExtractor × Transaction F × List SwapRecord
  unfolding transaction message swap_side
  emit_swap u env e tx log_index swap_index =
      let (u', pool) = resolve_pool_tokens u env e.pool_addr in
      let (u'', side, records) = records_of u' env e tx log_index pool in
      (u'', transaction e tx log_index swap_index side, records)

-- `amount, side = in, SideIn`, or `out, SideOut` where `in` is zero.
unfoldable pub v2_leg : ℕ → ℕ → Leg
v2_leg paid received =
    if paid == 0
    then record { amount = pos received; side = side_out }
    else record { amount = pos paid; side = side_in }

-- The absolute value, and `out` where the amount is negative.
unfoldable pub v3_leg : ℤ → Leg
v3_leg n = record { amount = abs n; side = if ltb_ℤ n (pos 0) then side_out else side_in }

module _ (fl : Floats) (lib : EthLib) where
  open fl use {Float}

  unfoldable pub v2_event : EthLog → SwapEvent Float
  v2_event log =
      let amount0_in = set_bytes (slice 0 32 log.bytes) in
      let amount1_in = set_bytes (slice 32 64 log.bytes) in
      let amount0_out = set_bytes (slice 64 96 log.bytes) in
      let amount1_out = set_bytes (slice 96 128 log.bytes) in
      let token0_is_in = ltb 0 amount0_in in
      let amount_in = pos (if token0_is_in then amount0_in else amount1_in) in
      let amount_out = pos (if token0_is_in then amount1_out else amount0_out) in
      let price = calc_price fl amount_in amount_out in
      record {
        protocol = "uniswap_v2";
        factory = uniswap_v2_factory_addr;
        pool_addr = lib.address_hex log.address;
        token0_is_in = token0_is_in;
        amount_in = amount_in;
        price = price;
        value = calc_value fl amount_in price;
        leg0 = v2_leg amount0_in amount0_out;
        leg1 = v2_leg amount1_in amount1_out;
      }

  unfoldable pub v3_event : EthLog → SwapEvent Float
  v3_event log =
      let amount0 = to_signed_int256 (slice 0 32 log.bytes) in
      let amount1 = to_signed_int256 (slice 32 64 log.bytes) in
      let sqrt_price = pos (set_bytes (slice 64 96 log.bytes)) in
      let token0_is_in = ltb_ℤ (pos 0) amount0 in
      let amount_in = if token0_is_in then abs amount0 else abs amount1 in
      let price = calc_v3_price fl sqrt_price in
      record {
        protocol = "uniswap_v3";
        factory = uniswap_v3_factory_addr;
        pool_addr = lib.address_hex log.address;
        token0_is_in = token0_is_in;
        amount_in = amount_in;
        price = price;
        value = calc_value fl amount_in price;
        leg0 = v3_leg amount0;
        leg1 = v3_leg amount1;
      }

  -- `none` where the data is too short.
  abbrev pub Parsed : Type 0
  Parsed = UniswapExtractor × Option (Transaction Float × List SwapRecord)

  abbrev pub some_swap : UniswapExtractor × Transaction Float × List SwapRecord → Parsed
  some_swap (u, t, records) = (u, some (t, records))

  unfoldable pub parse_v2_swap :
      UniswapExtractor → Env → EthLog → UnifiedTransaction → ℕ → ℕ → Parsed
  parse_v2_swap u env log tx log_index swap_index =
      if ltb (length log.bytes) 128
      then (u, none)
      else some_swap (emit_swap u env (v2_event log) tx log_index swap_index)

  unfoldable pub parse_v3_swap :
      UniswapExtractor → Env → EthLog → UnifiedTransaction → ℕ → ℕ → Parsed
  parse_v3_swap u env log tx log_index swap_index =
      if ltb (length log.bytes) 160
      then (u, none)
      else some_swap (emit_swap u env (v3_event log) tx log_index swap_index)
