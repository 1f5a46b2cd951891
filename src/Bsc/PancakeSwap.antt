-- ===== src/Bsc/PancakeSwap.antt =====
-- internal/parser/dexs/bsc/pancakeswap.go: the parsers of swaps and liquidity events, and the switch
-- of ExtractDexData.
pub mod Topics
use chain_parse_service.Base.{
  ℕ, ◌+◌, String, Bool, true, false, ◌||◌, Option, none, some, List, [], ◌∷◌, ltb, leb, length,
  str_eq, if◌then◌else◌,
}
use chain_parse_service.Base.Int.{ℤ, pos, ltb_ℤ}
use chain_parse_service.Model.{Pool, PoolSource, Transaction, Liquidity}
use chain_parse_service.Types.{UnifiedTransaction, EthLog, bsc}
use chain_parse_service.Uniswap.Bytes.{set_bytes, slice, to_signed_int256}
use chain_parse_service.Uniswap.Floats.{Floats, abs, calc_price, calc_v3_price, calc_value}
use chain_parse_service.Uniswap.Logs.{
  extract_evm_logs, EthLib, swap_v2_event_sig, swap_v3_event_sig, mint_v2_event_sig,
  mint_v3_event_sig, burn_v2_event_sig, burn_v3_event_sig, pair_created_event_sig,
  pool_created_event_sig,
}
use chain_parse_service.Uniswap.Events.{topic0, amounts_at, amounts_of, address_in}
use chain_parse_service.Uniswap.Extract.{is_chain_supported}
use chain_parse_service.Uniswap.Records.{get_block_number}
use chain_parse_service.Uniswap.Worker.{to_int64}
use chain_parse_service.Scan.{
  Found, found_nothing, LogExtractor, swap_or_nothing, liquidity_or_nothing, pool_or_nothing,
}
use chain_parse_service.Bsc.PancakeSwap.Topics.{
  pancake_v2_factory_addr, pancake_v3_factory_addr, pancake_supported_chains, PancakeLogType,
  pancake_swap_v2, pancake_swap_v3, pancake_mint, pancake_burn, pancake_pair_created,
  pancake_pool_created, pancake_unknown, is_pancake_swap_log, pancake_log_type,
  pancake_factory_address, parse_v2_pair_created, parse_v3_pool_created,
}

-- The amount that a V3 swap counts as paid.
abbrev pub v3_amount_in : ℤ → ℤ → ℤ
v3_amount_in amount0 amount1 = if ltb_ℤ amount0 (pos 0) then abs amount1 else abs amount0

module _ (fl : Floats) (lib : EthLib) where
  open fl use {Float}

  -- The row of a swap, which the two parsers fill in the same way.
  abbrev swap_row :
      String → ℤ → Float → Float → EthLog → UnifiedTransaction → ℕ → ℕ → Transaction Float
  swap_row factory amount_in price value log tx log_idx swap_idx = record {
    addr = lib.address_hex log.address;
    protocol = "";
    router = tx.to_address;
    factory = factory;
    pool = lib.address_hex log.address;
    hash = tx.tx_hash;
    from = tx.from_address;
    side = "swap";
    amount = amount_in;
    price = price;
    value = value;
    time = tx.timestamp;
    event_index = log_idx;
    tx_index = tx.tx_index;
    swap_index = swap_idx;
    block_number = get_block_number tx;
  }

  -- estimateV2SwapValue; the direction is 0 where `token0_is_in`.
  unfoldable pub estimate_v2_swap_value : ℕ → ℕ → ℕ → ℕ → Bool → Float
  estimate_v2_swap_value a0_in a1_in a0_out a1_out token0_is_in =
      let amount_in = pos (if token0_is_in then a0_in else a1_in) in
      let amount_out = pos (if token0_is_in then a1_out else a0_out) in
      calc_value fl amount_in (calc_price fl amount_in amount_out)

  unfoldable pub parse_v2_swap : EthLog → UnifiedTransaction → ℕ → ℕ → Option (Transaction Float)
  unfolding estimate_v2_swap_value
  parse_v2_swap log tx log_idx swap_idx =
      if ltb (length log.bytes) 128
      then none
      else let a0_in = set_bytes (slice 0 32 log.bytes) in
        let a1_in = set_bytes (slice 32 64 log.bytes) in
        let a0_out = set_bytes (slice 64 96 log.bytes) in
        let a1_out = set_bytes (slice 96 128 log.bytes) in
        let token0_is_in = ltb 0 a0_in in
        let amount_in = pos (if token0_is_in then a0_in else a1_in) in
        let amount_out = pos (if token0_is_in then a1_out else a0_out) in
        some (
          swap_row pancake_v2_factory_addr amount_in (calc_price fl amount_in amount_out)
            (estimate_v2_swap_value a0_in a1_in a0_out a1_out token0_is_in) log tx log_idx swap_idx)

  unfoldable pub parse_v3_swap : EthLog → UnifiedTransaction → ℕ → ℕ → Option (Transaction Float)
  parse_v3_swap log tx log_idx swap_idx =
      if ltb (length log.bytes) 160
      then none
      else let amount0 = to_signed_int256 (slice 0 32 log.bytes) in
        let amount1 = to_signed_int256 (slice 32 64 log.bytes) in
        let amount_in = v3_amount_in amount0 amount1 in
        let price = calc_v3_price fl (pos (set_bytes (slice 64 96 log.bytes))) in
        some (
          swap_row pancake_v3_factory_addr amount_in price (calc_value fl amount_in price) log tx
            log_idx swap_idx)

  unfoldable pub parse_liquidity : EthLog → UnifiedTransaction → String → Option (Liquidity Float)
  unfolding amounts_at pancake_factory_address
  parse_liquidity log tx side =
      if ltb (length log.bytes) 64
      then none
      else let (amount0, amount1) =
          amounts_of log.bytes (amounts_at (topic0 lib log.topics) (length log.bytes)) in
        some (record {
          addr = lib.address_hex log.address;
          router = tx.to_address;
          factory = pancake_factory_address lib log;
          pool = lib.address_hex log.address;
          hash = tx.tx_hash;
          from = tx.from_address;
          side = side;
          amount = pos (amount0 + amount1);
          value = fl.add (fl.of_int (pos amount0)) (fl.of_int (pos amount1));
          time = tx.timestamp;
        })

  -- The switch of ExtractDexData.
  unfoldable pub on_log_type : PancakeLogType → UnifiedTransaction → EthLog → ℕ → Found Float
  unfolding parse_v2_swap parse_v3_swap parse_liquidity parse_v2_pair_created parse_v3_pool_created
  on_log_type pancake_swap_v2 tx log i = swap_or_nothing (parse_v2_swap log tx log.index i)
  on_log_type pancake_swap_v3 tx log i = swap_or_nothing (parse_v3_swap log tx log.index i)
  on_log_type pancake_mint tx log i = liquidity_or_nothing (parse_liquidity log tx "add")
  on_log_type pancake_burn tx log i = liquidity_or_nothing (parse_liquidity log tx "remove")
  on_log_type pancake_pair_created tx log i = pool_or_nothing (parse_v2_pair_created lib log tx)
  on_log_type pancake_pool_created tx log i = pool_or_nothing (parse_v3_pool_created lib log tx)
  on_log_type pancake_unknown tx log i = found_nothing

  abbrev pub pancake_swap : LogExtractor EthLog Float
  pancake_swap = record {
    supports_chain = is_chain_supported pancake_supported_chains;
    logs_of = λ tx. extract_evm_logs lib tx.raw_data;
    reads = is_pancake_swap_log lib;
    concerns = is_pancake_swap_log lib;
    found_in = λ tx i log k. on_log_type (pancake_log_type lib log) tx log k;
  }
