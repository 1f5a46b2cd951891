-- ===== src/Uniswap/Records.antt =====
-- internal/parser/dexs/eth/uniswap.go: buildSwapRecords, and GetBlockNumber of utils.go.
use chain_parse_service.Base.{ℕ, String, Option, none, some, List, [], ◌∷◌}
use chain_parse_service.Base.Int.{ℤ, pos}
use chain_parse_service.Model.{SwapRecord, SwapRecordSide, role_token0, role_token1}
use chain_parse_service.Types.{UnifiedTransaction}
use chain_parse_service.Uniswap.State.{PoolMeta}

-- dex.GetBlockNumber
abbrev pub get_block_number : UnifiedTransaction → ℤ
get_block_number tx = elim tx.block_number [ none ↦ pos 0 | some n ↦ n ]

-- What a swap event says of one token: the amount, and whether it went into the pool.
pub record Leg : Type 0 where
  pub amount : ℤ
  pub side : SwapRecordSide

-- The two records share what they know of the place of the swap.
unfoldable pub build_swap_records :
    String
    → String
    → String
    → ℤ
    → ℕ
    → ℕ
    → PoolMeta
    → Leg
    → Option ℤ
    → Leg
    → Option ℤ
    → List SwapRecord
build_swap_records protocol pool_addr tx_hash block_number block_time log_index m leg0 decimals0
      leg1 decimals1 =
    record {
      token_addr = m.token0;
      pool_addr = pool_addr;
      protocol = protocol;
      role = role_token0;
      side = leg0.side;
      tx_hash = tx_hash;
      raw_amount = leg0.amount;
      token_decimals = decimals0;
      paired_token_addr = m.token1;
      block_number = block_number;
      block_time = block_time;
      log_index = log_index;
    }
    ∷ record {
      token_addr = m.token1;
      pool_addr = pool_addr;
      protocol = protocol;
      role = role_token1;
      side = leg1.side;
      tx_hash = tx_hash;
      raw_amount = leg1.amount;
      token_decimals = decimals1;
      paired_token_addr = m.token0;
      block_number = block_number;
      block_time = block_time;
      log_index = log_index;
    }
    ∷ []
