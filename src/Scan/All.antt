-- ===== src/Scan/All.antt =====
-- What holds of all extractors that keep no state.
use chain_parse_service.Base.{◌≡◌, List, select}
use chain_parse_service.Types.{UnifiedBlock}
use chain_parse_service.Uniswap.Floats.{Floats}
use chain_parse_service.Uniswap.Logs.{EthLib}
use chain_parse_service.Scan.{LogExtractor, extract_dex_data, supports_block}
use chain_parse_service.Scan.Filter.{extract_dex_data_selected}
use chain_parse_service.Scan.Rows.{RowsOf, visited, extract_dex_data-RowsOf}
use chain_parse_service.Bsc.PancakeSwap.{pancake_swap}
use chain_parse_service.Bsc.FourMeme.{four_meme}
use chain_parse_service.Bsc.Index.{
  pancake_swap-StampsIndex, four_meme-StampsIndex, pancake_swap-FindsConcerned,
  four_meme-FindsConcerned,
}
use chain_parse_service.Solana.Borsh.{SolanaLib}
use chain_parse_service.Solana.PumpFun.{SolanaFloats, pump_fun}
use chain_parse_service.Solana.PumpSwap.{pump_swap}
use chain_parse_service.Solana.Index.{
  pump_fun-StampsIndex, pump_fun-FindsConcerned, pump_swap-StampsIndex, pump_swap-FindsConcerned,
}

-- The blocks that pass SupportsBlock give the same data as all blocks.
abbrev pub LosesNothing : {L F : Type 0} → LogExtractor L F → List UnifiedBlock → Type 0
LosesNothing x blocks =
    extract_dex_data x (select (supports_block x) blocks) ≡ extract_dex_data x blocks

-- The rows of swaps that are collected from the blocks, against the transactions visited.
abbrev pub HasRowsOf : {L F : Type 0} → LogExtractor L F → List UnifiedBlock → Type 0
HasRowsOf x blocks = RowsOf (visited x blocks) (extract_dex_data x blocks).transactions

module _ (fl : Floats) (lib : EthLib) (sfl : SolanaFloats) (slib : SolanaLib) where
  -- For PancakeSwap, FourMeme, PumpFun and PumpSwap the filter by SupportsBlock loses nothing: from
  -- the blocks that pass it ExtractDexData collects the same data as from all blocks.
  pub extract_dex_data-select :
      (blocks : List UnifiedBlock)
      → (LosesNothing (pancake_swap fl lib) blocks × LosesNothing (four_meme fl lib) blocks)
        × (LosesNothing (pump_fun sfl slib) blocks × LosesNothing (pump_swap sfl slib) blocks)
  extract_dex_data-select blocks = (
    (
      extract_dex_data_selected (pancake_swap fl lib) (pancake_swap-FindsConcerned fl lib) blocks,
      extract_dex_data_selected (four_meme fl lib) (four_meme-FindsConcerned fl lib) blocks,
    ),
    (
      extract_dex_data_selected (pump_fun sfl slib) (pump_fun-FindsConcerned sfl slib) blocks,
      extract_dex_data_selected (pump_swap sfl slib) (pump_swap-FindsConcerned sfl slib) blocks,
    ),
  )

  -- The rows of swaps that ExtractDexData collects, of PancakeSwap, FourMeme, PumpFun and PumpSwap,
  -- are those of the transactions of the supported chain, one transaction after the other: each
  -- row has the hash of its transaction, and the rows of a transaction have the indices 0, 1, … in
  -- their order.
  pub swaps-RowsOf :
      (blocks : List UnifiedBlock)
      → (HasRowsOf (pancake_swap fl lib) blocks × HasRowsOf (four_meme fl lib) blocks)
        × (HasRowsOf (pump_fun sfl slib) blocks × HasRowsOf (pump_swap sfl slib) blocks)
  swaps-RowsOf blocks = (
    (
      extract_dex_data-RowsOf (pancake_swap fl lib) (pancake_swap-StampsIndex fl lib) blocks,
      extract_dex_data-RowsOf (four_meme fl lib) (four_meme-StampsIndex fl lib) blocks,
    ),
    (
      extract_dex_data-RowsOf (pump_fun sfl slib) (pump_fun-StampsIndex sfl slib) blocks,
      extract_dex_data-RowsOf (pump_swap sfl slib) (pump_swap-StampsIndex sfl slib) blocks,
    ),
  )
