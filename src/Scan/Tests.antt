-- ===== src/Scan/Tests.antt =====
-- Blocks of Ethereum, BSC and Solana.
use chain_parse_service.Base.{none, some, List, [], ◌∷◌}
use chain_parse_service.Base.Int.{pos}
use chain_parse_service.Types.{UnifiedBlock, raw_solana, texts, solana}
use chain_parse_service.Uniswap.Examples.{whole, eth, tx, blocks}
use chain_parse_service.Scan.All.{LosesNothing, HasRowsOf, extract_dex_data-select, swaps-RowsOf}
use chain_parse_service.Bsc.PancakeSwap.{pancake_swap}
use chain_parse_service.Bsc.FourMeme.{four_meme}
use chain_parse_service.Solana.PumpFun.{pump_fun}
use chain_parse_service.Solana.PumpSwap.{pump_swap}
use chain_parse_service.Solana.Examples.{whole_sol, sol}

abbrev all_blocks : List UnifiedBlock
all_blocks =
    record {
      block_number = pos 14;
      chain_type = solana;
      transactions =
          record tx {
            raw_data = raw_solana (record {
              log_messages = some (texts ("Program data: c2" ∷ "Program log: x" ∷ []));
              log_messages_camel = none;
              meta = none;
            });
          }
          ∷ [];
    }
    ∷ blocks

extract_dex_data-select_example :
    (LosesNothing (pancake_swap whole eth) all_blocks
      × LosesNothing (four_meme whole eth) all_blocks)
    × (LosesNothing (pump_fun whole_sol sol) all_blocks
        × LosesNothing (pump_swap whole_sol sol) all_blocks)
extract_dex_data-select_example = extract_dex_data-select whole eth whole_sol sol all_blocks

swaps-RowsOf_example :
    (HasRowsOf (pancake_swap whole eth) all_blocks × HasRowsOf (four_meme whole eth) all_blocks)
    × (HasRowsOf (pump_fun whole_sol sol) all_blocks
        × HasRowsOf (pump_swap whole_sol sol) all_blocks)
swaps-RowsOf_example = swaps-RowsOf whole eth whole_sol sol all_blocks
