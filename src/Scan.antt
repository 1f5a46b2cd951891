-- ===== src/Scan.antt =====
-- The loops of ExtractDexData and SupportsBlock of the extractors that keep no state
-- (internal/parser/dexs/bsc, internal/parser/dexs/solanadex), over the logs of a transaction or, on
-- Solana, its events; `L` is the type of either.
pub mod Filter
pub mod Keeps
pub mod Rows
pub mod All
mod Tests
use chain_parse_service.Base.{
  ℕ, ◌+◌, String, Bool, false, ◌||◌, Option, none, some, List, [], ◌∷◌, ◌++◌, if◌then◌else◌,
}
use chain_parse_service.Model.{Pool, Token, Transaction, Liquidity}
use chain_parse_service.Types.{UnifiedTransaction, UnifiedBlock, DexData, empty_dex_data}

-- What the switch over a log makes of it.
pub data Found (F : Type 0) : Type 0 where
  found_swap : Transaction F → Found F
  found_liquidity : Liquidity F → Found F
  found_pool : Pool → Found F
  found_created : Pool → Token → Found F
  found_nothing : Found F

-- `none` is the nil pointer.
abbrev pub swap_or_nothing : {F : Type 0} → Option (Transaction F) → Found F
swap_or_nothing none = found_nothing
swap_or_nothing (some t) = found_swap t

abbrev pub liquidity_or_nothing : {F : Type 0} → Option (Liquidity F) → Found F
liquidity_or_nothing none = found_nothing
liquidity_or_nothing (some l) = found_liquidity l

abbrev pub pool_or_nothing : {F : Type 0} → Option Pool → Found F
pool_or_nothing none = found_nothing
pool_or_nothing (some p) = found_pool p

-- The parts of an extractor that its loops call: which logs ExtractDexData looks at, which logs
-- SupportsBlock looks for, and the switch. The switch gets the transaction, the position of the log
-- in it, the log, and the index of the next swap.
pub record LogExtractor (L F : Type 0) : Type 0 where
  pub supports_chain : String → Bool
  pub logs_of : UnifiedTransaction → List L
  pub reads : L → Bool
  pub concerns : L → Bool
  pub found_in : UnifiedTransaction → ℕ → L → ℕ → Found F

pub record Progressed (F : Type 0) : Type 0 where
  pub collected : DexData F
  pub swap_index : ℕ

module _ {F : Type 0} where
  abbrev pub collect : Progressed F → Found F → Progressed F
  collect s (found_swap t) = record {
    collected = record (s.collected) { transactions = s.collected.transactions ++ (t ∷ []) };
    swap_index = s.swap_index + 1;
  }
  collect s (found_liquidity l) = record s {
    collected = record (s.collected) { liquidities = s.collected.liquidities ++ (l ∷ []) };
  }
  collect s (found_pool p) = record s {
    collected = record (s.collected) { pools = s.collected.pools ++ (p ∷ []) };
  }
  collect s (found_created p t) = record s {
    collected = record (s.collected) {
      pools = s.collected.pools ++ (p ∷ []);
      tokens = s.collected.tokens ++ (t ∷ []);
    };
  }
  collect s found_nothing = s

module _ {L F : Type 0} (x : LogExtractor L F) where
  unfoldable pub scan_log : UnifiedTransaction → ℕ → Progressed F → L → Progressed F
  scan_log tx i s log = if x.reads log then collect s (x.found_in tx i log s.swap_index) else s

  unfoldable pub scan_logs : UnifiedTransaction → ℕ → Progressed F → List L → Progressed F
  unfolding scan_log
  scan_logs tx i s [] = s
  scan_logs tx i s (log ∷ logs) = scan_logs tx (i + 1) (scan_log tx i s log) logs

  unfoldable pub scan_transactions : Progressed F → List UnifiedTransaction → Progressed F
  unfolding scan_logs
  scan_transactions s [] = s
  scan_transactions s (tx ∷ txs) =
      scan_transactions (scan_logs tx 0 (record s { swap_index = 0 }) (x.logs_of tx)) txs

  unfoldable pub scan_blocks : Progressed F → List UnifiedBlock → Progressed F
  unfolding scan_transactions
  scan_blocks s [] = s
  scan_blocks s (block ∷ blocks) =
      let s' =
        if x.supports_chain block.chain_type then scan_transactions s block.transactions else s in
      scan_blocks s' blocks

  unfoldable pub extract_dex_data : List UnifiedBlock → DexData F
  unfolding scan_blocks
  extract_dex_data blocks =
      (scan_blocks (record { collected = empty_dex_data; swap_index = 0 }) blocks).collected

  unfoldable pub any_log : List L → Bool
  any_log [] = false
  any_log (log ∷ logs) = x.concerns log || any_log logs

  unfoldable pub any_transaction : List UnifiedTransaction → Bool
  unfolding any_log
  any_transaction [] = false
  any_transaction (tx ∷ txs) = any_log (x.logs_of tx) || any_transaction txs

  unfoldable pub supports_block : UnifiedBlock → Bool
  unfolding any_transaction
  supports_block block =
      if x.supports_chain block.chain_type then any_transaction block.transactions else false
