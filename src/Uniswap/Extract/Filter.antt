-- ===== src/Uniswap/Extract/Filter.antt =====
-- ExtractDexData and the filter by SupportsBlock that the engine puts before it.
use mathlib.Core.Path.{subst}
use chain_parse_service.Base.{
  ◌≡◌, refl, sym, ap, ◌∙◌, ℕ, Bool, true, false, Bool-cases, inl, inr, List, [], ◌∷◌, arith, select,
  if◌then◌else◌,
}
use chain_parse_service.Types.{UnifiedTransaction, UnifiedBlock, EthLog, DexData}
use chain_parse_service.Uniswap.Floats.{Floats}
use chain_parse_service.Uniswap.Logs.{EthLib, extract_evm_logs}
use chain_parse_service.Uniswap.State.{UniswapExtractor, Env}
use chain_parse_service.Uniswap.Extract.{
  Scan, scan_log, scan_logs, scan_transactions, scan_blocks, uniswap_extract_dex_data,
  any_uniswap_log, any_uniswap_transaction, supports_block, is_chain_supported, supported_chains,
}

module _ (fl : Floats) (lib : EthLib) (env : UnifiedTransaction → EthLog → Env) where
  -- What is left of a scan at the end: all but the index of the next swap.
  abbrev outcome : Scan fl.Float → UniswapExtractor × DexData fl.Float
  outcome s = (s.extractor, s.collected)

  foreign_logs :
      (tx : UnifiedTransaction) (s : Scan fl.Float) (logs : List EthLog)
      → any_uniswap_log lib logs ≡ false
      → scan_logs fl lib env tx s logs ≡ s
  unfolding any_uniswap_log scan_logs scan_log
  foreign_logs tx s [] h = refl
  foreign_logs tx s (log ∷ logs) h = ground (arith, foreign_logs tx s logs)

  foreign_transactions :
      (s : Scan fl.Float) (txs : List UnifiedTransaction)
      → any_uniswap_transaction lib txs ≡ false
      → (k : ℕ) × (scan_transactions fl lib env s txs ≡ record s { swap_index = k })
  unfolding any_uniswap_transaction scan_transactions
  foreign_transactions s [] h = (s.swap_index, refl)
  foreign_transactions s (tx ∷ txs) h =
      let s' : Scan fl.Float = record s { swap_index = 0 } in
      let logs = extract_evm_logs lib tx.raw_data in
      let here : any_uniswap_log lib logs ≡ false = ground arith in
      let later : any_uniswap_transaction lib txs ≡ false = ground arith in
      let (k, same) = foreign_transactions s' txs later in
      (k, ap (λ z. scan_transactions fl lib env z txs) (foreign_logs tx s' logs here) ∙ same)

  index_transactions :
      (s : Scan fl.Float) (k : ℕ) (txs : List UnifiedTransaction)
      → outcome (scan_transactions fl lib env (record s { swap_index = k }) txs)
        ≡ outcome (scan_transactions fl lib env s txs)
  unfolding scan_transactions
  index_transactions s k [] = refl
  index_transactions s k (tx ∷ txs) = refl

  -- The body of the loop over the blocks; `b` says whether the chain is supported.
  abbrev step : Bool → Scan fl.Float → List UnifiedTransaction → Scan fl.Float
  step b s txs = if b then scan_transactions fl lib env s txs else s

  step_index :
      (b : Bool) (s : Scan fl.Float) (k : ℕ) (txs : List UnifiedTransaction)
      → (j : ℕ) × (step b (record s { swap_index = k }) txs
          ≡ record (step b s txs) { swap_index = j })
  unfolding scan_transactions
  step_index false s k txs = (k, refl)
  step_index true s k [] = (k, refl)
  step_index true s k (tx ∷ txs) = (_, refl)

  index_blocks :
      (s : Scan fl.Float) (k : ℕ) (blocks : List UnifiedBlock)
      → outcome (scan_blocks fl lib env (record s { swap_index = k }) blocks)
        ≡ outcome (scan_blocks fl lib env s blocks)
  unfolding scan_blocks
  index_blocks s k [] = refl
  index_blocks s k (block ∷ blocks) =
      let b = is_chain_supported supported_chains block.chain_type in
      let (j, same) = step_index b s k block.transactions in
      ap (λ z. outcome (scan_blocks fl lib env z blocks)) same
      ∙ index_blocks (step b s block.transactions) j blocks

  step_foreign :
      (b : Bool) (s : Scan fl.Float) (txs : List UnifiedTransaction)
      → (if b then any_uniswap_transaction lib txs else false) ≡ false
      → (j : ℕ) × (step b s txs ≡ record s { swap_index = j })
  step_foreign false s txs h = (s.swap_index, refl)
  step_foreign true s txs h = foreign_transactions s txs h

  skip_foreign :
      (s : Scan fl.Float) (block : UnifiedBlock) (blocks : List UnifiedBlock)
      → supports_block lib block ≡ false
      → outcome (scan_blocks fl lib env s (block ∷ blocks))
        ≡ outcome (scan_blocks fl lib env s blocks)
  unfolding scan_blocks supports_block
  skip_foreign s block blocks h =
      let b = is_chain_supported supported_chains block.chain_type in
      let (j, same) = step_foreign b s block.transactions h in
      ap (λ z. outcome (scan_blocks fl lib env z blocks)) same ∙ index_blocks s j blocks

  -- The loop over the filtered list, where the first block passes (`b`) or not.
  select_blocks :
      (s : Scan fl.Float) (blocks : List UnifiedBlock)
      → outcome (scan_blocks fl lib env s (select (supports_block lib) blocks))
        ≡ outcome (scan_blocks fl lib env s blocks)
  unfolding scan_blocks
  select_blocks s [] = refl
  select_blocks s (block ∷ blocks) =
      let rest = select (supports_block lib) blocks in
      let onto : Bool → Type 0 = λ b.
        outcome (scan_blocks fl lib env s (elim b [ true ↦ block ∷ rest | false ↦ rest ]))
        ≡ outcome (scan_blocks fl lib env s (block ∷ blocks)) in
      elim (Bool-cases (supports_block lib block)) [
        | inl h ↦ subst onto (sym h) (
            select_blocks
              (step (is_chain_supported supported_chains block.chain_type) s block.transactions)
              blocks)
        | inr h ↦ subst onto (sym h) (select_blocks s blocks ∙ sym (skip_foreign s block blocks h))
      ]

  -- The filter by SupportsBlock that extractDexData of the engine puts before ExtractDexData loses
  -- nothing: on the blocks that pass it, the extractor collects the same data and ends with the
  -- same caches and queue as on all blocks.
  pub uniswap_extract_dex_data-select :
      (u : UniswapExtractor) (blocks : List UnifiedBlock)
      → uniswap_extract_dex_data fl lib u env (select (supports_block lib) blocks)
        ≡ uniswap_extract_dex_data fl lib u env blocks
  unfolding uniswap_extract_dex_data
  uniswap_extract_dex_data-select u blocks = select_blocks _ blocks
