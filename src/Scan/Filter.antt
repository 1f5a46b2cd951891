-- ===== src/Scan/Filter.antt =====
-- The filter by SupportsBlock that the engine puts before ExtractDexData.
use mathlib.Core.Path.{subst}
use chain_parse_service.Base.{
  ℕ, ◌+◌, ◌≡◌, refl, sym, ap, ◌∙◌, Bool, true, false, Bool-cases, inl, inr, List, [], ◌∷◌, arith,
  select, if◌then◌else◌, if_elim, ◌⊎◌,
}
use chain_parse_service.Types.{UnifiedTransaction, UnifiedBlock, DexData}
use chain_parse_service.Scan.{
  LogExtractor, Progressed, found_nothing, collect, scan_log, scan_logs, scan_transactions,
  scan_blocks, extract_dex_data, any_log, any_transaction, supports_block,
}

-- ExtractDexData finds nothing in a log that SupportsBlock does not look for.
abbrev pub FindsConcerned : {L F : Type 0} → LogExtractor L F → Type 0
FindsConcerned {L = L} x =
    (tx : UnifiedTransaction) (i : ℕ) (log : L) (k : ℕ)
    → x.concerns log ≡ false
    → (x.reads log ≡ false) ⊎ (x.found_in tx i log k ≡ found_nothing)

module _ {L F : Type 0} (x : LogExtractor L F) (finds : FindsConcerned x) where
  foreign_log :
      (tx : UnifiedTransaction) (i : ℕ) (s : Progressed F) (log : L)
      → x.concerns log ≡ false
      → scan_log x tx i s log ≡ s
  unfolding scan_log
  foreign_log tx i s log h = elim (finds tx i log s.swap_index h) [
    | inl unread ↦ ap (λ b. if b then collect s (x.found_in tx i log s.swap_index) else s) unread
    | inr nothing ↦
        ap (λ f. if x.reads log then collect s f else s) nothing
        ∙ if_elim (λ z. z ≡ s) (x.reads log) s s (λ _. refl) (λ _. refl)
  ]

  foreign_logs :
      (tx : UnifiedTransaction) (i : ℕ) (s : Progressed F) (logs : List L)
      → any_log x logs ≡ false
      → scan_logs x tx i s logs ≡ s
  unfolding any_log scan_logs scan_log
  foreign_logs tx i s [] h = refl
  foreign_logs tx i s (log ∷ logs) h =
      let here : x.concerns log ≡ false = ground arith in
      let later : any_log x logs ≡ false = ground arith in
      ap (λ z. scan_logs x tx (i + 1) z logs) (foreign_log tx i s log here)
      ∙ foreign_logs tx (i + 1) s logs later

  -- The data that is collected from here on; the index is set anew by each transaction.
  abbrev data_of : List UnifiedBlock → Progressed F → DexData F
  data_of blocks s = (scan_blocks x s blocks).collected

  foreign_transactions :
      (s : Progressed F) (txs : List UnifiedTransaction)
      → any_transaction x txs ≡ false
      → (scan_transactions x s txs).collected ≡ s.collected
  unfolding any_transaction scan_transactions
  foreign_transactions s [] h = refl
  foreign_transactions s (tx ∷ txs) h =
      let s' : Progressed F = record s { swap_index = 0 } in
      let logs = x.logs_of tx in
      let here : any_log x logs ≡ false = ground arith in
      let later : any_transaction x txs ≡ false = ground arith in
      ap (λ z. (scan_transactions x z txs).collected) (foreign_logs tx 0 s' logs here)
      ∙ foreign_transactions s' txs later

  -- The body of the loop over the blocks; `b` says whether the chain is supported.
  abbrev step : Bool → Progressed F → List UnifiedTransaction → Progressed F
  step b s txs = if b then scan_transactions x s txs else s

  step_collected :
      (b : Bool) (s s' : Progressed F) (txs : List UnifiedTransaction)
      → s.collected ≡ s'.collected
      → (step b s txs).collected ≡ (step b s' txs).collected
  unfolding scan_transactions
  step_collected false s s' txs h = h
  step_collected true s s' [] h = h
  step_collected true s s' (tx ∷ txs) h =
      ap
        (λ c.
          (scan_transactions x
            (scan_logs x tx 0 (record { collected = c; swap_index = 0 }) (x.logs_of tx))
            txs).collected)
        h

  data_of_collected :
      (blocks : List UnifiedBlock) (s s' : Progressed F)
      → s.collected ≡ s'.collected
      → data_of blocks s ≡ data_of blocks s'
  unfolding scan_blocks
  data_of_collected [] s s' h = h
  data_of_collected (block ∷ blocks) s s' h =
      let b = x.supports_chain block.chain_type in
      data_of_collected blocks (step b s block.transactions) (step b s' block.transactions)
        (step_collected b s s' block.transactions h)

  step_foreign :
      (b : Bool) (s : Progressed F) (txs : List UnifiedTransaction)
      → (if b then any_transaction x txs else false) ≡ false
      → (step b s txs).collected ≡ s.collected
  step_foreign false s txs h = refl
  step_foreign true s txs h = foreign_transactions s txs h

  select_blocks :
      (s : Progressed F) (blocks : List UnifiedBlock)
      → data_of (select (supports_block x) blocks) s ≡ data_of blocks s
  unfolding scan_blocks supports_block
  select_blocks s [] = refl
  select_blocks s (block ∷ blocks) =
      let b = x.supports_chain block.chain_type in
      let s' = step b s block.transactions in
      let rest = select (supports_block x) blocks in
      let onto : Bool → Type 0 = λ c.
        data_of (elim c [ true ↦ block ∷ rest | false ↦ rest ]) s ≡ data_of (block ∷ blocks) s in
      elim (Bool-cases (supports_block x block)) [
        | inl h ↦ subst onto (sym h) (select_blocks s' blocks)
        | inr h ↦ subst onto (sym h) (
            select_blocks s blocks
            ∙ sym (data_of_collected blocks s' s (step_foreign b s block.transactions h)))
      ]

  pub extract_dex_data_selected :
      (blocks : List UnifiedBlock)
      → extract_dex_data x (select (supports_block x) blocks) ≡ extract_dex_data x blocks
  unfolding extract_dex_data
  extract_dex_data_selected blocks = select_blocks _ blocks
