-- ===== src/Sui/Filter.antt =====
-- ExtractDexData of Cetus and Bluefin behind the filter by SupportsBlock.
use mathlib.Core.Path.{subst}
use chain_parse_service.Base.{
  ℕ, ◌+◌, ◌≡◌, refl, sym, ap, ◌∙◌, Bool, true, false, Bool-cases, inl, inr, some, List, [], ◌∷◌,
  arith, select, str_eq, if◌then◌else◌,
}
use chain_parse_service.Common.{Numbers}
use chain_parse_service.Types.{sui}
use chain_parse_service.Sui.Rows.{SuiData, Env, CetusExtractor, BluefinExtractor, empty_sui_data}
use chain_parse_service.Sui.Values.{SuiFloats}
use chain_parse_service.Sui.Events.{Event, SuiTransaction, SuiBlock, ThroughJson, cetus_events}
use chain_parse_service.Sui.CetusPool.{is_cetus_event}
use chain_parse_service.Sui.BluefinPool.{FeeOf}
use chain_parse_service.Sui.Loop.{
  SuiDex, add_to, scan_event, scan_events, scan_transactions, scan_blocks, sui_extract_dex_data,
  sui_supports_block, any_cetus_event, any_cetus_transaction, cetus, bluefin,
}

module _ {S F : Type 0} (x : SuiDex S F) (env : SuiTransaction F → ℕ → Env F) where
  -- Transactions that are not supported change nothing.
  abbrev SkipsUnsupported : Type 0
  SkipsUnsupported =
      (c : S × SuiData F) (txs : List (SuiTransaction F))
      → x.supports_transactions txs ≡ false
      → scan_transactions x env c txs ≡ c

  module _ (skips : SkipsUnsupported) where
    -- The body of the loop over the blocks; `b` says whether the block is one of Sui.
    abbrev step : Bool → S × SuiData F → List (SuiTransaction F) → S × SuiData F
    step b c txs = if b then scan_transactions x env c txs else c

    step_unsupported :
        (b : Bool) (c : S × SuiData F) (txs : List (SuiTransaction F))
        → (if b then x.supports_transactions txs else false) ≡ false
        → step b c txs ≡ c
    step_unsupported false c txs h = refl
    step_unsupported true c txs h = skips c txs h

    select_blocks :
        (c : S × SuiData F) (blocks : List (SuiBlock F))
        → scan_blocks x env c (select (sui_supports_block x) blocks) ≡ scan_blocks x env c blocks
    unfolding scan_blocks sui_supports_block
    select_blocks c [] = refl
    select_blocks c (block ∷ blocks) =
        let c' = step (str_eq block.chain_type sui) c block.transactions in
        let rest = select (sui_supports_block x) blocks in
        let onto : Bool → Type 0 = λ b.
          scan_blocks x env c (elim b [ true ↦ block ∷ rest | false ↦ rest ])
          ≡ scan_blocks x env c (block ∷ blocks) in
        elim (Bool-cases (sui_supports_block x block)) [
          | inl h ↦ subst onto (sym h) (select_blocks c' blocks)
          | inr h ↦ subst onto (sym h) (
              select_blocks c blocks
              ∙ ap (λ z. scan_blocks x env z blocks)
                  (sym (step_unsupported (str_eq block.chain_type sui) c block.transactions h)))
        ]

    sui_extract_dex_data-select :
        (wired : Bool) (s : S) (blocks : List (SuiBlock F))
        → sui_extract_dex_data x wired env s (select (sui_supports_block x) blocks)
          ≡ sui_extract_dex_data x wired env s blocks
    unfolding sui_extract_dex_data
    sui_extract_dex_data-select false s blocks = refl
    sui_extract_dex_data-select true s blocks = ap some (select_blocks (s, empty_sui_data) blocks)

module _ {F : Type 0} (fl : SuiFloats F) (lib : Numbers F)
    (env : SuiTransaction F → ℕ → Env F) where
  module _ (json : ThroughJson F) where
    foreign_events :
        (tx : SuiTransaction F) (i : ℕ) (c : CetusExtractor × SuiData F) (events : List (Event F))
        → any_cetus_event events ≡ false
        → scan_events (cetus fl lib json) env tx i c events ≡ c
    unfolding any_cetus_event scan_events scan_event
    foreign_events tx i c [] h = refl
    foreign_events tx i c (event ∷ events) h =
        let here : is_cetus_event event ≡ false = ground arith in
        let later : any_cetus_event events ≡ false = ground arith in
        ap (λ z. scan_events (cetus fl lib json) env tx (i + 1) z events)
          (ap
            (λ b.
              if b then add_to c.1 ((cetus fl lib json).found_in c.0 (env tx i) event tx) else c)
            here)
        ∙ foreign_events tx (i + 1) c events later

    cetus_skips : SkipsUnsupported (cetus fl lib json) env
    unfolding any_cetus_transaction scan_transactions
    cetus_skips c [] h = refl
    cetus_skips c (tx ∷ txs) h =
        let events = cetus_events json tx.raw in
        let here : any_cetus_event events ≡ false = ground arith in
        let later : any_cetus_transaction json txs ≡ false = ground arith in
        ap (λ z. scan_transactions (cetus fl lib json) env z txs)
          (foreign_events tx 0 c events here)
        ∙ cetus_skips c txs later

  module _ (fee : FeeOf F) where
    bluefin_skips : SkipsUnsupported (bluefin fl lib fee) env
    bluefin_skips c txs h = cc

  -- For Cetus and Bluefin the filter by SupportsBlock loses nothing: on the blocks that pass it,
  -- ExtractDexData collects the same data and ends with the same caches as on all blocks, and it
  -- fails for a missing client on both.
  pub sui_extract_dex_data-select_both :
      (json : ThroughJson F) (fee : FeeOf F) (wired : Bool) (c : CetusExtractor)
      (b : BluefinExtractor F) (blocks : List (SuiBlock F))
      → (sui_extract_dex_data
            (cetus fl lib json)
            wired
            env
            c
            (select (sui_supports_block (cetus fl lib json)) blocks)
          ≡ sui_extract_dex_data (cetus fl lib json) wired env c blocks)
        × (sui_extract_dex_data
              (bluefin fl lib fee)
              wired
              env
              b
              (select (sui_supports_block (bluefin fl lib fee)) blocks)
            ≡ sui_extract_dex_data (bluefin fl lib fee) wired env b blocks)
  sui_extract_dex_data-select_both json fee wired c b blocks = (
    sui_extract_dex_data-select (cetus fl lib json) env (cetus_skips json) wired c blocks,
    sui_extract_dex_data-select (bluefin fl lib fee) env (bluefin_skips fee) wired b blocks,
  )
