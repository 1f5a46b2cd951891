-- ===== src/Pipeline.antt =====
-- internal/parser/engine/engine.go and internal/parser/dexs/eth/uniswap.go together: the Uniswap
-- extractor as an extractor of the engine.
mod Tests
use mathlib.Core.Path.{subst}
use chain_parse_service.Base.{◌≡◌, refl, sym, ap, ◌∙◌, Option, none, some, List, [], ◌∷◌, select}
use chain_parse_service.Types.{UnifiedTransaction, UnifiedBlock, EthLog, DexData, empty_dex_data}
use chain_parse_service.Engine.{Extractor, extract_dex_data, extract_loop, extract_from, merge}
use chain_parse_service.Uniswap.Floats.{Floats}
use chain_parse_service.Uniswap.Logs.{EthLib}
use chain_parse_service.Uniswap.State.{UniswapExtractor, Env}
use chain_parse_service.Uniswap.Extract
use chain_parse_service.Uniswap.Extract.{scan_blocks, uniswap_extract_dex_data}
use chain_parse_service.Uniswap.Extract.Filter.{uniswap_extract_dex_data-select}

module _ (fl : Floats) (lib : EthLib) (u : UniswapExtractor)
    (env : UnifiedTransaction → EthLog → Env) where
  unfoldable pub uniswap : Extractor fl.Float
  uniswap = record {
    supports_block = Extract.supports_block lib;
    extract = λ blocks. some (uniswap_extract_dex_data fl lib u env blocks).1;
  }

  -- What the engine keeps of the data of one extractor.
  abbrev pub kept : DexData fl.Float → DexData fl.Float
  kept d = record d { swap_records = [] }

  one_extractor :
      (passed blocks : List UnifiedBlock)
      → uniswap_extract_dex_data fl lib u env passed ≡ uniswap_extract_dex_data fl lib u env blocks
      → extract_from uniswap passed empty_dex_data
        ≡ some (kept (uniswap_extract_dex_data fl lib u env blocks).1)
  unfolding uniswap merge uniswap_extract_dex_data scan_blocks
  one_extractor [] blocks same = ap (λ r. some (kept r.1)) same
  one_extractor (b ∷ bs) blocks same = ap (λ r. some (kept r.1)) same

  -- With Uniswap as its extractor, extractDexData of the engine succeeds, and its result is what
  -- ExtractDexData collects from all the blocks, but for the swap records, of which it has none.
  pub extract_dex_data-uniswap :
      (blocks : List UnifiedBlock)
      → extract_dex_data (uniswap ∷ []) blocks
        ≡ some (kept (uniswap_extract_dex_data fl lib u env blocks).1)
  unfolding extract_dex_data extract_loop uniswap
  extract_dex_data-uniswap blocks =
      ap (λ o. elim o [ none ↦ none | some r ↦ extract_loop [] blocks r ])
        (one_extractor (select (Extract.supports_block lib) blocks) blocks
          (uniswap_extract_dex_data-select fl lib env u blocks))
