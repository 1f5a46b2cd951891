-- ===== src/Pipeline/Tests.antt =====
-- The theorem on the engine with Uniswap at concrete blocks.
use chain_parse_service.Base.{◌≡◌, some, [], ◌∷◌}
use chain_parse_service.Engine.{extract_dex_data}
use chain_parse_service.Uniswap.Extract.{uniswap_extract_dex_data}
use chain_parse_service.Uniswap.Examples.{whole, eth, fresh, offline, blocks}
use chain_parse_service.Pipeline.{uniswap, kept, extract_dex_data-uniswap}

extract_dex_data-uniswap_example :
    extract_dex_data (uniswap whole eth fresh (λ _ _. offline) ∷ []) blocks
    ≡ some (
        kept whole eth fresh
          (λ _ _. offline)
          (uniswap_extract_dex_data whole eth fresh (λ _ _. offline) blocks).1)
extract_dex_data-uniswap_example = extract_dex_data-uniswap whole eth fresh (λ _ _. offline) blocks
