-- ===== src/Factory/Tests.antt =====
-- A registry of one extractor that answers and one that fails.
use chain_parse_service.Base.{ℕ, String, ◌≡◌, refl, true, none, some, List, [], ◌∷◌, select, str_eq}
use chain_parse_service.Base.Dict.{Dict}
use chain_parse_service.Base.Int.{pos}
use chain_parse_service.Types.{UnifiedBlock, empty_dex_data}
use chain_parse_service.Engine.{extract_dex_data}
use chain_parse_service.Factory.{
  DexExtractors, get_all_extractors, get_supported_chains, get_extractors_by_chain,
  extract_with_factory,
}
use chain_parse_service.Factory.Laws.{healthy, engine_extractors, extract_dex_data-healthy}

abbrev answering : DexExtractors ℕ
answering = record {
  protocols = "uniswap" ∷ [];
  chains = "ethereum" ∷ "bsc" ∷ [];
  extractor = record {
    supports_block = λ b. str_eq b.chain_type "ethereum";
    extract = λ bs. some empty_dex_data;
  };
}

abbrev failing : DexExtractors ℕ
failing = record {
  protocols = "cetus" ∷ [];
  chains = "bsc" ∷ [];
  extractor = record { supports_block = λ b. true; extract = λ bs. none };
}

abbrev named : List (String × DexExtractors ℕ)
named = ("Uniswap", failing) ∷ ("cetus", failing) ∷ ("UNISWAP", answering) ∷ []

abbrev registry : Dict (DexExtractors ℕ)
registry = ("uniswap", answering) ∷ ("cetus", failing) ∷ []

abbrev block : UnifiedBlock
block = record { block_number = pos 5; chain_type = "ethereum"; transactions = [] }

chains_once : get_supported_chains registry ≡ "ethereum" ∷ "bsc" ∷ []
unfolding get_supported_chains
chains_once = refl

both_on_bsc : get_extractors_by_chain registry "bsc" ≡ answering ∷ failing ∷ []
unfolding get_extractors_by_chain
both_on_bsc = refl

extract_dex_data-healthy_example :
    extract_dex_data
      (engine_extractors (select (healthy (block ∷ [])) (get_all_extractors registry)))
      (block ∷ [])
    ≡ some (extract_with_factory registry (block ∷ []))
extract_dex_data-healthy_example = extract_dex_data-healthy registry (block ∷ [])
