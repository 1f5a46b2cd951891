-- ===== src/Engine/Lifecycle/Tests.antt =====
-- Runs of the registrations and of Start and Stop, and their theorems at concrete inputs.
use chain_parse_service.Base.{ℕ, ◌≡◌, refl, true, false, none, List, [], ◌∷◌}
use chain_parse_service.Base.Dict.{lookup, insert}
use chain_parse_service.Base.Int.{pos}
use chain_parse_service.Types.{ethereum, bsc}
use chain_parse_service.Engine.{EngineConfig}
use chain_parse_service.Engine.Lifecycle.{
  DexExtractor, Engine, new_engine, start, stop, live_loops, set_storage_engine,
  register_chain_processor, register_dex_extractor, inject_to, inject, contains,
  inject_chain_processors, enabled_chains,
}
use chain_parse_service.Engine.Lifecycle.Injection.{
  Registration, processor, extractor, AllHold, register, register_all, register_all-AllHold,
}
use chain_parse_service.Engine.Lifecycle.Restart.{start-stop}

abbrev config : EngineConfig
config = record {
  batch_size = pos 100;
  chain_configs = (bsc, record { enabled = false; start_block = pos 0; batch_size = pos 0 }) ∷ [];
}

abbrev uniswap : DexExtractor ℕ
uniswap = record {
  supported_chains = ethereum ∷ [];
  sui_injectable = false;
  evm_injectable = true;
  sui_processor = none;
  evm_processor = none;
}

abbrev late : List (Registration ℕ)
late = processor bsc 1 ∷ extractor uniswap ∷ processor ethereum 2 ∷ []

register_all-AllHold_example : AllHold (register_all (new_engine config) late)
unfolding new_engine
register_all-AllHold_example =
    register_all-AllHold (new_engine config) late
      (tt, (record { no_sui = refl; no_evm = refl }, (tt, tt))) tt

abbrev running_engine : Engine ℕ
running_engine = (start (set_storage_engine (register_all (new_engine config) late))).0

-- The disabled chain has no loop.
running_loops : live_loops running_engine ≡ ethereum ∷ []
unfolding live_loops start set_storage_engine register_all register register_chain_processor
    register_dex_extractor new_engine insert inject_to contains inject inject_chain_processors
    enabled_chains lookup
running_loops = refl

start-stop_example :
    ((start (stop running_engine)).1 ≡ none)
    × ((start (stop running_engine)).0.running ≡ true)
    × (live_loops (start (stop running_engine)).0 ≡ [])
unfolding start set_storage_engine register_all register register_chain_processor
    register_dex_extractor new_engine insert inject_to contains inject inject_chain_processors
    enabled_chains lookup
start-stop_example = start-stop running_engine refl refl (λ e. cc)
