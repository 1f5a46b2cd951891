-- ===== src/Engine/Lifecycle.antt =====
-- internal/parser/engine/engine.go: NewEngine, the registrations with the injection of chain
-- processors into extractors, Start and Stop. A chain processor is a value of the parameter `P`.
-- Start launches a goroutine for each chain; `loops` lists them, and a loop runs until the
-- engine's context is cancelled, which Stop does.
pub mod Injection
pub mod Restart
mod Tests
use chain_parse_service.Base.{
  ℕ, String, ◌≡◌, Bool, true, false, ◌&&◌, ◌||◌, not, Option, none, some, List, [], ◌∷◌, ◌++◌, map,
  str_eq, if◌then◌else◌,
}
use chain_parse_service.Base.Dict.{Dict, lookup, insert}
use chain_parse_service.Types.{ethereum, sui}
use chain_parse_service.Engine.{ChainConfig, EngineConfig}

-- A registered extractor: the chains that it supports, which of the two `Injectable` interfaces it
-- implements, and the processors that the engine gave it last.
pub record DexExtractor (P : Type 0) : Type 0 where
  pub supported_chains : List String
  pub sui_injectable : Bool
  pub evm_injectable : Bool
  pub sui_processor : Option P
  pub evm_processor : Option P

pub record Engine (P : Type 0) : Type 0 where
  pub chain_processors : Dict P
  pub dex_extractors : List (DexExtractor P)
  pub has_storage : Bool
  pub config : EngineConfig
  pub running : Bool
  pub cancelled : Bool
  pub loops : List String

pub data StartError : Type 0 where
  already_running no_storage no_processors : StartError

unfoldable pub contains : List String → String → Bool
contains [] c = false
contains (d ∷ ds) c = str_eq d c || contains ds c

abbrev is_disabled : Option ChainConfig → Bool
is_disabled none = false
is_disabled (some c) = not c.enabled

module _ {P : Type 0} where
  unfoldable pub new_engine : EngineConfig → Engine P
  new_engine config = record {
    chain_processors = [];
    dex_extractors = [];
    has_storage = false;
    config = config;
    running = false;
    cancelled = false;
    loops = [];
  }

  -- The two type assertions, each for its own chain.
  unfoldable pub inject : String → P → DexExtractor P → DexExtractor P
  inject chain p x = record x {
    sui_processor = if x.sui_injectable && str_eq chain sui then some p else x.sui_processor;
    evm_processor = if x.evm_injectable && str_eq chain ethereum then some p else x.evm_processor;
  }

  abbrev inject_found : String → Option P → DexExtractor P → DexExtractor P
  inject_found chain none x = x
  inject_found chain (some p) x = inject chain p x

  -- injectChainProcessors: a new extractor gets the processors of its chains.
  unfoldable pub inject_chain_processors : Dict P → List String → DexExtractor P → DexExtractor P
  inject_chain_processors processors [] x = x
  inject_chain_processors processors (c ∷ cs) x =
      inject_chain_processors processors cs (inject_found c (lookup c processors) x)

  -- injectChainProcessorToExtractors: a new processor goes to the extractors of its chain. The
  -- loop over the supported chains breaks at the first that is equal.
  unfoldable pub inject_to : String → P → DexExtractor P → DexExtractor P
  inject_to chain p x = if contains x.supported_chains chain then inject chain p x else x

  unfoldable pub register_chain_processor : Engine P → String → P → Engine P
  register_chain_processor e chain p = record e {
    chain_processors = insert chain p e.chain_processors;
    dex_extractors = map (inject_to chain p) e.dex_extractors;
  }

  unfoldable pub register_dex_extractor : Engine P → DexExtractor P → Engine P
  register_dex_extractor e x = record e {
    dex_extractors =
        e.dex_extractors ++ inject_chain_processors e.chain_processors x.supported_chains x ∷ [];
  }

  unfoldable pub set_storage_engine : Engine P → Engine P
  set_storage_engine e = record e { has_storage = true }

  -- The chains whose loop Start launches.
  unfoldable pub enabled_chains : Dict ChainConfig → Dict P → List String
  enabled_chains configs [] = []
  enabled_chains configs ((chain, _) ∷ d) =
      let rest = enabled_chains configs d in
      if is_disabled (lookup chain configs) then rest else chain ∷ rest

  abbrev is_empty : Dict P → Bool
  is_empty [] = true
  is_empty (_ ∷ _) = false

  unfoldable pub start : Engine P → Engine P × Option StartError
  start e =
      if e.running
      then (e, some already_running)
      else if not e.has_storage
      then (e, some no_storage)
      else if is_empty e.chain_processors
      then (e, some no_processors)
      else (
        record e {
          running = true;
          loops = e.loops ++ enabled_chains e.config.chain_configs e.chain_processors;
        },
        none,
      )

  unfoldable pub stop : Engine P → Engine P
  stop e = if e.running then record e { running = false; cancelled = true } else e

  -- processChain returns once the context is done.
  unfoldable pub live_loops : Engine P → List String
  live_loops e = if e.cancelled then [] else e.loops
