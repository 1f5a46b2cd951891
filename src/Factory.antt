-- ===== src/Factory.antt =====
-- internal/parser/dexs/extractor_factory.go (and the factory of the same shape in
-- internal/parser/dexs/factory/factory.go) and internal/parser/dexs/extractor.go: the registry of
-- extractors by name, and the extractor that asks all registered ones. Maps are read in the order of
-- their lists.
pub mod Laws
mod Tests
use chain_parse_service.Base.{
  String, Bool, true, false, ◌||◌, Option, none, some, List, [], ◌∷◌, ◌++◌, str_eq, select,
  if◌then◌else◌,
}
use chain_parse_service.Base.Dict.{Dict, lookup, insert}
use chain_parse_service.Types.{UnifiedBlock, DexData, empty_dex_data}
use chain_parse_service.Engine.{Extractor, merge}
use chain_parse_service.Uniswap.Text.{to_lower}

-- What the factory asks of an extractor.
pub record DexExtractors (F : Type 0) : Type 0 where
  pub protocols : List String
  pub chains : List String
  pub extractor : Extractor F

unfoldable pub has_chain : String → List String → Bool
has_chain chain [] = false
has_chain chain (c ∷ cs) = let rest = has_chain chain cs in if str_eq c chain then true else rest

-- The keys of a set of texts that is filled in this order.
unfoldable pub add_all : List String → List String → List String
unfolding has_chain
add_all seen [] = seen
add_all seen (s ∷ ss) =
    let old = add_all seen ss in
    let new = add_all (seen ++ (s ∷ [])) ss in if has_chain s seen then old else new

module _ {F : Type 0} where
  unfoldable pub register_extractor :
      Dict (DexExtractors F) → String → DexExtractors F → Dict (DexExtractors F)
  unfolding insert to_lower
  register_extractor f name x = insert (to_lower name) x f

  -- `none` is the error.
  unfoldable pub get_extractor : Dict (DexExtractors F) → String → Option (DexExtractors F)
  unfolding lookup to_lower
  get_extractor f name = lookup (to_lower name) f

  unfoldable pub get_all_extractors : Dict (DexExtractors F) → List (DexExtractors F)
  get_all_extractors [] = []
  get_all_extractors ((_, x) ∷ f) = x ∷ get_all_extractors f

  unfoldable pub get_extractors_by_chain : Dict (DexExtractors F) → String → List (DexExtractors F)
  unfolding get_all_extractors has_chain
  get_extractors_by_chain f chain = select (λ x. has_chain chain x.chains) (get_all_extractors f)

  abbrev keys_of :
      (DexExtractors F → List String) → List String → List (DexExtractors F) → List String
  keys_of of seen [] = seen
  keys_of of seen (x ∷ xs) = keys_of of (add_all seen (of x)) xs

  unfoldable pub get_supported_protocols : Dict (DexExtractors F) → List String
  unfolding get_all_extractors add_all
  get_supported_protocols f = keys_of (λ x. x.protocols) [] (get_all_extractors f)

  unfoldable pub get_supported_chains : Dict (DexExtractors F) → List String
  unfolding get_all_extractors add_all
  get_supported_chains f = keys_of (λ x. x.chains) [] (get_all_extractors f)

  abbrev merge_answer : DexData F → Option (DexData F) → DexData F
  merge_answer result none = result
  merge_answer result (some d) = merge result d

  -- What one extractor adds, given the blocks that it supports: a failure is only logged.
  abbrev pub add_data : Extractor F → List UnifiedBlock → DexData F → DexData F
  add_data x [] result = result
  add_data x (b ∷ bs) result = merge_answer result (x.extract (b ∷ bs))

  unfoldable pub extract_each : List (DexExtractors F) → List UnifiedBlock → DexData F → DexData F
  unfolding merge
  extract_each [] blocks result = result
  extract_each (x ∷ xs) blocks result =
      extract_each xs blocks
        (add_data x.extractor (select x.extractor.supports_block blocks) result)

  unfoldable pub extract_with_factory : Dict (DexExtractors F) → List UnifiedBlock → DexData F
  unfolding get_all_extractors extract_each
  extract_with_factory f blocks = extract_each (get_all_extractors f) blocks empty_dex_data

  unfoldable pub any_supports : List (DexExtractors F) → UnifiedBlock → Bool
  any_supports [] block = false
  any_supports (x ∷ xs) block = x.extractor.supports_block block || any_supports xs block

  unfoldable pub factory_supports_block : Dict (DexExtractors F) → UnifiedBlock → Bool
  unfolding get_all_extractors any_supports
  factory_supports_block f block = any_supports (get_all_extractors f) block
