-- ===== src/Engine/Lifecycle/Injection.antt =====
-- Which processors the extractors hold, whatever the order of the registrations.
use chain_parse_service.Base.{
  String, ◌≡◌, Bool, Option, none, some, List, [], ◌∷◌, ◌++◌, map, str_eq, str_eq_iff,
  if◌then◌else◌, All, arith, Bool-cases, inl, inr,
}
use chain_parse_service.Base.Dict.{Dict, lookup, insert, lookup-insert}
use chain_parse_service.Types.{ethereum, sui}
use chain_parse_service.Engine.Lifecycle.{
  DexExtractor, Engine, contains, inject, inject_found, inject_chain_processors, inject_to,
  register_chain_processor, register_dex_extractor,
}

module _ {P : Type 0} where
  -- What an extractor should hold: of the chain that an interface is for, the processor that was
  -- registered last, if it implements the interface and supports the chain.
  abbrev pub wanted : Bool → DexExtractor P → String → Dict P → Option P
  wanted injectable x chain processors =
      if injectable
      then if contains x.supported_chains chain then lookup chain processors else none
      else none

  pub record Holds (processors : Dict P) (x : DexExtractor P) : Type 0 where
    pub sui_held : x.sui_processor ≡ wanted x.sui_injectable x sui processors
    pub evm_held : x.evm_processor ≡ wanted x.evm_injectable x ethereum processors

  inject_to-Holds :
      (processors : Dict P) (chain : String) (p : P) (x : DexExtractor P)
      → Holds processors x
      → Holds (insert chain p processors) (inject_to chain p x)
  unfolding inject_to inject
  inject_to-Holds processors chain p x h = ground (
    arith,
    lookup-insert chain sui p processors,
    lookup-insert chain ethereum p processors,
    str_eq_iff chain sui,
    str_eq_iff chain ethereum,
  )

  map-All :
      (processors : Dict P) (chain : String) (p : P) (xs : List (DexExtractor P))
      → All (Holds processors) xs
      → All (Holds (insert chain p processors)) (map (inject_to chain p) xs)
  map-All processors chain p [] h = tt
  map-All processors chain p (x ∷ xs) h =
      (inject_to-Holds processors chain p x h.0, map-All processors chain p xs h.1)

  abbrev or_else : Option P → Option P → Option P
  or_else none o = o
  or_else (some p) o = some p

  -- What the loop of injectChainProcessors leaves in the extractor.
  record Looped (processors : Dict P) (cs : List String) (x y : DexExtractor P) : Type 0 where
    chains : y.supported_chains ≡ x.supported_chains
    sui_same : y.sui_injectable ≡ x.sui_injectable
    evm_same : y.evm_injectable ≡ x.evm_injectable
    sui_set : y.sui_processor ≡ (
        if x.sui_injectable
        then if contains cs sui
          then or_else (lookup sui processors) x.sui_processor
          else x.sui_processor
        else x.sui_processor)
    evm_set : y.evm_processor ≡ (
        if x.evm_injectable
        then if contains cs ethereum
          then or_else (lookup ethereum processors) x.evm_processor
          else x.evm_processor
        else x.evm_processor)

  inject_found-Looped :
      (processors : Dict P) (c : String) (x : DexExtractor P)
      → Looped processors (c ∷ []) x (inject_found c (lookup c processors) x)
  unfolding inject contains
  inject_found-Looped processors c x = elim (Bool-cases (str_eq c sui)) [
    | inl is_sui ↦ let e : c ≡ sui = (str_eq_iff c sui).0 is_sui in rw e (ground arith)
    | inr not_sui ↦ elim (Bool-cases (str_eq c ethereum)) [
      | inl is_eth ↦ let e : c ≡ ethereum = (str_eq_iff c ethereum).0 is_eth in rw e (ground arith)
      | inr not_eth ↦ ground (arith, not_sui, not_eth)
    ]
  ]

  inject_chain_processors-Looped :
      (processors : Dict P) (cs : List String) (x : DexExtractor P)
      → Looped processors cs x (inject_chain_processors processors cs x)
  unfolding inject_chain_processors contains
  inject_chain_processors-Looped processors [] x = ground arith
  inject_chain_processors-Looped processors (c ∷ cs) x =
      let y = inject_found c (lookup c processors) x in
      ground
        (arith, inject_found-Looped processors c x, inject_chain_processors-Looped processors cs y)

  pub record IsFresh (x : DexExtractor P) : Type 0 where
    pub no_sui : x.sui_processor ≡ none
    pub no_evm : x.evm_processor ≡ none

  inject_chain_processors-Holds :
      (processors : Dict P) (x : DexExtractor P)
      → IsFresh x
      → Holds processors (inject_chain_processors processors x.supported_chains x)
  inject_chain_processors-Holds processors x f =
      ground (arith, inject_chain_processors-Looped processors x.supported_chains x)

  All-append :
      (processors : Dict P) (xs : List (DexExtractor P)) (x : DexExtractor P)
      → All (Holds processors) xs
      → Holds processors x
      → All (Holds processors) (xs ++ x ∷ [])
  All-append processors [] x h k = (k, tt)
  All-append processors (y ∷ xs) x h k = (h.0, All-append processors xs x h.1 k)

-- A call of one of the two registrations.
pub data Registration (P : Type 0) : Type 0 where
  processor : String → P → Registration P
  extractor : DexExtractor P → Registration P

module _ {P : Type 0} where
  unfoldable pub register : Engine P → Registration P → Engine P
  register e (processor chain p) = register_chain_processor e chain p
  register e (extractor x) = register_dex_extractor e x

  unfoldable pub register_all : Engine P → List (Registration P) → Engine P
  register_all e [] = e
  register_all e (r ∷ rs) = register_all (register e r) rs

  -- An extractor comes to its registration with no processor.
  abbrev pub FreshOnly : Registration P → Type 0
  FreshOnly (processor chain p) = Unit
  FreshOnly (extractor x) = IsFresh x

  abbrev pub AllHold : Engine P → Type 0
  AllHold e = All (Holds e.chain_processors) e.dex_extractors

  register-AllHold :
      (e : Engine P) (r : Registration P) → FreshOnly r → AllHold e → AllHold (register e r)
  unfolding register register_chain_processor register_dex_extractor
  register-AllHold e (processor chain p) f h = map-All e.chain_processors chain p e.dex_extractors h
  register-AllHold e (extractor x) f h =
      All-append e.chain_processors e.dex_extractors _ h
        (inject_chain_processors-Holds e.chain_processors x f)

  -- After any sequence of registrations of processors and of fresh extractors, in any order and
  -- with replacements, every extractor holds exactly the processors that it should: that of Sui
  -- and that of Ethereum which were registered last, where it implements the interface and
  -- supports the chain, and none otherwise.
  pub register_all-AllHold :
      (e : Engine P) (rs : List (Registration P))
      → All FreshOnly rs
      → AllHold e
      → AllHold (register_all e rs)
  unfolding register_all
  register_all-AllHold e [] f h = h
  register_all-AllHold e (r ∷ rs) f h =
      register_all-AllHold (register e r) rs f.1 (register-AllHold e r f.0 h)
