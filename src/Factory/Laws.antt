-- ===== src/Factory/Laws.antt =====
-- What the registry finds, and what the extractor of all extractors collects.
use chain_parse_service.Base.{
  String, ◌≡◌, refl, ap, ◌∙◌, inl, inr, Bool, true, false, Bool-cases, Option, none, some,
  Option-cases, List, [], ◌∷◌, str_eq, select, arith, if◌then◌else◌, map,
}
use chain_parse_service.Base.Dict.{Dict, lookup, lookup-insert}
use chain_parse_service.Types.{UnifiedBlock, DexData, empty_dex_data}
use chain_parse_service.Engine.{Extractor, extract_from, extract_loop, extract_dex_data}
use chain_parse_service.Uniswap.Text.{to_lower}
use chain_parse_service.Factory.{
  DexExtractors, register_extractor, get_extractor, get_all_extractors, add_data, extract_each,
  extract_with_factory,
}

select_kept :
    {A : Type 0} (p : A → Bool) (x : A) (xs : List A)
    → p x ≡ true
    → select p (x ∷ xs) ≡ x ∷ select p xs
select_kept p x xs t = rw (t, select) refl

select_dropped :
    {A : Type 0} (p : A → Bool) (x : A) (xs : List A)
    → p x ≡ false
    → select p (x ∷ xs) ≡ select p xs
select_dropped p x xs f = rw (f, select) refl

module _ {F : Type 0} where
  unfoldable pub register_each :
      Dict (DexExtractors F) → List (String × DexExtractors F) → Dict (DexExtractors F)
  unfolding register_extractor
  register_each f [] = f
  register_each f ((name, x) ∷ xs) = register_each (register_extractor f name x) xs

  -- The last extractor of the list whose name is the same but for the case of letters.
  unfoldable pub last_named :
      String → Option (DexExtractors F) → List (String × DexExtractors F) → Option (DexExtractors F)
  last_named name found [] = found
  last_named name found ((n, x) ∷ xs) =
      last_named name (if str_eq (to_lower n) (to_lower name) then some x else found) xs

  get_extractor-register_extractor :
      (f : Dict (DexExtractors F)) (n : String) (x : DexExtractors F) (name : String)
      → get_extractor (register_extractor f n x) name
        ≡ (if str_eq (to_lower n) (to_lower name) then some x else get_extractor f name)
  unfolding register_extractor get_extractor
  get_extractor-register_extractor f n x name = lookup-insert (to_lower n) (to_lower name) x f

  get_extractor-register_each_from :
      (f : Dict (DexExtractors F)) (xs : List (String × DexExtractors F)) (name : String)
      → get_extractor (register_each f xs) name ≡ last_named name (get_extractor f name) xs
  unfolding register_each last_named
  get_extractor-register_each_from f [] name = refl
  get_extractor-register_each_from f ((n, x) ∷ xs) name =
      get_extractor-register_each_from (register_extractor f n x) xs name
      ∙ ap (λ o. last_named name o xs) (get_extractor-register_extractor f n x name)

  -- After any registrations on a new factory, GetExtractor gives the extractor that was registered
  -- last under the name, where upper and lower case are the same, and an error for a name that was
  -- never registered.
  pub get_extractor-register_each :
      (xs : List (String × DexExtractors F)) (name : String)
      → get_extractor (register_each [] xs) name ≡ last_named name none xs
  unfolding get_extractor lookup
  get_extractor-register_each xs name = get_extractor-register_each_from [] xs name

  -- Whether the extractor answers for these blocks; without blocks it is not asked.
  abbrev pub answers : Extractor F → List UnifiedBlock → Bool
  answers x [] = true
  answers x (b ∷ bs) = elim (x.extract (b ∷ bs)) [ none ↦ false | some d ↦ true ]

  abbrev pub healthy : List UnifiedBlock → DexExtractors F → Bool
  healthy blocks x = answers x.extractor (select x.extractor.supports_block blocks)

  abbrev pub engine_extractors : List (DexExtractors F) → List (Extractor F)
  engine_extractors = map (λ x. x.extractor)

  answered :
      (x : Extractor F) (bs : List UnifiedBlock) (result : DexData F)
      → answers x bs ≡ true
      → extract_from x bs result ≡ some (add_data x bs result)
  answered x [] result t = refl
  answered x (b ∷ bs) result t = ground (arith, Option-cases (x.extract (b ∷ bs)))

  unanswered :
      (x : Extractor F) (bs : List UnifiedBlock) (result : DexData F)
      → answers x bs ≡ false
      → add_data x bs result ≡ result
  unanswered x [] result t = refl
  unanswered x (b ∷ bs) result t = ground (arith, Option-cases (x.extract (b ∷ bs)))

  extract_loop-healthy :
      (xs : List (DexExtractors F)) (blocks : List UnifiedBlock) (result : DexData F)
      → extract_loop (engine_extractors (select (healthy blocks) xs)) blocks result
        ≡ some (extract_each xs blocks result)
  unfolding extract_loop extract_each
  extract_loop-healthy [] blocks result = refl
  extract_loop-healthy (x ∷ xs) blocks result = elim (Bool-cases (healthy blocks x)) [
    | inl t ↦
        ap (λ l. extract_loop (engine_extractors l) blocks result)
          (select_kept (healthy blocks) x xs t)
        ∙ rw
            (answered x.extractor (select x.extractor.supports_block blocks) result t, extract_loop)
            (extract_loop-healthy xs blocks _)
    | inr f ↦
        ap (λ l. extract_loop (engine_extractors l) blocks result)
          (select_dropped (healthy blocks) x xs f)
        ∙ rw
            (
              unanswered x.extractor (select x.extractor.supports_block blocks) result f,
              extract_each,
            )
            (extract_loop-healthy xs blocks result)
  ]

  -- Leaving out the extractors that fail on the blocks they support, the engine's merge never fails
  -- and gives what the extractor of all registered extractors gives, in which the failing ones are
  -- logged and skipped. Without a supported block an extractor is not asked and does not count as
  -- failing.
  pub extract_dex_data-healthy :
      (f : Dict (DexExtractors F)) (blocks : List UnifiedBlock)
      → extract_dex_data (engine_extractors (select (healthy blocks) (get_all_extractors f))) blocks
        ≡ some (extract_with_factory f blocks)
  unfolding extract_dex_data extract_with_factory
  extract_dex_data-healthy f blocks =
      extract_loop-healthy (get_all_extractors f) blocks empty_dex_data
