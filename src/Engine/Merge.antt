-- ===== src/Engine/Merge.antt =====
-- What extractDexData puts together.
use chain_parse_service.Base.{
  ◌≡◌, refl, sym, ◌∙◌, some, List, [], ◌∷◌, ◌++◌, append-nil, append_assoc, arith, select,
  concat_by, Option-cases, inl, inr,
}
use mathlib.Core.Path.{subst}
use mathlib.Core.Option.{some-injective}
use chain_parse_service.Types.{UnifiedBlock, DexData, empty_dex_data}
use chain_parse_service.Engine.{Extractor, merge, extract_from, extract_loop, extract_dex_data}

-- One step of the answers: an extractor that supports none of the blocks is not called.
pub data Answer {F : Type 0} (x : Extractor F)
    : List UnifiedBlock → List (DexData F) → List (DexData F) → Type 0 where
  skipped : {ds : List (DexData F)} → Answer x [] ds ds
  called :
      {b : UnifiedBlock} {bs : List UnifiedBlock} {d : DexData F} {ds : List (DexData F)}
      → x.extract (b ∷ bs) ≡ some d
      → Answer x (b ∷ bs) (d ∷ ds) ds

-- The answers of the extractors, in order, each to exactly the blocks that it supports.
pub data Answers {F : Type 0} (blocks : List UnifiedBlock)
    : List (Extractor F) → List (DexData F) → Type 0 where
  done : Answers blocks [] []
  next :
      {x : Extractor F} {xs : List (Extractor F)} {ds es : List (DexData F)}
      → Answer x (select x.supports_block blocks) ds es
      → Answers blocks xs es
      → Answers blocks (x ∷ xs) ds

-- `d` is `r` with the answers `ds` appended, but for the swap records, which are those of `r`.
pub record Appended {F : Type 0} (r d : DexData F) (ds : List (DexData F)) : Type 0 where
  pub pools : d.pools ≡ r.pools ++ concat_by (λ (e : DexData F). e.pools) ds
  pub transactions :
      d.transactions ≡ r.transactions ++ concat_by (λ (e : DexData F). e.transactions) ds
  pub liquidities : d.liquidities ≡ r.liquidities ++ concat_by (λ (e : DexData F). e.liquidities) ds
  pub reserves : d.reserves ≡ r.reserves ++ concat_by (λ (e : DexData F). e.reserves) ds
  pub tokens : d.tokens ≡ r.tokens ++ concat_by (λ (e : DexData F). e.tokens) ds
  pub swap_records : d.swap_records ≡ r.swap_records

module _ {F : Type 0} where
  Appended-nil : (r : DexData F) → Appended r r []
  Appended-nil r = record {
    pools = sym (append-nil _);
    transactions = sym (append-nil _);
    liquidities = sym (append-nil _);
    reserves = sym (append-nil _);
    tokens = sym (append-nil _);
    swap_records = refl;
  }

  Appended-cons :
      (r e d : DexData F) (ds : List (DexData F))
      → Appended (merge r e) d ds
      → Appended r d (e ∷ ds)
  unfolding merge
  Appended-cons r e d ds a = record {
    pools = a.pools ∙ append_assoc r.pools _ _;
    transactions = a.transactions ∙ append_assoc r.transactions _ _;
    liquidities = a.liquidities ∙ append_assoc r.liquidities _ _;
    reserves = a.reserves ∙ append_assoc r.reserves _ _;
    tokens = a.tokens ∙ append_assoc r.tokens _ _;
    swap_records = a.swap_records;
  }

  called-merge :
      (x : Extractor F) (b : UnifiedBlock) (bs : List UnifiedBlock) (r r' : DexData F)
      → extract_from x (b ∷ bs) r ≡ some r'
      → (e : DexData F) × (x.extract (b ∷ bs) ≡ some e) × (merge r e ≡ r')
  called-merge x b bs r r' h = elim (Option-cases (x.extract (b ∷ bs))) [
    | inl fails ↦ ground (arith, fails)
    | inr (e, gives) ↦ (e, gives, some-injective _ _ (rw (gives, extract_from) at h))
  ]

  extract_from-Answer :
      (x : Extractor F) (blocks : List UnifiedBlock) (r r' d : DexData F) (es : List (DexData F))
      → extract_from x blocks r ≡ some r'
      → Appended r' d es
      → (ds : List (DexData F)) × Answer x blocks ds es × Appended r d ds
  extract_from-Answer x [] r r' d es h a =
      (es, skipped, subst (λ t. Appended t d es) (sym (some-injective r r' h)) a)
  extract_from-Answer x (b ∷ bs) r r' d es h a =
      let (e, gives, same) = called-merge x b bs r r' h in
      (e ∷ es, called gives, Appended-cons r e d es (subst (λ t. Appended t d es) (sym same) a))

  extract_loop-Answers :
      (xs : List (Extractor F)) (blocks : List UnifiedBlock) (r d : DexData F)
      → extract_loop xs blocks r ≡ some d
      → (ds : List (DexData F)) × Answers blocks xs ds × Appended r d ds
  unfolding extract_loop
  extract_loop-Answers [] blocks r d h =
      ([], done, subst (λ t. Appended r t []) (some-injective r d h) (Appended-nil r))
  extract_loop-Answers (x ∷ xs) blocks r d h =
      elim (Option-cases (extract_from x (select x.supports_block blocks) r)) [
        | inl fails ↦ ground (arith, fails)
        | inr (r', gives) ↦
            let (es, answers, rest) =
              extract_loop-Answers xs blocks r' d (rw (gives, extract_loop) at h) in
            let (ds, answer, all) =
              extract_from-Answer x (select x.supports_block blocks) r r' d es gives rest in
            (ds, next answer answers, all)
      ]

  -- If extractDexData succeeds, every extractor was asked about exactly the blocks that it
  -- supports (and not called where there are none), no call failed, and the pools, transactions,
  -- liquidities, reserves and tokens of the result are those of the answers in the order of the
  -- extractors. Its swap records are empty, whatever the answers hold.
  pub extract_dex_data-Answers :
      (xs : List (Extractor F)) (blocks : List UnifiedBlock) (d : DexData F)
      → extract_dex_data xs blocks ≡ some d
      → (ds : List (DexData F)) × Answers blocks xs ds × Appended empty_dex_data d ds
  unfolding extract_dex_data
  extract_dex_data-Answers xs blocks d h = extract_loop-Answers xs blocks empty_dex_data d h
