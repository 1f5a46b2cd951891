-- ===== src/Engine/Batch/Trace.antt =====
-- What a tick of processChainBatch does, on every path.
use chain_parse_service.Base.{
  ℕ, ◌≡◌, refl, ◌≢◌, ◌⊎◌, inl, inr, String, true, none, some, List, [], ◌∷◌, ◌++◌, arith, ltb,
  if◌then◌else◌, length, ap, Option-cases, Bool-cases, ltb→lt, sym, ◌∙◌,
}
use mathlib.Core.Path.{subst}
use chain_parse_service.Base.Int.{ℤ, ltb_ℤ, ◌<ℤ◌}
use chain_parse_service.Types.{UnifiedBlock, DexData, ProcessProgress}
use chain_parse_service.Engine.{
  Effect, fetch, store_blocks, store_transactions, store_dex_data, update_progress, Outcome,
  Replies, EngineConfig, Extractor, save, store_batch, advance, all_transactions, total_dex_records,
  process_chain_batch, fetch_range, extract_and_store, extract_dex_data, start_block, end_block,
  batch_size, get_or_create_progress,
}

-- The calls of a batch whose every call succeeds.
abbrev pub when_any {ℓ} : {A : Type ℓ} → ℕ → A → List A
when_any n a = if ltb 0 n then a ∷ [] else []

module _ {F : Type 0} where
  abbrev pub full_trace :
      Replies F → ProcessProgress F → ℤ → List UnifiedBlock → DexData F → List (Effect F)
  full_trace r p end blocks d =
      store_blocks blocks
      ∷ (when_any (length (all_transactions blocks)) (store_transactions (all_transactions blocks))
          ++ (when_any (total_dex_records d) (store_dex_data d)
              ++ (save r.tracker (advance p end blocks d r.now)).trace))

  -- The progress records that a trace saves.
  abbrev pub saves : List (Effect F) → List (ProcessProgress F)
  saves [] = []
  saves (update_progress p ∷ es) = p ∷ saves es
  saves (fetch s e ∷ es) = saves es
  saves (store_blocks bs ∷ es) = saves es
  saves (store_transactions txs ∷ es) = saves es
  saves (store_dex_data d ∷ es) = saves es

  store_batch_cases :
      (r : Replies F) (p : ProcessProgress F) (end : ℤ) (blocks : List UnifiedBlock) (d : DexData F)
      → (((store_batch r p end blocks d).error ≡ none)
          × ((store_batch r p end blocks d).trace ≡ full_trace r p end blocks d)
          × (r.store_blocks_ok ≡ true))
        ⊎ (((store_batch r p end blocks d).error ≢ none)
            × (saves (store_batch r p end blocks d).trace ≡ []))
  unfolding store_batch
  store_batch_cases r p end blocks d = ground arith

  -- A tick that fetched the range from `start` to `end`, got blocks, extracted their data and
  -- stored all of it, and then saved the progress `end` if there is a tracker.
  pub record Completed (xs : List (Extractor F)) (r : Replies F) (p : ProcessProgress F)
      (start end : ℤ) (o : Outcome F) : Type 0 where
    pub blocks : List UnifiedBlock
    pub dex : DexData F
    pub fetched : r.blocks start end ≡ some blocks
    pub some_blocks : blocks ≢ []
    pub extracted : extract_dex_data xs blocks ≡ some dex
    pub no_error : o.error ≡ none
    pub trace : o.trace ≡ fetch start end ∷ full_trace r p end blocks dex

  extract_and_store_cases :
      (xs : List (Extractor F)) (r : Replies F) (p : ProcessProgress F) (end : ℤ)
      (blocks : List UnifiedBlock)
      → ((d : DexData F) × (blocks ≢ [])
          × (extract_dex_data xs blocks ≡ some d)
          × ((extract_and_store xs r p end blocks).error ≡ none)
          × ((extract_and_store xs r p end blocks).trace ≡ full_trace r p end blocks d))
        ⊎ (saves (extract_and_store xs r p end blocks).trace ≡ [])
  extract_and_store_cases xs r p end [] = inr refl
  extract_and_store_cases xs r p end (b ∷ bs) = elim (Option-cases (extract_dex_data xs (b ∷ bs))) [
    | inl fails ↦ inr (ground (arith, fails))
    | inr (d, gives) ↦ elim (store_batch_cases r p end (b ∷ bs) d) [
      | inl ok ↦ inl (d, (λ e. cc), gives, ground (arith, gives, ok), ground (arith, gives, ok))
      | inr bad ↦ inr (ground (arith, gives, bad))
    ]
  ]

  fetch_range_cases :
      (xs : List (Extractor F)) (r : Replies F) (p : ProcessProgress F) (start end : ℤ)
      → Completed xs r p start end (fetch_range xs r p start end)
        ⊎ (saves (fetch_range xs r p start end).trace ≡ [])
  unfolding fetch_range
  fetch_range_cases xs r p start end = elim (Option-cases (r.blocks start end)) [
    | inl fails ↦ inr (ground (arith, fails))
    | inr (blocks, gives) ↦ elim (extract_and_store_cases xs r p end blocks) [
      | inl (d, any, extracted, fine, trace) ↦ inl (record {
        blocks = blocks;
        dex = d;
        fetched = gives;
        some_blocks = any;
        extracted = extracted;
        no_error = rw (gives, fetch_range) fine;
        trace = rw (gives, fetch_range) (ap (λ t. fetch start end ∷ t) trace);
      })
      | inr bad ↦ inr (rw (gives, fetch_range) bad)
    ]
  ]

  -- The range of a tick: where it starts, where it ends.
  abbrev pub first_block : EngineConfig → String → Replies F → ℤ → ℤ
  first_block cfg chain r latest =
      start_block cfg chain (get_or_create_progress chain r).last_processed_block latest

  abbrev pub last_block : EngineConfig → String → Replies F → ℤ → ℤ
  last_block cfg chain r latest =
      end_block (first_block cfg chain r latest) (batch_size cfg chain) latest

  pub batch-fetch_range :
      (cfg : EngineConfig) (chain : String) (xs : List (Extractor F)) (r : Replies F) (latest : ℤ)
      → r.latest ≡ some latest
      → ltb_ℤ (first_block cfg chain r latest) (last_block cfg chain r latest) ≡ true
      → process_chain_batch cfg chain xs r
        ≡ fetch_range xs r
            (get_or_create_progress chain r)
            (first_block cfg chain r latest)
            (last_block cfg chain r latest)
  unfolding process_chain_batch
  batch-fetch_range cfg chain xs r latest gives goes = ground (arith, gives, goes)

  -- A tick completed the range from its first to its last block, or it saved no progress.
  abbrev pub CompletesOrKeeps : EngineConfig → String → List (Extractor F) → Replies F → Type 0
  CompletesOrKeeps cfg chain xs r =
      ((latest : ℤ) × (r.latest ≡ some latest)
        × (first_block cfg chain r latest <ℤ last_block cfg chain r latest)
        × Completed xs r (get_or_create_progress chain r) (first_block cfg chain r latest)
            (last_block cfg chain r latest) (process_chain_batch cfg chain xs r))
      ⊎ (saves (process_chain_batch cfg chain xs r).trace ≡ [])

  -- A tick either completes a nonempty range, with no error and with the calls of a completed
  -- tick in their order, or saves no progress: the progress of the chain moves only past blocks
  -- that were fetched, extracted and stored.
  pub process_chain_batch_cases :
      (cfg : EngineConfig) (chain : String) (xs : List (Extractor F)) (r : Replies F)
      → CompletesOrKeeps cfg chain xs r
  unfolding process_chain_batch
  process_chain_batch_cases cfg chain xs r = elim (Option-cases r.latest) [
    | inl fails ↦ inr (ground (arith, fails))
    | inr (latest, gives) ↦
        let p = get_or_create_progress chain r in
        let s = first_block cfg chain r latest in
        let e = last_block cfg chain r latest in
        elim (Bool-cases (ltb_ℤ s e)) [
          | inr over ↦ inr (ground (arith, gives, over))
          | inl goes ↦ elim (fetch_range_cases xs r p s e) [
            | inl c ↦ inl (
              latest,
              gives,
              ltb→lt _ _ goes,
              subst (Completed xs r p s e)
                  (sym (batch-fetch_range cfg chain xs r latest gives goes)) c,
            )
            | inr bad ↦ inr (
                ap (λ (o : Outcome F). saves o.trace)
                  (batch-fetch_range cfg chain xs r latest gives goes)
                ∙ bad)
          ]
        ]
  ]
