-- ===== src/Engine/Batch/Ticks.antt =====
-- A run of ticks of one chain's loop (processChain): the progress that one tick saves is what the
-- next one loads. A tick in which UpdateProgress fails (the engine only logs that) saves nothing;
-- one in which GetProgress fails works with a fresh progress at block 0.
use chain_parse_service.Base.{
  ◌≡◌, refl, ap, ◌∙◌, ◌⊎◌, inl, inr, String, Bool, true, false, Option, none, some, List, [], ◌∷◌,
  ◌++◌, arith, if◌then◌else◌, Bool-cases,
}
use chain_parse_service.Base.Dict.{lookup}
use chain_parse_service.Base.Int.{ℤ, pos, ◌+ℤ◌, ◌<ℤ◌}
use chain_parse_service.Types.{UnifiedBlock, DexData, ProcessProgress}
use chain_parse_service.Engine.{
  default_start, Effect, fetch, store_blocks, Outcome, Replies, EngineConfig, Extractor,
  process_chain_batch, save, advance, start_block, get_or_create_progress,
}
use chain_parse_service.Engine.Batch.Range.{start_block_next}
use chain_parse_service.Engine.Batch.Trace.{
  saves, full_trace, process_chain_batch_cases, first_block, last_block,
}

pub record Tick (F : Type 0) : Type 0 where
  pub extractors : List (Extractor F)
  pub replies : Replies F
  pub load_ok : Bool
  pub update_ok : Bool

module _ {F : Type 0} where
  -- GetProgress succeeds.
  abbrev pub Loads : Tick F → Type 0
  Loads t = t.load_ok ≡ true

  abbrev pub saved_or : ProcessProgress F → List (ProcessProgress F) → ProcessProgress F
  saved_or p [] = p
  saved_or p (q ∷ _) = q

  -- The range that a tick fetched and handed to the storage engine without an error.
  abbrev pub stored : List (Effect F) → List (ℤ × ℤ)
  stored (fetch s e ∷ store_blocks bs ∷ _) = (s, e) ∷ []
  stored _ = []

  abbrev pub stored_range : Outcome F → List (ℤ × ℤ)
  stored_range o = elim o.error [ none ↦ stored o.trace | some _ ↦ [] ]

module _ {F : Type 0} (cfg : EngineConfig) (chain : String) where
  -- What the collaborators answer in the tick if the saved progress is `p`.
  abbrev pub replies_at : ProcessProgress F → Tick F → Replies F
  replies_at p t = record t.replies { tracker = some (if t.load_ok then some p else none) }

  unfoldable pub tick : ProcessProgress F → Tick F → Outcome F
  tick p t = process_chain_batch cfg chain t.extractors (replies_at p t)

  unfoldable pub next_progress : ProcessProgress F → Tick F → ProcessProgress F
  next_progress p t = if t.update_ok then saved_or p (saves (tick p t).trace) else p

  unfoldable pub run : ProcessProgress F → List (Tick F) → ProcessProgress F
  run p [] = p
  run p (t ∷ ts) = run (next_progress p t) ts

  unfoldable pub ranges : ProcessProgress F → List (Tick F) → List (ℤ × ℤ)
  ranges p [] = []
  ranges p (t ∷ ts) = stored_range (tick p t) ++ ranges (next_progress p t) ts

module _ {F : Type 0} where
  saves-full_trace :
      (r : Replies F) (o : Option (ProcessProgress F)) (p : ProcessProgress F) (end : ℤ)
      (blocks : List UnifiedBlock) (d : DexData F)
      → r.tracker ≡ some o
      → saves (full_trace r p end blocks d) ≡ advance p end blocks d r.now ∷ []
  unfolding save
  saves-full_trace r o p end blocks d e = ground (arith, e)

module _ {F : Type 0} (cfg : EngineConfig) (chain : String) where
  -- The first block of the tick where the newest block is `latest`.
  abbrev pub from_block : ProcessProgress F → Tick F → ℤ → ℤ
  from_block p t latest = first_block cfg chain (replies_at cfg chain p t) latest

  -- A tick either leaves the progress, or moves it to the end of a range that it has stored.
  pub next_progress_cases :
      (p : ProcessProgress F) (t : Tick F)
      → (next_progress cfg chain p t ≡ p)
        ⊎ ((latest : ℤ) × (e : ℤ) × ((next_progress cfg chain p t).last_processed_block ≡ e)
            × (t.replies.latest ≡ some latest)
            × (from_block p t latest <ℤ e)
            × (stored_range (tick cfg chain p t) ≡ (from_block p t latest, e) ∷ []))
  unfolding next_progress tick advance
  next_progress_cases p t =
      let r = replies_at cfg chain p t in
      elim (process_chain_batch_cases cfg chain t.extractors r) [
        | inr none_saved ↦ inl (ground (arith, none_saved))
        | inl (latest, gives, over, c) ↦
            let e = last_block cfg chain r latest in
            let q = get_or_create_progress chain r in
            let saved : saves (process_chain_batch cfg chain t.extractors r).trace
                ≡ advance q e c.blocks c.dex r.now ∷ [] =
              ap saves c.trace ∙ saves-full_trace r _ q e c.blocks c.dex refl in
            elim (Bool-cases t.update_ok) [
              | inr lost ↦ inl (ground (arith, lost))
              | inl kept ↦ inr (
                latest,
                e,
                ground (arith, kept, saved),
                gives,
                over,
                ground (arith, c.no_error, c.trace),
              )
            ]
      ]

  pub from_block_loaded :
      (p : ProcessProgress F) (t : Tick F) (latest : ℤ)
      → pos 0 <ℤ p.last_processed_block
      → t.load_ok ≡ true
      → from_block p t latest ≡ p.last_processed_block +ℤ pos 1
  unfolding get_or_create_progress
  from_block_loaded p t latest h loads =
      rw loads (start_block_next cfg chain p.last_processed_block latest h)

  -- A tick whose GetProgress fails starts as a chain that was never processed does.
  pub from_block_fresh :
      (p : ProcessProgress F) (t : Tick F) (latest : ℤ)
      → t.load_ok ≡ false
      → from_block p t latest ≡ default_start (lookup chain cfg.chain_configs) latest
  unfolding get_or_create_progress start_block
  from_block_fresh p t latest fails = rw fails refl
