-- ===== src/Engine.antt =====
-- internal/parser/engine/engine.go: one tick of a chain's loop (processChainBatch) and the life of
-- the engine (`Lifecycle`). What the collaborators answer in a tick is a `Replies`; the
-- trace of a tick is the range that it fetches and its writes, in order (`Effect`). That it reads the
-- progress and the newest block is not in the trace.
pub mod Merge
pub mod Batch
pub mod Lifecycle
use chain_parse_service.Base.{
  ℕ, zero, ◌+◌, String, ◌≡◌, Bool, true, false, ◌&&◌, Option, none, some, List, [], ◌∷◌, ◌++◌, ltb,
  if◌then◌else◌, length, select,
}
use chain_parse_service.Base.Dict.{Dict, lookup}
use chain_parse_service.Base.Int.{ℤ, pos, negsuc, ◌+ℤ◌, ◌-ℤ◌, ltb_ℤ}
use chain_parse_service.Types.{
  UnifiedBlock, UnifiedTransaction, DexData, empty_dex_data, ProcessProgress, ProcessingStatus,
}

pub record ChainConfig : Type 0 where
  pub enabled : Bool
  pub start_block : ℤ
  pub batch_size : ℤ

pub record EngineConfig : Type 0 where
  pub batch_size : ℤ
  pub chain_configs : Dict ChainConfig

-- An extractor as the engine sees it in one tick; `none` is an error of ExtractDexData.
pub record Extractor (F : Type 0) : Type 0 where
  pub supports_block : UnifiedBlock → Bool
  pub extract : List UnifiedBlock → Option (DexData F)

unfoldable pub all_transactions : List UnifiedBlock → List UnifiedTransaction
all_transactions [] = []
all_transactions (b ∷ bs) = b.transactions ++ all_transactions bs

module _ {F : Type 0} where
  -- The merge of extractDexData: five of the six lists are appended.
  unfoldable pub merge : DexData F → DexData F → DexData F
  merge result d = record result {
    pools = result.pools ++ d.pools;
    transactions = result.transactions ++ d.transactions;
    liquidities = result.liquidities ++ d.liquidities;
    reserves = result.reserves ++ d.reserves;
    tokens = result.tokens ++ d.tokens;
  }

  abbrev pub extract_from : Extractor F → List UnifiedBlock → DexData F → Option (DexData F)
  extract_from x [] result = some result
  extract_from x (b ∷ bs) result = elim (x.extract (b ∷ bs)) [
    | none ↦ none
    | some d ↦ some (merge result d)
  ]

  unfoldable pub extract_loop :
      List (Extractor F) → List UnifiedBlock → DexData F → Option (DexData F)
  extract_loop [] blocks result = some result
  extract_loop (x ∷ xs) blocks result =
      elim (extract_from x (select x.supports_block blocks) result) [
        | none ↦ none
        | some result' ↦ extract_loop xs blocks result'
      ]

  unfoldable pub extract_dex_data : List (Extractor F) → List UnifiedBlock → Option (DexData F)
  extract_dex_data xs blocks = extract_loop xs blocks empty_dex_data

  unfoldable pub total_dex_records : DexData F → ℕ
  total_dex_records d =
      length d.pools
      + length d.transactions
      + length d.liquidities
      + length d.reserves
      + length d.tokens

-- The block range of a tick.
unfoldable pub default_start : Option ChainConfig → ℤ → ℤ
default_start none latest = latest -ℤ pos 100
default_start (some c) latest =
    if ltb_ℤ (pos 0) c.start_block then c.start_block else latest -ℤ pos 100

unfoldable pub start_block : EngineConfig → String → ℤ → ℤ → ℤ
unfolding default_start
start_block cfg chain (pos zero) latest = default_start (lookup chain cfg.chain_configs) latest
start_block cfg chain last latest = last +ℤ pos 1

abbrev chain_batch_size : Option ChainConfig → ℤ → ℤ
chain_batch_size none size = size
chain_batch_size (some c) size = if ltb_ℤ (pos 0) c.batch_size then c.batch_size else size

unfoldable pub batch_size : EngineConfig → String → ℤ
batch_size cfg chain = chain_batch_size (lookup chain cfg.chain_configs) cfg.batch_size

unfoldable pub end_block : ℤ → ℤ → ℤ → ℤ
end_block start size latest = let end = start +ℤ size in if ltb_ℤ latest end then latest else end

-- What the collaborators answer in a tick: `none` and `false` are errors, and `tracker` is `none`
-- where the engine has no progress tracker.
pub record Replies (F : Type 0) : Type 0 where
  pub tracker : Option (Option (ProcessProgress F))
  pub latest : Option ℤ
  pub blocks : ℤ → ℤ → Option (List UnifiedBlock)
  pub store_blocks_ok : Bool
  pub store_transactions_ok : Bool
  pub store_dex_ok : Bool
  pub now : ℕ
  pub zero_rate : F

pub data Effect (F : Type 0) : Type 0 where
  fetch : ℤ → ℤ → Effect F
  store_blocks : List UnifiedBlock → Effect F
  store_transactions : List UnifiedTransaction → Effect F
  store_dex_data : DexData F → Effect F
  update_progress : ProcessProgress F → Effect F

pub data BatchError : Type 0 where
  latest_failed fetch_failed extract_failed : BatchError
  store_blocks_failed store_transactions_failed store_dex_failed : BatchError

pub record Outcome (F : Type 0) : Type 0 where
  pub error : Option BatchError
  pub trace : List (Effect F)

module _ {F : Type 0} where
  unfoldable pub get_or_create_progress : String → Replies F → ProcessProgress F
  get_or_create_progress chain r = elim r.tracker [
    | none ↦ fresh
    | some none ↦ fresh
    | some (some p) ↦ p
  ]
    where
      fresh : ProcessProgress F
      fresh = record {
        chain_type = chain;
        last_processed_block = pos 0;
        last_update_time = r.now;
        total_transactions = 0;
        total_events = 0;
        processing_status = ProcessingStatus.unset;
        start_time = 0;
        last_error_time = 0;
        error_count = 0;
        success_rate = r.zero_rate;
      }

  -- A call that is made if `needed`, and ends the tick if it fails.
  abbrev pub attempt : Bool → Effect F → Bool → BatchError → Outcome F → Outcome F
  attempt false effect ok e rest = rest
  attempt true effect true e rest = record { error = rest.error; trace = effect ∷ rest.trace }
  attempt true effect false e rest = record { error = some e; trace = effect ∷ [] }

  unfoldable pub advance :
      ProcessProgress F → ℤ → List UnifiedBlock → DexData F → ℕ → ProcessProgress F
  advance p end blocks d now = record p {
    last_processed_block = end;
    last_update_time = now;
    total_transactions = p.total_transactions + length (all_transactions blocks);
    total_events = p.total_events + total_dex_records d;
  }

  unfoldable pub save : Option (Option (ProcessProgress F)) → ProcessProgress F → Outcome F
  save none p = record { error = none; trace = [] }
  save (some _) p = record { error = none; trace = update_progress p ∷ [] }

  unfoldable pub store_batch :
      Replies F → ProcessProgress F → ℤ → List UnifiedBlock → DexData F → Outcome F
  unfolding save
  store_batch r p end blocks d =
      let txs = all_transactions blocks in
      attempt true (store_blocks blocks) r.store_blocks_ok store_blocks_failed (
        attempt (ltb 0 (length txs)) (store_transactions txs) r.store_transactions_ok
          store_transactions_failed
          (attempt (ltb 0 (total_dex_records d)) (store_dex_data d) r.store_dex_ok store_dex_failed
            (save r.tracker (advance p end blocks d r.now))))

  abbrev pub extract_and_store :
      List (Extractor F) → Replies F → ProcessProgress F → ℤ → List UnifiedBlock → Outcome F
  extract_and_store xs r p end [] = record { error = none; trace = [] }
  extract_and_store xs r p end (b ∷ bs) = elim (extract_dex_data xs (b ∷ bs)) [
    | none ↦ record { error = some extract_failed; trace = [] }
    | some d ↦ store_batch r p end (b ∷ bs) d
  ]

  unfoldable pub fetch_range :
      List (Extractor F) → Replies F → ProcessProgress F → ℤ → ℤ → Outcome F
  fetch_range xs r p start end = elim (r.blocks start end) [
    | none ↦ record { error = some fetch_failed; trace = fetch start end ∷ [] }
    | some blocks ↦
        let rest = extract_and_store xs r p end blocks in
        record { error = rest.error; trace = fetch start end ∷ rest.trace }
  ]

  unfoldable pub process_chain_batch :
      EngineConfig → String → List (Extractor F) → Replies F → Outcome F
  process_chain_batch cfg chain xs r =
      let p = get_or_create_progress chain r in
      elim r.latest [
        | none ↦ record { error = some latest_failed; trace = [] }
        | some latest ↦
            let start = start_block cfg chain p.last_processed_block latest in
            let end = end_block start (batch_size cfg chain) latest in
            if ltb_ℤ start end
            then fetch_range xs r p start end
            else record { error = none; trace = [] }
      ]
