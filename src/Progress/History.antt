-- ===== src/Progress/History.antt =====
-- internal/parser/engine/progress.go: the histories of errors and metrics, and the statistics of a
-- chain that are computed from them.
use chain_parse_service.Base.{
  ℕ, ◌+◌, ◌-◌, ◌/◌, String, Bool, true, false, ◌&&◌, ◌==◌, Option, none, some, List, [], ◌∷◌, ltb,
  if◌then◌else◌, length, drop, select, sum_by,
}
use chain_parse_service.Base.Dict.{Dict, lookup, insert, erase}
use chain_parse_service.Base.Int.{ℤ, pos, pos_part, ◌-ℤ◌, ltb_ℤ}
use chain_parse_service.Types.{ProcessProgress}
use chain_parse_service.Progress.Records.{
  Rates, ProcessingStats, ProcessingError, ProcessingMetrics,
}
use chain_parse_service.Progress.{
  MemoryProgressTracker, append_bounded, or_nil, with_success_rate, put_progress,
}

-- An `error` by its type and its message.
pub record GoError : Type 0 where
  pub error_type : String
  pub error_msg : String

-- The last `limit` elements, or all of them where `limit` is not positive.
unfoldable pub last_limited {ℓ} : {A : Type ℓ} → ℤ → List A → List A
last_limited limit xs =
    let n = pos_part limit in if ltb 0 n && ltb n (length xs) then drop (length xs - n) xs else xs

-- The entries after the cutoff, in each history.
unfoldable pub filter_all {ℓ} : {A : Type ℓ} → (A → Bool) → Dict (List A) → Dict (List A)
filter_all fresh [] = []
filter_all fresh ((chain, xs) ∷ d) = (chain, select fresh xs) ∷ filter_all fresh d

abbrev pub after : ℤ → ℕ → Bool
after cutoff t = ltb_ℤ cutoff (pos t)

module _ (r : Rates) where
  open r use {Float, zero, hundred, percent, per_second}

  -- What RecordError and ClearErrorHistory change in the progress, if there is one.
  abbrev pub alter_progress :
      (ProcessProgress Float → ProcessProgress Float)
      → String
      → Option (ProcessProgress Float)
      → MemoryProgressTracker Float
      → MemoryProgressTracker Float
  alter_progress f chain none m = m
  alter_progress f chain (some p) m = put_progress r m chain (f p)

  unfoldable pub count_error : ℕ → ProcessProgress Float → ProcessProgress Float
  unfolding with_success_rate
  count_error now p =
      with_success_rate r (record p { error_count = p.error_count + 1; last_error_time = now })

  unfoldable pub forget_errors : ProcessProgress Float → ProcessProgress Float
  forget_errors p = record p {
    error_count = 0;
    last_error_time = 0;
    success_rate = if ltb 0 p.total_transactions then hundred else p.success_rate;
  }

  unfoldable pub record_error :
      MemoryProgressTracker Float → String → Option GoError → ℕ → MemoryProgressTracker Float
  unfolding lookup insert append_bounded put_progress count_error
  record_error m chain none now = m
  record_error m chain (some e) now =
      let entry : ProcessingError = record {
        chain_type = chain;
        error_time = now;
        error_type = e.error_type;
        error_msg = e.error_msg;
        resolved = false;
      } in
      let old = or_nil (lookup chain m.errors) in
      let noted : MemoryProgressTracker Float = record m {
        errors = insert chain (append_bounded m.max_error_history old entry) m.errors;
      } in
      alter_progress (count_error now) chain (lookup chain m.progresses) noted

  unfoldable pub get_error_history : MemoryProgressTracker Float → String → ℤ → List ProcessingError
  unfolding lookup last_limited
  get_error_history m chain limit = last_limited limit (or_nil (lookup chain m.errors))

  unfoldable pub clear_error_history :
      MemoryProgressTracker Float → String → MemoryProgressTracker Float
  unfolding lookup erase put_progress forget_errors
  clear_error_history m chain =
      alter_progress forget_errors chain (lookup chain m.progresses)
        (record m { errors = erase chain m.errors })

  -- The statistics of a chain with this progress and these metrics, of which there are some.
  unfoldable pub new_stats :
      String → ProcessProgress Float → List (ProcessingMetrics Float) → ℕ → ProcessingStats Float
  new_stats chain p ms now =
      let lasted = if p.start_time == 0 then pos 0 else pos now -ℤ pos p.start_time in
      let running = ltb_ℤ (pos 0) lasted in
      record {
        chain_type = chain;
        processing_duration = lasted;
        blocks_processed = p.last_processed_block;
        transactions_per_sec = if running then per_second p.total_transactions lasted else zero;
        events_per_sec = if running then per_second p.total_events lasted else zero;
        last_processing_time = sum_by (λ x. x.processing_time) ms / length ms;
        error_rate =
            if ltb 0 p.total_transactions
            then percent (pos p.error_count) p.total_transactions
            else zero;
      }

  abbrev pub store_stats :
      String
      → List (ProcessingMetrics Float)
      → Option (ProcessProgress Float)
      → ℕ
      → MemoryProgressTracker Float
      → MemoryProgressTracker Float
  store_stats chain [] p now m = m
  store_stats chain (x ∷ xs) none now m = m
  store_stats chain (x ∷ xs) (some p) now m = record m {
    stats = insert chain (new_stats chain p (x ∷ xs) now) m.stats;
  }

  unfoldable pub update_processing_stats :
      MemoryProgressTracker Float → String → ℕ → MemoryProgressTracker Float
  unfolding lookup insert new_stats
  update_processing_stats m chain now =
      store_stats chain (or_nil (lookup chain m.metrics)) (lookup chain m.progresses) now m

  unfoldable pub record_processing_metrics :
      MemoryProgressTracker Float
      → String
      → Option (ProcessingMetrics Float)
      → ℕ
      → MemoryProgressTracker Float × Bool
  unfolding lookup insert append_bounded update_processing_stats
  record_processing_metrics m chain none now = (m, false)
  record_processing_metrics m chain (some x) now =
      let entry : ProcessingMetrics Float = record x { timestamp = now; chain_type = chain } in
      let old = or_nil (lookup chain m.metrics) in
      let kept = append_bounded m.max_metrics_history old entry in
      (update_processing_stats (record m { metrics = insert chain kept m.metrics }) chain now, true)

  abbrev or_empty_stats : String → Option (ProcessingStats Float) → ProcessingStats Float
  or_empty_stats chain none = record {
    chain_type = chain;
    processing_duration = pos 0;
    blocks_processed = pos 0;
    transactions_per_sec = zero;
    events_per_sec = zero;
    last_processing_time = 0;
    error_rate = zero;
  }
  or_empty_stats chain (some s) = s

  unfoldable pub get_processing_stats : MemoryProgressTracker Float → String → ProcessingStats Float
  unfolding lookup
  get_processing_stats m chain = or_empty_stats chain (lookup chain m.stats)

  unfoldable pub cleanup : MemoryProgressTracker Float → ℤ → ℕ → MemoryProgressTracker Float
  unfolding filter_all
  cleanup m older_than now =
      let cutoff = pos now -ℤ older_than in
      record m {
        metrics = filter_all (λ x. after cutoff x.timestamp) m.metrics;
        errors = filter_all (λ e. after cutoff e.error_time) m.errors;
      }
