-- ===== src/Progress/Report.antt =====
-- internal/parser/engine/progress.go: GetPerformanceMetrics and HealthCheck.
use chain_parse_service.Base.{
  ℕ, ◌*◌, ◌/◌, String, Bool, true, false, List, [], ◌∷◌, ltb, if◌then◌else◌, length, select, sum_by,
}
use chain_parse_service.Base.Dict.{lookup, sum_values}
use chain_parse_service.Base.Int.{ℤ, pos, ◌-ℤ◌, ltb_ℤ}
use chain_parse_service.Progress.Records.{Rates, ProcessingMetrics, PerformanceReport}
use chain_parse_service.Progress.{MemoryProgressTracker, or_nil}
use chain_parse_service.Progress.History.{after}

module _ {F : Type 0} where
  -- The loop's maximum and minimum, which start with the first metric.
  unfoldable pub max_time : ℕ → List (ProcessingMetrics F) → ℕ
  max_time best [] = best
  max_time best (x ∷ xs) =
      max_time (if ltb best x.processing_time then x.processing_time else best) xs

  unfoldable pub min_time : ℕ → List (ProcessingMetrics F) → ℕ
  min_time best [] = best
  min_time best (x ∷ xs) =
      min_time (if ltb x.processing_time best then x.processing_time else best) xs

module _ (r : Rates) where
  open r use {Float, zero, add, over, per_second}

  abbrev pub empty_report : String → ℤ → PerformanceReport Float
  empty_report chain duration = record {
    chain_type = chain;
    report_period = duration;
    average_process_time = 0;
    max_process_time = 0;
    min_process_time = 0;
    total_transactions = 0;
    total_events = 0;
    average_memory_usage = 0;
    average_cpu_usage = zero;
    throughput_tps = zero;
    error_count = 0;
  }

  abbrev total_cpu : Float → List (ProcessingMetrics Float) → Float
  total_cpu t [] = t
  total_cpu t (x ∷ xs) = total_cpu (add t x.cpu_usage) xs

  -- The report on the metrics of the period and on the number of errors in it.
  unfoldable pub report_on :
      String → ℤ → List (ProcessingMetrics Float) → ℕ → PerformanceReport Float
  unfolding max_time min_time
  report_on chain duration [] errors = empty_report chain duration
  report_on chain duration (x ∷ xs) errors =
      let n = length (x ∷ xs) in
      let transactions = sum_by (λ m. m.transaction_count) (x ∷ xs) in
      record {
        chain_type = chain;
        report_period = duration;
        average_process_time = sum_by (λ m. m.processing_time) (x ∷ xs) / n;
        max_process_time = max_time x.processing_time xs;
        min_process_time = min_time x.processing_time xs;
        total_transactions = transactions;
        total_events = sum_by (λ m. m.event_count) (x ∷ xs);
        average_memory_usage = sum_by (λ m. m.memory_usage) (x ∷ xs) / n;
        average_cpu_usage = over (total_cpu zero (x ∷ xs)) n;
        throughput_tps = if ltb_ℤ (pos 0) duration then per_second transactions duration else zero;
        error_count = errors;
      }

  unfoldable pub get_performance_metrics :
      MemoryProgressTracker Float → String → ℤ → ℕ → PerformanceReport Float
  unfolding lookup report_on
  get_performance_metrics m chain duration now =
      let cutoff = pos now -ℤ duration in
      report_on chain duration
        (select (λ x. after cutoff x.timestamp) (or_nil (lookup chain m.metrics)))
        (length (select (λ e. after cutoff e.error_time) (or_nil (lookup chain m.errors))))

-- HealthCheck; true where it gives no error.
unfoldable pub health_check : {F : Type 0} → MemoryProgressTracker F → Bool
health_check m =
    if ltb (m.max_metrics_history * 10) (sum_values length m.metrics)
    then false
    else if ltb (m.max_error_history * 10) (sum_values length m.errors)
    then false
    else true
