-- ===== src/Progress/Records.antt =====
-- internal/types/interfaces.go: what the progress tracker in memory keeps for a chain. Times and
-- lengths of time are in one unit; the zero time is 0. Sizes, counters and the measured lengths of
-- time are natural numbers.
use chain_parse_service.Base.{ℕ, String, Bool}
use chain_parse_service.Base.Int.{ℤ}
use chain_parse_service.Base.Dict.{Dict}

-- What the tracker uses of `float64`.
pub record Rates : Type 1 where
  pub Float : Type 0
  pub zero : Float
  pub hundred : Float
  -- `float64(a) / float64(b) * 100`
  pub percent : ℤ → ℕ → Float
  pub add : Float → Float → Float
  -- `x / float64(n)`
  pub over : Float → ℕ → Float
  -- `float64(n) / d.Seconds()`
  pub per_second : ℕ → ℤ → Float

pub record ProcessingStats (F : Type 0) : Type 0 where
  pub chain_type : String
  pub processing_duration : ℤ
  pub blocks_processed : ℤ
  pub transactions_per_sec : F
  pub events_per_sec : F
  pub last_processing_time : ℕ
  pub error_rate : F

pub record GlobalProcessingStats (F : Type 0) : Type 0 where
  pub total_chains : ℕ
  pub active_chains : ℕ
  pub total_transactions : ℕ
  pub total_events : ℕ
  pub overall_success_rate : F
  pub chain_stats : Dict (ProcessingStats F)
  pub last_update_time : ℕ
  pub system_uptime : ℤ

pub record ProcessingError : Type 0 where
  pub chain_type : String
  pub error_time : ℕ
  pub error_type : String
  pub error_msg : String
  pub resolved : Bool

pub record ProcessingMetrics (F : Type 0) : Type 0 where
  pub chain_type : String
  pub timestamp : ℕ
  pub processing_time : ℕ
  pub transaction_count : ℕ
  pub event_count : ℕ
  pub memory_usage : ℕ
  pub cpu_usage : F

pub record PerformanceReport (F : Type 0) : Type 0 where
  pub chain_type : String
  pub report_period : ℤ
  pub average_process_time : ℕ
  pub max_process_time : ℕ
  pub min_process_time : ℕ
  pub total_transactions : ℕ
  pub total_events : ℕ
  pub average_memory_usage : ℕ
  pub average_cpu_usage : F
  pub throughput_tps : F
  pub error_count : ℕ
