-- ===== src/Progress/Calls.antt =====
-- The calls that change the progress tracker in memory, in any order.
use chain_parse_service.Base.{ℕ, String, Option, List, [], ◌∷◌}
use chain_parse_service.Base.Int.{ℤ}
use chain_parse_service.Types.{ProcessProgress, ProcessingStatus}
use chain_parse_service.Progress.Records.{Rates, ProcessingMetrics}
use chain_parse_service.Progress.{
  MemoryProgressTracker, new_memory_progress_tracker, update_progress, reset_progress,
  update_multiple_progress, set_processing_status,
}
use chain_parse_service.Progress.History.{
  GoError, record_error, clear_error_history, record_processing_metrics, cleanup,
}

pub data Call (F : Type 0) : Type 0 where
  update : String → Option (ProcessProgress F) → ℕ → Call F
  reset : String → ℕ → Call F
  update_multiple : List (String × Option (ProcessProgress F)) → ℕ → Call F
  set_status : String → ProcessingStatus → ℕ → Call F
  note_error : String → Option GoError → ℕ → Call F
  clear_errors : String → Call F
  note_metrics : String → Option (ProcessingMetrics F) → ℕ → Call F
  clean : ℤ → ℕ → Call F

module _ (r : Rates) where
  open r use {Float}

  unfoldable pub apply_call : MemoryProgressTracker Float → Call Float → MemoryProgressTracker Float
  unfolding update_progress reset_progress update_multiple_progress set_processing_status
      record_error clear_error_history record_processing_metrics cleanup
  apply_call m (Call.update chain p now) = (update_progress r m chain p now).0
  apply_call m (Call.reset chain now) = reset_progress r m chain now
  apply_call m (Call.update_multiple ps now) = update_multiple_progress r m ps now
  apply_call m (Call.set_status chain status now) = set_processing_status r m chain status now
  apply_call m (Call.note_error chain e now) = record_error r m chain e now
  apply_call m (Call.clear_errors chain) = clear_error_history r m chain
  apply_call m (Call.note_metrics chain x now) = (record_processing_metrics r m chain x now).0
  apply_call m (Call.clean older_than now) = cleanup r m older_than now

  unfoldable pub apply_calls :
      MemoryProgressTracker Float → List (Call Float) → MemoryProgressTracker Float
  unfolding apply_call
  apply_calls m [] = m
  apply_calls m (c ∷ cs) = apply_calls (apply_call m c) cs

  abbrev pub from_new : ℕ → List (Call Float) → MemoryProgressTracker Float
  from_new now cs = apply_calls (new_memory_progress_tracker r now) cs
