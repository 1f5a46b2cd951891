-- ===== src/Progress.antt =====
-- internal/parser/engine/progress.go: the progress tracker in memory. A method takes the tracker and
-- the time of the call. The progress that a caller hands over is its own copy: nobody else changes
-- it later. A map is read in the order of its list. LastProcessedBlock is never nil.
pub mod Records
pub mod History
pub mod Report
pub mod Calls
mod Sums
mod Invariant
mod Recent
mod Averages
mod Tests
use chain_parse_service.Base.{
  ℕ, ◌+◌, ◌-◌, String, Bool, true, false, ◌||◌, Option, none, some, List, [], ◌∷◌, ◌++◌, ltb,
  if◌then◌else◌, length, drop,
}
use chain_parse_service.Base.Dict.{Dict, lookup, insert, erase}
use chain_parse_service.Base.Int.{ℤ, pos, pos_part, ◌-ℤ◌, ltb_ℤ}
use chain_parse_service.Types.{ProcessProgress, ProcessingStatus}
use chain_parse_service.Progress.Records.{
  Rates, ProcessingStats, GlobalProcessingStats, ProcessingError, ProcessingMetrics,
}

pub record MemoryProgressTracker (F : Type 0) : Type 0 where
  pub progresses : Dict (ProcessProgress F)
  pub stats : Dict (ProcessingStats F)
  pub errors : Dict (List ProcessingError)
  pub metrics : Dict (List (ProcessingMetrics F))
  pub global_stats : GlobalProcessingStats F
  pub system_start_time : ℕ
  pub max_error_history : ℕ
  pub max_metrics_history : ℕ

-- `append`, and the oldest entries dropped beyond `max` of them.
unfoldable pub append_bounded {ℓ} : {A : Type ℓ} → ℕ → List A → A → List A
append_bounded max xs x =
    let ys = xs ++ (x ∷ []) in if ltb max (length ys) then drop (length ys - max) ys else ys

abbrev pub or_nil {ℓ} : {A : Type ℓ} → Option (List A) → List A
or_nil none = []
or_nil (some xs) = xs

abbrev pub is_active : ProcessingStatus → Bool
is_active ProcessingStatus.running = true
is_active ProcessingStatus.syncing = true
is_active ProcessingStatus.catching_up = true
is_active _ = false

-- The local variables and counters of updateGlobalStats.
pub record Totals (F : Type 0) : Type 0 where
  pub active_chains : ℕ
  pub total_transactions : ℕ
  pub total_events : ℕ
  pub total_success_rate : F
  pub rated_chains : ℕ
  pub chain_stats : Dict (ProcessingStats F)

module _ (r : Rates) where
  open r use {Float, zero, hundred, percent, add, over}

  unfoldable pub new_memory_progress_tracker : ℕ → MemoryProgressTracker Float
  new_memory_progress_tracker now = record {
    progresses = [];
    stats = [];
    errors = [];
    metrics = [];
    global_stats = record {
      total_chains = 0;
      active_chains = 0;
      total_transactions = 0;
      total_events = 0;
      overall_success_rate = zero;
      chain_stats = [];
      last_update_time = now;
      system_uptime = pos 0;
    };
    system_start_time = now;
    max_error_history = 1000;
    max_metrics_history = 10000;
  }

  abbrev pub idle_progress : String → ℕ → Float → ProcessProgress Float
  idle_progress chain now rate = record {
    chain_type = chain;
    last_processed_block = pos 0;
    last_update_time = now;
    total_transactions = 0;
    total_events = 0;
    processing_status = ProcessingStatus.idle;
    start_time = now;
    last_error_time = 0;
    error_count = 0;
    success_rate = rate;
  }

  abbrev or_idle : String → ℕ → Option (ProcessProgress Float) → ProcessProgress Float
  or_idle chain now none = idle_progress chain now zero
  or_idle chain now (some p) = p

  unfoldable pub get_progress : MemoryProgressTracker Float → String → ℕ → ProcessProgress Float
  unfolding lookup
  get_progress m chain now = or_idle chain now (lookup chain m.progresses)

  unfoldable pub with_success_rate : ProcessProgress Float → ProcessProgress Float
  with_success_rate p =
      if ltb 0 p.total_transactions
      then record p {
        success_rate = percent (pos p.total_transactions -ℤ pos p.error_count) p.total_transactions;
      }
      else p

  unfoldable pub stamp : String → ℕ → ProcessProgress Float → ProcessProgress Float
  unfolding with_success_rate
  stamp chain now p = with_success_rate (record p { last_update_time = now; chain_type = chain })

  abbrev put_stats :
      String
      → Option (ProcessingStats Float)
      → Dict (ProcessingStats Float)
      → Dict (ProcessingStats Float)
  put_stats chain none d = d
  put_stats chain (some s) d = insert chain s d

  -- One turn of the loop of updateGlobalStats.
  unfoldable pub add_totals :
      Dict (ProcessingStats Float) → String → ProcessProgress Float → Totals Float → Totals Float
  unfolding lookup insert
  add_totals stats chain p t =
      let rated = ltb 0 p.total_transactions in
      record {
        active_chains =
            if is_active p.processing_status then t.active_chains + 1 else t.active_chains;
        total_transactions = t.total_transactions + p.total_transactions;
        total_events = t.total_events + p.total_events;
        total_success_rate =
            if rated then add t.total_success_rate p.success_rate else t.total_success_rate;
        rated_chains = if rated then t.rated_chains + 1 else t.rated_chains;
        chain_stats = put_stats chain (lookup chain stats) t.chain_stats;
      }

  unfoldable pub scan_progresses :
      Dict (ProcessingStats Float) → Dict (ProcessProgress Float) → Totals Float → Totals Float
  unfolding add_totals
  scan_progresses stats [] t = t
  scan_progresses stats ((chain, p) ∷ ps) t = scan_progresses stats ps (add_totals stats chain p t)

  unfoldable pub update_global_stats : MemoryProgressTracker Float → ℕ → MemoryProgressTracker Float
  unfolding scan_progresses
  update_global_stats m now =
      let start : Totals Float = record {
        active_chains = 0;
        total_transactions = 0;
        total_events = 0;
        total_success_rate = zero;
        rated_chains = 0;
        chain_stats = m.global_stats.chain_stats;
      } in
      let t = scan_progresses m.stats m.progresses start in
      record m {
        global_stats = record {
          total_chains = length m.progresses;
          active_chains = t.active_chains;
          total_transactions = t.total_transactions;
          total_events = t.total_events;
          overall_success_rate =
              if ltb 0 t.rated_chains
              then over t.total_success_rate t.rated_chains
              else m.global_stats.overall_success_rate;
          chain_stats = t.chain_stats;
          last_update_time = now;
          system_uptime = pos now -ℤ pos m.system_start_time;
        };
      }

  -- `m.progresses[chain] = p`
  unfoldable pub put_progress :
      MemoryProgressTracker Float → String → ProcessProgress Float → MemoryProgressTracker Float
  unfolding insert
  put_progress m chain p = record m { progresses = insert chain p m.progresses }

  -- The Boolean is false for an error.
  unfoldable pub update_progress :
      MemoryProgressTracker Float
      → String
      → Option (ProcessProgress Float)
      → ℕ
      → MemoryProgressTracker Float × Bool
  unfolding stamp put_progress update_global_stats
  update_progress m chain none now = (m, false)
  update_progress m chain (some p) now =
      (update_global_stats (put_progress m chain (stamp chain now p)) now, true)

  unfoldable pub reset_progress :
      MemoryProgressTracker Float → String → ℕ → MemoryProgressTracker Float
  unfolding put_progress erase update_global_stats
  reset_progress m chain now =
      let reset = put_progress m chain (idle_progress chain now hundred) in
      update_global_stats
        (record reset {
          stats = erase chain m.stats;
          errors = erase chain m.errors;
          metrics = erase chain m.metrics;
        })
        now

  -- The loop of UpdateMultipleProgress, which skips nil.
  unfoldable pub put_all :
      MemoryProgressTracker Float
      → List (String × Option (ProcessProgress Float))
      → ℕ
      → MemoryProgressTracker Float
  unfolding put_progress stamp
  put_all m [] now = m
  put_all m ((chain, none) ∷ ps) now = put_all m ps now
  put_all m ((chain, some p) ∷ ps) now = put_all (put_progress m chain (stamp chain now p)) ps now

  unfoldable pub update_multiple_progress :
      MemoryProgressTracker Float
      → List (String × Option (ProcessProgress Float))
      → ℕ
      → MemoryProgressTracker Float
  unfolding put_all update_global_stats
  update_multiple_progress m ps now = update_global_stats (put_all m ps now) now

  -- The new record of SetProcessingStatus has only the fields that it names.
  abbrev pub or_new : String → ℕ → Option (ProcessProgress Float) → ProcessProgress Float
  or_new chain now none = record (idle_progress chain now zero) {
    last_update_time = 0;
    processing_status = ProcessingStatus.unset;
  }
  or_new chain now (some p) = p

  unfoldable pub set_processing_status :
      MemoryProgressTracker Float → String → ProcessingStatus → ℕ → MemoryProgressTracker Float
  unfolding lookup put_progress update_global_stats
  set_processing_status m chain status now =
      let p = or_new chain now (lookup chain m.progresses) in
      update_global_stats
        (put_progress m chain (record p { processing_status = status; last_update_time = now })) now

  abbrev status_of : Option (ProcessProgress Float) → ProcessingStatus
  status_of none = ProcessingStatus.idle
  status_of (some p) = p.processing_status

  unfoldable pub get_processing_status : MemoryProgressTracker Float → String → ProcessingStatus
  unfolding lookup
  get_processing_status m chain = status_of (lookup chain m.progresses)
