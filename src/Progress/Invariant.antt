-- ===== src/Progress/Invariant.antt =====
-- The global statistics of the tracker are those of its progresses, and its histories are bounded.
use chain_parse_service.Base.{ℕ, String, ◌≡◌, refl, false, Option, none, some, List, [], ◌∷◌, arith}
use chain_parse_service.Base.Dict.{Dict, lookup, insert, erase, insert-NodupKeys}
use chain_parse_service.Types.{ProcessProgress}
use chain_parse_service.Progress.Records.{Rates, ProcessingError, ProcessingMetrics}
use chain_parse_service.Progress.{
  MemoryProgressTracker, or_new, idle_progress, append_bounded, or_nil, new_memory_progress_tracker,
  with_success_rate, stamp, put_progress, update_progress, reset_progress, set_processing_status,
}
use chain_parse_service.Progress.History.{
  GoError, alter_progress, store_stats, count_error, forget_errors, record_error,
  clear_error_history, record_processing_metrics, update_processing_stats, cleanup,
}
use chain_parse_service.Progress.Sums.{
  Bounded, length-append_bounded, insert-Bounded, erase-Bounded, filter_all-Bounded, active,
  IsValid, update_global_stats-IsValid, put_all_frame, put_same,
}
use chain_parse_service.Progress.Calls.{Call, apply_call, apply_calls, from_new}

module _ (r : Rates) where
  open r use {Float}

  -- What stays the same of a progress where only its errors change.
  abbrev SameCounts : (ProcessProgress Float → ProcessProgress Float) → Type 0
  SameCounts f =
      (p : ProcessProgress Float)
      → (active (f p) ≡ active p)
        × (((f p).total_transactions ≡ p.total_transactions)
            × ((f p).total_events ≡ p.total_events))

  alter_progress-IsValid :
      (f : ProcessProgress Float → ProcessProgress Float)
      → SameCounts f
      → (m : MemoryProgressTracker Float) (chain : String) (o : Option (ProcessProgress Float))
      → lookup chain m.progresses ≡ o
      → IsValid m
      → IsValid (alter_progress r f chain o m)
  alter_progress-IsValid f same m chain none h v = v
  alter_progress-IsValid f same m chain (some p) h v =
      put_same r m chain p (f p) h (same p).0 (same p).1.0 (same p).1.1 v

  count_error_same : (now : ℕ) → SameCounts (count_error r now)
  unfolding count_error with_success_rate
  count_error_same now p = ground arith

  forget_errors_same : SameCounts (forget_errors r)
  unfolding forget_errors
  forget_errors_same p = (refl, (refl, refl))

  with_errors :
      (m : MemoryProgressTracker Float) (d : Dict (List ProcessingError))
      → Bounded m.max_error_history d
      → IsValid m
      → IsValid (record m { errors = d })
  with_errors m d b v = record {
    matches = v.matches;
    nodup = v.nodup;
    errors_bounded = b;
    metrics_bounded = v.metrics_bounded;
  }

  with_metrics :
      (m : MemoryProgressTracker Float) (d : Dict (List (ProcessingMetrics Float)))
      → Bounded m.max_metrics_history d
      → IsValid m
      → IsValid (record m { metrics = d })
  with_metrics m d b v = record {
    matches = v.matches;
    nodup = v.nodup;
    errors_bounded = v.errors_bounded;
    metrics_bounded = b;
  }

  record_error-IsValid :
      (m : MemoryProgressTracker Float) (chain : String) (e : Option GoError) (now : ℕ)
      → IsValid m
      → IsValid (record_error r m chain e now)
  unfolding record_error
  record_error-IsValid m chain none now v = v
  record_error-IsValid m chain (some e) now v =
      let old = or_nil (lookup chain m.errors) in
      let entry : ProcessingError = record {
        chain_type = chain;
        error_time = now;
        error_type = e.error_type;
        error_msg = e.error_msg;
        resolved = false;
      } in
      let kept = append_bounded m.max_error_history old entry in
      let d = insert chain kept m.errors in
      alter_progress-IsValid (count_error r now) (count_error_same now) (record m { errors = d })
        chain (lookup chain m.progresses) refl
        (with_errors m d
          (insert-Bounded m.max_error_history chain kept m.errors
            (length-append_bounded m.max_error_history old entry) v.errors_bounded)
          v)

  store_stats-IsValid :
      (m : MemoryProgressTracker Float) (chain : String) (xs : List (ProcessingMetrics Float))
      (o : Option (ProcessProgress Float)) (now : ℕ)
      → IsValid m
      → IsValid (store_stats r chain xs o now m)
  store_stats-IsValid m chain [] o now v = v
  store_stats-IsValid m chain (x ∷ xs) none now v = v
  store_stats-IsValid m chain (x ∷ xs) (some p) now v = record {
    matches = v.matches;
    nodup = v.nodup;
    errors_bounded = v.errors_bounded;
    metrics_bounded = v.metrics_bounded;
  }

  record_processing_metrics-IsValid :
      (m : MemoryProgressTracker Float) (chain : String) (o : Option (ProcessingMetrics Float))
      (now : ℕ)
      → IsValid m
      → IsValid (record_processing_metrics r m chain o now).0
  unfolding record_processing_metrics update_processing_stats
  record_processing_metrics-IsValid m chain none now v = v
  record_processing_metrics-IsValid m chain (some x) now v =
      let old = or_nil (lookup chain m.metrics) in
      let entry : ProcessingMetrics Float = record x { timestamp = now; chain_type = chain } in
      let kept = append_bounded m.max_metrics_history old entry in
      let d = insert chain kept m.metrics in
      store_stats-IsValid (record m { metrics = d }) chain (or_nil (lookup chain d))
        (lookup chain m.progresses) now
        (with_metrics m d
          (insert-Bounded m.max_metrics_history chain kept m.metrics
            (length-append_bounded m.max_metrics_history old entry) v.metrics_bounded)
          v)

  apply_call-IsValid :
      (m : MemoryProgressTracker Float) (c : Call Float) → IsValid m → IsValid (apply_call r m c)
  unfolding apply_call update_progress put_progress reset_progress set_processing_status
      clear_error_history cleanup
  apply_call-IsValid m (Call.update chain none now) v = v
  apply_call-IsValid m (Call.update chain (some p) now) v =
      update_global_stats-IsValid r (put_progress r m chain (stamp r chain now p)) now
        (insert-NodupKeys chain (stamp r chain now p) m.progresses v.nodup) v.errors_bounded
        v.metrics_bounded
  apply_call-IsValid m (Call.reset chain now) v =
      let reset = put_progress r m chain (idle_progress r chain now r.hundred) in
      update_global_stats-IsValid r
        (record reset {
          stats = erase chain m.stats;
          errors = erase chain m.errors;
          metrics = erase chain m.metrics;
        })
        now (insert-NodupKeys chain _ m.progresses v.nodup)
        (erase-Bounded m.max_error_history chain m.errors v.errors_bounded)
        (erase-Bounded m.max_metrics_history chain m.metrics v.metrics_bounded)
  apply_call-IsValid m (Call.update_multiple ps now) v =
      put_all_frame r m ps now v.nodup v.errors_bounded v.metrics_bounded
  apply_call-IsValid m (Call.set_status chain status now) v =
      let p = or_new r chain now (lookup chain m.progresses) in
      let q : ProcessProgress Float = record p {
        processing_status = status;
        last_update_time = now;
      } in
      update_global_stats-IsValid r (put_progress r m chain q) now
        (insert-NodupKeys chain q m.progresses v.nodup) v.errors_bounded v.metrics_bounded
  apply_call-IsValid m (Call.note_error chain e now) v = record_error-IsValid m chain e now v
  apply_call-IsValid m (Call.clear_errors chain) v =
      let d = erase chain m.errors in
      alter_progress-IsValid (forget_errors r) forget_errors_same (record m { errors = d }) chain
        (lookup chain m.progresses) refl
        (with_errors m d (erase-Bounded m.max_error_history chain m.errors v.errors_bounded) v)
  apply_call-IsValid m (Call.note_metrics chain x now) v =
      record_processing_metrics-IsValid m chain x now v
  apply_call-IsValid m (Call.clean older_than now) v = record {
    matches = v.matches;
    nodup = v.nodup;
    errors_bounded = filter_all-Bounded m.max_error_history _ m.errors v.errors_bounded;
    metrics_bounded = filter_all-Bounded m.max_metrics_history _ m.metrics v.metrics_bounded;
  }

  apply_calls-IsValid :
      (m : MemoryProgressTracker Float) (cs : List (Call Float))
      → IsValid m
      → IsValid (apply_calls r m cs)
  unfolding apply_calls
  apply_calls-IsValid m [] v = v
  apply_calls-IsValid m (c ∷ cs) v =
      apply_calls-IsValid (apply_call r m c) cs (apply_call-IsValid m c v)

  -- After any sequence of calls on a new tracker, the global statistics count the chains that have
  -- a progress and those of them that are active, and their transactions and events are the sums
  -- over the progresses; every error history and every metrics history is within its maximum.
  pub from_new-IsValid : (now : ℕ) (cs : List (Call Float)) → IsValid (from_new r now cs)
  unfolding new_memory_progress_tracker
  from_new-IsValid now cs = apply_calls-IsValid (new_memory_progress_tracker r now) cs (record {
    matches = record { chains = refl; active_chains = refl; transactions = refl; events = refl };
    nodup = tt;
    errors_bounded = tt;
    metrics_bounded = tt;
  })
