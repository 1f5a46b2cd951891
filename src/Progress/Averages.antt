-- ===== src/Progress/Averages.antt =====
-- The bounds of a performance report, and when HealthCheck finds nothing.
use native.Mathlib.Nat.{
  mul-suc, suc-mul, mul-le-mul_right, le-div_iff_mul-le, div-le_of_le-mul, mul_comm,
}
use chain_parse_service.Base.{
  ℕ, suc, ◌+◌, ◌*◌, ◌≤◌, String, ◌≡◌, refl, true, List, [], ◌∷◌, All, arith, if◌then◌else◌, ltb,
  length, select, sum_by,
}
use chain_parse_service.Base.Dict.{Dict, lookup, sum_values}
use chain_parse_service.Base.Int.{ℤ, pos, ◌-ℤ◌}
use chain_parse_service.Progress.Records.{Rates, ProcessingMetrics, PerformanceReport}
use chain_parse_service.Progress.{MemoryProgressTracker, or_nil}
use chain_parse_service.Progress.History.{after}
use chain_parse_service.Progress.Report.{
  max_time, min_time, report_on, get_performance_metrics, health_check,
}
use chain_parse_service.Progress.Calls.{Call, from_new}
use chain_parse_service.Progress.Sums.{Bounded}
use chain_parse_service.Progress.Invariant.{from_new-IsValid}

module _ {F : Type 0} where
  abbrev times : List (ProcessingMetrics F) → ℕ
  times = sum_by (λ m. m.processing_time)

  min_time_le : (best : ℕ) (xs : List (ProcessingMetrics F)) → min_time best xs ≤ best
  unfolding min_time
  min_time_le best [] = omega arith
  min_time_le best (x ∷ xs) = ground (arith, min_time_le best xs, min_time_le x.processing_time xs)

  max_time_ge : (best : ℕ) (xs : List (ProcessingMetrics F)) → best ≤ max_time best xs
  unfolding max_time
  max_time_ge best [] = omega arith
  max_time_ge best (x ∷ xs) = ground (arith, max_time_ge best xs, max_time_ge x.processing_time xs)

  min_time-times :
      (best : ℕ) (xs : List (ProcessingMetrics F))
      → min_time best xs * suc (length xs) ≤ best + times xs
  unfolding min_time
  min_time-times best [] = omega arith
  min_time-times best (x ∷ xs) = ground (
    arith,
    min_time-times best xs,
    min_time-times x.processing_time xs,
    min_time_le best xs,
    min_time_le x.processing_time xs,
    mul-suc (min_time best xs) (suc (length xs)),
    mul-suc (min_time x.processing_time xs) (suc (length xs)),
  )

  max_time-times :
      (best : ℕ) (xs : List (ProcessingMetrics F))
      → best + times xs ≤ max_time best xs * suc (length xs)
  unfolding max_time
  max_time-times best [] = omega arith
  max_time-times best (x ∷ xs) = ground (
    arith,
    max_time-times best xs,
    max_time-times x.processing_time xs,
    max_time_ge best xs,
    max_time_ge x.processing_time xs,
    mul-suc (max_time best xs) (suc (length xs)),
    mul-suc (max_time x.processing_time xs) (suc (length xs)),
  )

  within :
      (low high : ℕ) (xs : List (ProcessingMetrics F))
      → All (λ y. (min_time low xs ≤ y.processing_time) × (y.processing_time ≤ max_time high xs)) xs
  unfolding min_time max_time
  within low high [] = tt
  within low high (x ∷ xs) =
      let low' = if ltb x.processing_time low then x.processing_time else low in
      let high' = if ltb high x.processing_time then x.processing_time else high in
      let under : low' ≤ x.processing_time = ground arith in
      let over : x.processing_time ≤ high' = ground arith in
      (
        (omega (arith, under, min_time_le low' xs), omega (arith, over, max_time_ge high' xs)),
        within low' high' xs,
      )

  -- Every processing time is between the two.
  abbrev pub InReport : PerformanceReport F → ProcessingMetrics F → Type 0
  InReport p x = (p.min_process_time ≤ x.processing_time) × (x.processing_time ≤ p.max_process_time)

  abbrev pub IsBounded : PerformanceReport F → List (ProcessingMetrics F) → Type 0
  IsBounded p [] =
      (p.min_process_time ≡ 0) × ((p.average_process_time ≡ 0) × (p.max_process_time ≡ 0))
  IsBounded p (x ∷ xs) =
      All (InReport p) (x ∷ xs)
      × ((p.min_process_time ≤ p.average_process_time)
          × (p.average_process_time ≤ p.max_process_time))

module _ {A : Type 0} where
  sum_values_le :
      (max : ℕ) (d : Dict (List A)) → Bounded max d → sum_values length d ≤ length d * max
  sum_values_le max [] b = omega arith
  sum_values_le max ((k, xs) ∷ d) b =
      omega (arith, sum_values_le max d b.1, b.0, suc-mul (length d) max)

module _ (r : Rates) where
  open r use {Float}

  report_on_bounds :
      (chain : String) (duration : ℤ) (xs : List (ProcessingMetrics Float)) (errors : ℕ)
      → let p = report_on r chain duration xs errors in
        (p.min_process_time ≤ p.average_process_time)
        × (p.average_process_time ≤ p.max_process_time)
  unfolding report_on
  report_on_bounds chain duration [] errors = (omega arith, omega arith)
  report_on_bounds chain duration (x ∷ xs) errors = (
    (le-div_iff_mul-le (omega arith)).1 (min_time-times x.processing_time xs),
    div-le_of_le-mul (suc (length xs)) (
        omega (
          arith,
          max_time-times x.processing_time xs,
          mul_comm (max_time x.processing_time xs) (suc (length xs)),
        )),
  )

  report_on_within :
      (chain : String) (duration : ℤ) (xs : List (ProcessingMetrics Float)) (errors : ℕ)
      → All (InReport (report_on r chain duration xs errors)) xs
  unfolding report_on
  report_on_within chain duration [] errors = tt
  report_on_within chain duration (x ∷ xs) errors = (
    (min_time_le x.processing_time xs, max_time_ge x.processing_time xs),
    within x.processing_time x.processing_time xs,
  )

  report_on-IsBounded :
      (chain : String) (duration : ℤ) (xs : List (ProcessingMetrics Float)) (errors : ℕ)
      → IsBounded (report_on r chain duration xs errors) xs
  unfolding report_on
  report_on-IsBounded chain duration [] errors = (refl, (refl, refl))
  report_on-IsBounded chain duration (x ∷ xs) errors = (
    report_on_within chain duration (x ∷ xs) errors,
    report_on_bounds chain duration (x ∷ xs) errors,
  )

  -- Every processing time that was measured in the period lies between the minimum and the maximum
  -- of the report, and so does their average; for no measurement all three are 0.
  pub get_performance_metrics_bounds :
      (m : MemoryProgressTracker Float) (chain : String) (duration : ℤ) (now : ℕ)
      → IsBounded
          (get_performance_metrics r m chain duration now)
          (select (λ x. after (pos now -ℤ duration) x.timestamp) (or_nil (lookup chain m.metrics)))
  unfolding get_performance_metrics
  get_performance_metrics_bounds m chain duration now =
      let cutoff = pos now -ℤ duration in
      let fresh = select (λ x. after cutoff x.timestamp) (or_nil (lookup chain m.metrics)) in
      let errors =
        length (select (λ e. after cutoff e.error_time) (or_nil (lookup chain m.errors))) in
      report_on-IsBounded chain duration fresh errors

  -- After any calls on a new tracker, HealthCheck gives no error as long as at most ten chains have
  -- a history of metrics and at most ten a history of errors.
  pub health_check-from_new :
      (now : ℕ) (cs : List (Call Float))
      → length (from_new r now cs).metrics ≤ 10
      → length (from_new r now cs).errors ≤ 10
      → health_check (from_new r now cs) ≡ true
  unfolding health_check
  health_check-from_new now cs few few' =
      let m = from_new r now cs in
      let v = from_new-IsValid r now cs in
      ground (
        arith,
        sum_values_le m.max_metrics_history m.metrics v.metrics_bounded,
        sum_values_le m.max_error_history m.errors v.errors_bounded,
        mul-le-mul_right m.max_metrics_history few,
        mul-le-mul_right m.max_error_history few',
      )
