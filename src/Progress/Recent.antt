-- ===== src/Progress/Recent.antt =====
-- Which errors GetErrorHistory has after any calls but Cleanup.
use chain_parse_service.Base.{
  ℕ, zero, suc, ◌-◌, ◌≤◌, String, ◌≡◌, refl, sym, ap, ◌∙◌, inl, inr, false, Option, none, some,
  List, [], ◌∷◌, ◌++◌, arith, if◌then◌else◌, length, length-drop, length-append, All, take, drop,
  take-append-drop, append_assoc, leb, str_eq, str_eq_iff, Bool-cases,
}
use chain_parse_service.Base.Int.{ℤ, pos, negsuc}
use chain_parse_service.Base.Dict.{Dict, lookup, insert, erase, lookup-insert, lookup-erase}
use chain_parse_service.Types.{ProcessProgress}
use chain_parse_service.Progress.Records.{Rates, ProcessingError, ProcessingMetrics}
use chain_parse_service.Progress.{
  MemoryProgressTracker, append_bounded, or_nil, new_memory_progress_tracker, stamp, put_progress,
  put_all, update_global_stats, update_progress, reset_progress, update_multiple_progress,
  set_processing_status,
}
use chain_parse_service.Progress.History.{
  alter_progress, store_stats, count_error, forget_errors, record_error, get_error_history,
  clear_error_history, record_processing_metrics, update_processing_stats, last_limited,
}
use chain_parse_service.Progress.Calls.{Call, apply_call, apply_calls, from_new}

module _ {A : Type 0} where
  -- The last `n` elements, or all of them where there are fewer.
  abbrev pub newest : ℕ → List A → List A
  newest n xs = drop (length xs - n) xs

  newest-append : (n : ℕ) (ys zs : List A) → n ≤ length zs → newest n (ys ++ zs) ≡ newest n zs
  newest-append n [] zs h = refl
  newest-append n (y ∷ ys) zs h =
      let k : length (y ∷ (ys ++ zs)) - n ≡ suc (length (ys ++ zs) - n) =
        omega (arith, length-append ys zs, h) in
      ap (λ i. drop i (y ∷ (ys ++ zs))) k ∙ newest-append n ys zs h

  newest_few : (n : ℕ) (xs : List A) → length xs ≤ n → newest n xs ≡ xs
  newest_few n xs h = let k : length xs - n ≡ 0 = omega (arith, h) in ap (λ i. drop i xs) k

  -- The newest `limit` elements, or all of them where `limit` is not positive.
  abbrev pub newest_limited : ℤ → List A → List A
  newest_limited (pos zero) xs = xs
  newest_limited (pos (suc n)) xs = newest (suc n) xs
  newest_limited (negsuc n) xs = xs

  last_limited-newest : (limit : ℤ) (xs : List A) → last_limited limit xs ≡ newest_limited limit xs
  unfolding last_limited
  last_limited-newest (pos zero) xs = refl
  last_limited-newest (pos (suc n)) xs = ground (arith, newest_few (suc n) xs)
  last_limited-newest (negsuc n) xs = refl

  append_bounded-newest :
      (n : ℕ) (xs : List A) (x : A) → append_bounded n (newest n xs) x ≡ newest n (xs ++ (x ∷ []))
  unfolding append_bounded
  append_bounded-newest n xs x =
      let whole : append_bounded n (newest n xs) x ≡ newest n (newest n xs ++ (x ∷ [])) =
        ground (arith, newest_few n (newest n xs ++ (x ∷ []))) in
      whole ∙ elim (Bool-cases (leb (length xs) n)) [
        | inl few ↦ ap (λ ys. newest n (ys ++ (x ∷ []))) (newest_few n xs (ground (arith, few)))
        | inr many ↦
            let k = length xs - n in
            let long : n ≤ length (drop k xs ++ (x ∷ [])) =
              ground (arith, many, length-append (drop k xs) (x ∷ []), length-drop k xs) in
            sym (newest-append n (take k xs) (drop k xs ++ (x ∷ [])) long)
            ∙ ap (newest n) (
                sym (append_assoc (take k xs) (drop k xs) (x ∷ []))
                ∙ ap (λ ys. ys ++ (x ∷ [])) (take-append-drop k xs))
      ]

module _ {F : Type 0} where
  -- What a call adds to the errors of a chain, or takes from them.
  unfoldable pub log_call : String → List ProcessingError → Call F → List ProcessingError
  log_call chain log (Call.note_error c (some e) now) =
      let entry : ProcessingError = record {
        chain_type = c;
        error_time = now;
        error_type = e.error_type;
        error_msg = e.error_msg;
        resolved = false;
      } in
      if str_eq c chain then log ++ (entry ∷ []) else log
  log_call chain log (Call.clear_errors c) = if str_eq c chain then [] else log
  log_call chain log (Call.reset c now) = if str_eq c chain then [] else log
  log_call chain log _ = log

  -- All errors that were recorded for the chain since they were cleared or reset last.
  unfoldable pub logged : String → List ProcessingError → List (Call F) → List ProcessingError
  unfolding log_call
  logged chain log [] = log
  logged chain log (c ∷ cs) = logged chain (log_call chain log c) cs

  abbrev pub IsNoCleanup : Call F → Type 0
  IsNoCleanup (Call.clean older_than now) = ⊥
  IsNoCleanup _ = Unit

module _ (r : Rates) where
  open r use {Float}

  -- The errors that the tracker has of a chain are the newest of `log`.
  abbrev HasNewest : String → List ProcessingError → MemoryProgressTracker Float → Type 0
  HasNewest chain log m =
      (or_nil (lookup chain m.errors) ≡ newest m.max_error_history log)
      × (m.max_error_history ≡ 1000)

  alter_progress_frame :
      (f : ProcessProgress Float → ProcessProgress Float) (c chain : String)
      (log : List ProcessingError) (o : Option (ProcessProgress Float))
      (m : MemoryProgressTracker Float)
      → HasNewest chain log m
      → HasNewest chain log (alter_progress r f c o m)
  unfolding put_progress
  alter_progress_frame f c chain log none m h = h
  alter_progress_frame f c chain log (some p) m h = h

  store_stats_frame :
      (c chain : String) (log : List ProcessingError) (xs : List (ProcessingMetrics Float))
      (o : Option (ProcessProgress Float)) (now : ℕ) (m : MemoryProgressTracker Float)
      → HasNewest chain log m
      → HasNewest chain log (store_stats r c xs o now m)
  store_stats_frame c chain log [] o now m h = h
  store_stats_frame c chain log (x ∷ xs) none now m h = h
  store_stats_frame c chain log (x ∷ xs) (some p) now m h = h

  put_all_newest :
      (chain : String) (log : List ProcessingError) (m : MemoryProgressTracker Float)
      (ps : List (String × Option (ProcessProgress Float))) (now : ℕ)
      → HasNewest chain log m
      → HasNewest chain log (update_multiple_progress r m ps now)
  unfolding update_multiple_progress put_all put_progress update_global_stats
  put_all_newest chain log m [] now h = h
  put_all_newest chain log m ((c, none) ∷ ps) now h = put_all_newest chain log m ps now h
  put_all_newest chain log m ((c, some p) ∷ ps) now h =
      put_all_newest chain log (put_progress r m c (stamp r c now p)) ps now h

  erase-newest :
      (n : ℕ) (c chain : String) (log : List ProcessingError) (d : Dict (List ProcessingError))
      → or_nil (lookup chain d) ≡ newest n log
      → or_nil (lookup chain (erase c d)) ≡ newest n (if str_eq c chain then [] else log)
  erase-newest n c chain log d h = ground (arith, lookup-erase c chain d, h)

  insert-newest :
      (n : ℕ) (c chain : String) (log : List ProcessingError) (e : ProcessingError)
      (d : Dict (List ProcessingError))
      → or_nil (lookup chain d) ≡ newest n log
      → or_nil (lookup chain (insert c (append_bounded n (or_nil (lookup c d)) e) d))
        ≡ newest n (if str_eq c chain then log ++ (e ∷ []) else log)
  insert-newest n c chain log e d h =
      let kept = append_bounded n (or_nil (lookup c d)) e in
      let found = ap or_nil (lookup-insert c chain kept d) in
      elim (Bool-cases (str_eq c chain)) [
        | inl same ↦
            let here : or_nil (lookup c d) ≡ newest n log =
              ap (λ k. or_nil (lookup k d)) ((str_eq_iff c chain).0 same) ∙ h in
            found
            ∙ ap (λ b. or_nil (if b then some kept else lookup chain d)) same
            ∙ ap (λ xs. append_bounded n xs e) here
            ∙ append_bounded-newest n log e
            ∙ ap (λ b. newest n (if b then log ++ (e ∷ []) else log)) (sym same)
        | inr other ↦
            found
            ∙ ap (λ b. or_nil (if b then some kept else lookup chain d)) other
            ∙ h
            ∙ ap (λ b. newest n (if b then log ++ (e ∷ []) else log)) (sym other)
      ]

  apply_call_newest :
      (chain : String) (log : List ProcessingError) (m : MemoryProgressTracker Float)
      (c : Call Float)
      → IsNoCleanup c
      → HasNewest chain log m
      → HasNewest chain (log_call chain log c) (apply_call r m c)
  unfolding log_call apply_call update_progress put_progress update_global_stats reset_progress
      set_processing_status record_error clear_error_history record_processing_metrics
      update_processing_stats
  apply_call_newest chain log m (Call.update c none now) k h = h
  apply_call_newest chain log m (Call.update c (some p) now) k h = h
  apply_call_newest chain log m (Call.reset c now) k h =
      (erase-newest m.max_error_history c chain log m.errors h.0, h.1)
  apply_call_newest chain log m (Call.update_multiple ps now) k h =
      put_all_newest chain log m ps now h
  apply_call_newest chain log m (Call.set_status c status now) k h = h
  apply_call_newest chain log m (Call.note_error c none now) k h = h
  apply_call_newest chain log m (Call.note_error c (some e) now) k h =
      let entry : ProcessingError = record {
        chain_type = c;
        error_time = now;
        error_type = e.error_type;
        error_msg = e.error_msg;
        resolved = false;
      } in
      let log' = if str_eq c chain then log ++ (entry ∷ []) else log in
      let kept = append_bounded m.max_error_history (or_nil (lookup c m.errors)) entry in
      alter_progress_frame (count_error r now) c chain log' (lookup c m.progresses)
        (record m { errors = insert c kept m.errors })
        (insert-newest m.max_error_history c chain log entry m.errors h.0, h.1)
  apply_call_newest chain log m (Call.clear_errors c) k h =
      alter_progress_frame (forget_errors r) c chain (if str_eq c chain then [] else log)
        (lookup c m.progresses) (record m { errors = erase c m.errors })
        (erase-newest m.max_error_history c chain log m.errors h.0, h.1)
  apply_call_newest chain log m (Call.note_metrics c none now) k h = h
  apply_call_newest chain log m (Call.note_metrics c (some x) now) k h =
      let entry : ProcessingMetrics Float = record x { timestamp = now; chain_type = c } in
      let kept = append_bounded m.max_metrics_history (or_nil (lookup c m.metrics)) entry in
      let d = insert c kept m.metrics in
      store_stats_frame c chain log (or_nil (lookup c d)) (lookup c m.progresses) now
        (record m { metrics = d }) h
  apply_call_newest chain log m (Call.clean older_than now) k h = absurd k

  apply_calls_newest :
      (chain : String) (log : List ProcessingError) (m : MemoryProgressTracker Float)
      (cs : List (Call Float))
      → All IsNoCleanup cs
      → HasNewest chain log m
      → HasNewest chain (logged chain log cs) (apply_calls r m cs)
  unfolding apply_calls logged
  apply_calls_newest chain log m [] k h = h
  apply_calls_newest chain log m (c ∷ cs) k h =
      apply_calls_newest chain (log_call chain log c) (apply_call r m c) cs k.1
        (apply_call_newest chain log m c k.0 h)

  -- After any calls without Cleanup on a new tracker, GetErrorHistory answers the newest `limit`
  -- errors, or all where the limit is not positive, of the newest 1000 of those that were recorded
  -- for the chain since its errors were cleared or the chain was reset last.
  pub get_error_history-logged :
      (now : ℕ) (cs : List (Call Float)) (chain : String) (limit : ℤ)
      → All IsNoCleanup cs
      → get_error_history r (from_new r now cs) chain limit
        ≡ newest_limited limit (newest 1000 (logged chain [] cs))
  unfolding get_error_history new_memory_progress_tracker
  get_error_history-logged now cs chain limit k =
      let h = apply_calls_newest chain [] (new_memory_progress_tracker r now) cs k (refl, refl) in
      ap (last_limited limit) (h.0 ∙ ap (λ n. newest n (logged chain [] cs)) h.1)
      ∙ last_limited-newest limit (newest 1000 (logged chain [] cs))
