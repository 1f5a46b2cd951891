-- ===== src/Progress/Sums.antt =====
-- The sums of the global statistics, the bounds on histories, and how single steps keep them.
use chain_parse_service.Base.{
  ℕ, ◌+◌, ◌-◌, ◌≤◌, String, ◌≡◌, refl, ap, Bool, Option, none, some, List, [], ◌∷◌, ◌++◌, arith,
  if◌then◌else◌, length, length-drop, select,
}
use chain_parse_service.Base.Dict.{
  Dict, lookup, insert, erase, NodupKeys, insert-NodupKeys, opt_by, sum_values, sum_values-insert,
}
use chain_parse_service.Types.{ProcessProgress}
use chain_parse_service.Progress.Records.{Rates, ProcessingStats, GlobalProcessingStats}
use chain_parse_service.Progress.{
  MemoryProgressTracker, Totals, append_bounded, is_active, stamp, put_progress, put_all,
  scan_progresses, add_totals, update_global_stats, update_multiple_progress,
}
use chain_parse_service.Progress.History.{filter_all}

module _ {ℓ} {A : Type ℓ} where
  -- Every history has at most `max` entries.
  abbrev pub Bounded : ℕ → Dict (List A) → Type 0
  Bounded max [] = Unit
  Bounded max ((_, xs) ∷ d) = (length xs ≤ max) × Bounded max d

  pub length-append_bounded :
      (max : ℕ) (xs : List A) (x : A) → length (append_bounded max xs x) ≤ max
  unfolding append_bounded
  length-append_bounded max xs x =
      ground (arith, length-drop (length (xs ++ (x ∷ [])) - max) (xs ++ (x ∷ [])))

  pub insert-Bounded :
      (max : ℕ) (k : String) (xs : List A) (d : Dict (List A))
      → length xs ≤ max
      → Bounded max d
      → Bounded max (insert k xs d)
  unfolding insert
  insert-Bounded max k xs [] h b = (h, tt)
  insert-Bounded max k xs ((j, ys) ∷ d) h b = ground (arith, insert-Bounded max k xs d h b.1)

  pub erase-Bounded :
      (max : ℕ) (k : String) (d : Dict (List A)) → Bounded max d → Bounded max (erase k d)
  unfolding erase
  erase-Bounded max k [] b = tt
  erase-Bounded max k ((j, ys) ∷ d) b = ground (arith, erase-Bounded max k d b.1)

  length-select : (p : A → Bool) (xs : List A) → length (select p xs) ≤ length xs
  length-select p [] = omega arith
  length-select p (x ∷ xs) = ground (arith, length-select p xs)

  pub filter_all-Bounded :
      (max : ℕ) (p : A → Bool) (d : Dict (List A)) → Bounded max d → Bounded max (filter_all p d)
  unfolding filter_all
  filter_all-Bounded max p [] b = tt
  filter_all-Bounded max p ((k, xs) ∷ d) b =
      let short = length-select p xs in (omega (arith, short, b.0), filter_all-Bounded max p d b.1)

module _ {F : Type 0} where
  abbrev pub active : ProcessProgress F → ℕ
  active p = if is_active p.processing_status then 1 else 0

  -- The sums over the progresses that the global statistics hold.
  pub record Matches (g : GlobalProcessingStats F) (d : Dict (ProcessProgress F)) : Type 0 where
    pub chains : g.total_chains ≡ length d
    pub active_chains : g.active_chains ≡ sum_values active d
    pub transactions : g.total_transactions ≡ sum_values (λ p. p.total_transactions) d
    pub events : g.total_events ≡ sum_values (λ p. p.total_events) d

  pub record IsValid (m : MemoryProgressTracker F) : Type 0 where
    pub matches : Matches m.global_stats m.progresses
    pub nodup : NodupKeys m.progresses
    pub errors_bounded : Bounded m.max_error_history m.errors
    pub metrics_bounded : Bounded m.max_metrics_history m.metrics

  length-sum_values : (d : Dict (ProcessProgress F)) → length d ≡ sum_values (λ _. 1) d
  length-sum_values [] = refl
  length-sum_values (_ ∷ d) = omega (arith, length-sum_values d)

  -- A sum does not change where a value is replaced by one of the same measure.
  insert_same :
      (f : ProcessProgress F → ℕ) (k : String) (p q : ProcessProgress F)
      (d : Dict (ProcessProgress F))
      → lookup k d ≡ some p
      → f q ≡ f p
      → sum_values f (insert k q d) ≡ sum_values f d
  insert_same f k p q d h e = omega (arith, sum_values-insert f k q d, ap (opt_by f) h, e)

module _ (r : Rates) where
  open r use {Float}

  scan_progresses-totals :
      (stats : Dict (ProcessingStats Float)) (d : Dict (ProcessProgress Float)) (t : Totals Float)
      → let t' = scan_progresses r stats d t in
        (t'.active_chains ≡ t.active_chains + sum_values active d)
        × ((t'.total_transactions ≡ t.total_transactions + sum_values (λ p. p.total_transactions) d)
            × (t'.total_events ≡ t.total_events + sum_values (λ p. p.total_events) d))
  unfolding scan_progresses add_totals
  scan_progresses-totals stats [] t = (omega arith, (omega arith, omega arith))
  scan_progresses-totals stats ((chain, p) ∷ d) t =
      let h = scan_progresses-totals stats d (add_totals r stats chain p t) in
      (ground (arith, h.0), (omega (arith, h.1.0), omega (arith, h.1.1)))

  update_global_stats-Matches :
      (m : MemoryProgressTracker Float) (now : ℕ)
      → Matches (update_global_stats r m now).global_stats m.progresses
  unfolding update_global_stats
  update_global_stats-Matches m now =
      let start : Totals Float = record {
        active_chains = 0;
        total_transactions = 0;
        total_events = 0;
        total_success_rate = r.zero;
        rated_chains = 0;
        chain_stats = m.global_stats.chain_stats;
      } in
      let h = scan_progresses-totals m.stats m.progresses start in
      record {
        chains = refl;
        active_chains = omega (arith, h.0);
        transactions = omega (arith, h.1.0);
        events = omega (arith, h.1.1);
      }

  -- A tracker whose global statistics were computed last.
  pub update_global_stats-IsValid :
      (m : MemoryProgressTracker Float) (now : ℕ)
      → NodupKeys m.progresses
      → Bounded m.max_error_history m.errors
      → Bounded m.max_metrics_history m.metrics
      → IsValid (update_global_stats r m now)
  unfolding update_global_stats
  update_global_stats-IsValid m now u e b = record {
    matches = update_global_stats-Matches m now;
    nodup = u;
    errors_bounded = e;
    metrics_bounded = b;
  }

  pub put_all_frame :
      (m : MemoryProgressTracker Float) (ps : List (String × Option (ProcessProgress Float)))
      (now : ℕ)
      → NodupKeys m.progresses
      → Bounded m.max_error_history m.errors
      → Bounded m.max_metrics_history m.metrics
      → IsValid (update_multiple_progress r m ps now)
  unfolding update_multiple_progress put_all put_progress
  put_all_frame m [] now u e b = update_global_stats-IsValid m now u e b
  put_all_frame m ((chain, none) ∷ ps) now u e b = put_all_frame m ps now u e b
  put_all_frame m ((chain, some p) ∷ ps) now u e b =
      put_all_frame (put_progress r m chain (stamp r chain now p)) ps now
        (insert-NodupKeys chain (stamp r chain now p) m.progresses u) e b

  pub put_same :
      (m : MemoryProgressTracker Float) (chain : String) (p q : ProcessProgress Float)
      → lookup chain m.progresses ≡ some p
      → active q ≡ active p
      → q.total_transactions ≡ p.total_transactions
      → q.total_events ≡ p.total_events
      → IsValid m
      → IsValid (put_progress r m chain q)
  unfolding put_progress
  put_same m chain p q h a t e v =
      let d = m.progresses in
      record {
        matches = record {
          chains = omega (
            arith,
            v.matches.chains,
            length-sum_values d,
            length-sum_values (insert chain q d),
            insert_same (λ _. 1) chain p q d h refl,
          );
          active_chains =
              omega (arith, v.matches.active_chains, insert_same active chain p q d h a);
          transactions = omega (
            arith,
            v.matches.transactions,
            insert_same (λ p. p.total_transactions) chain p q d h t,
          );
          events =
              omega (arith, v.matches.events, insert_same (λ p. p.total_events) chain p q d h e);
        };
        nodup = insert-NodupKeys chain q d v.nodup;
        errors_bounded = v.errors_bounded;
        metrics_bounded = v.metrics_bounded;
      }
