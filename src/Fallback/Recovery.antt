-- ===== src/Fallback/Recovery.antt =====
-- What UpdateProgress has written when it returns, and what GetProgress answers after an outage of
-- the primary store.
use chain_parse_service.Base.{
  ℕ, String, ◌≡◌, refl, ◌⊎◌, inl, inr, Bool, true, false, ◌&&◌, Option, some, List, [], ◌∷◌,
  if◌then◌else◌, arith, str_eq, str_eq_iff,
}
use chain_parse_service.Fallback.{
  FallbackProgressTracker, Update, Write, Store, primary_store, secondary_store, update_progress,
  mark_primary, probe, get_progress,
}

abbrev pub same_store : Store → Store → Bool
same_store primary_store primary_store = true
same_store secondary_store secondary_store = true
same_store _ _ = false

module _ {P : Type 0} where
  -- The progress is the first write that a store took, and the call returned nil; or nothing was
  -- taken, the call returned an error, and the primary store counts as down from then on.
  abbrev pub Taken : Update P → FallbackProgressTracker × List (Write P) × Bool → Type 0
  Taken c (f', ws, ok) =
      ((ok ≡ true)
        × ((s : Store) × (more : List (Write P)) × (ws
              ≡ record { store = s; chain = c.chain; progress = c.progress } ∷ more)))
      ⊎ ((ok ≡ false) × (ws ≡ []) × (f'.primary_healthy ≡ false) × (c.answers.secondary ≡ false))

  -- By whether the primary store counts as healthy, and what the two stores answer.
  Taken-by_cases :
      (n k : ℕ) (chain : String) (p : P) (healthy first second : Bool)
      → Taken
          (record {
            chain = chain;
            progress = p;
            answers = record { primary = first; secondary = second };
          })
          (update_progress
            (record { sync_interval = n; update_count = k; primary_healthy = healthy })
            (record {
              chain = chain;
              progress = p;
              answers = record { primary = first; secondary = second };
            }))
  unfolding update_progress mark_primary
  Taken-by_cases n k chain p true true second = inl (refl, (_, _, refl))
  Taken-by_cases n k chain p true false true = inl (refl, (_, _, refl))
  Taken-by_cases n k chain p true false false = inr (refl, refl, refl, refl)
  Taken-by_cases n k chain p false first true = inl (refl, (_, _, refl))
  Taken-by_cases n k chain p false first false = inr (refl, refl, refl, refl)

  -- UpdateProgress returns nil exactly if one of the stores took the progress; an error means that
  -- the secondary store refused it, that neither store took it, and that the primary store counts
  -- as down from then on.
  pub update_progress-Taken :
      (f : FallbackProgressTracker) (c : Update P) → Taken c (update_progress f c)
  update_progress-Taken f c =
      Taken-by_cases f.sync_interval f.update_count c.chain c.progress f.primary_healthy
        c.answers.primary c.answers.secondary

  -- The last progress that a store has for the chain; `o` is what it had before.
  unfoldable pub latest : Store → String → Option P → List (Write P) → Option P
  latest s chain o [] = o
  latest s chain o (w ∷ ws) =
      let newer = latest s chain (some w.progress) ws in
      let same = latest s chain o ws in
      if str_eq w.chain chain && same_store w.store s then newer else same

  -- An update during an outage of the primary store, and then a probe that succeeds.
  unfoldable pub after_outage :
      FallbackProgressTracker → String → P → FallbackProgressTracker × List (Write P)
  after_outage f chain new =
      let c : Update P = record {
        chain = chain;
        progress = new;
        answers = record { primary = false; secondary = true };
      } in
      let (f', ws, ok) = update_progress f c in (probe f' true, ws)

  -- After an outage of the primary store in which the secondary store took a new progress, GetProgress
  -- answers the old progress again as soon as a probe of the primary store succeeds, though the
  -- secondary store has the new one.
  pub get_progress_stale :
      (f : FallbackProgressTracker) (chain : String) (old new : P)
      → (latest secondary_store chain (some old) (after_outage f chain new).1 ≡ some new)
        × ((get_progress (after_outage f chain new).0 (record {
          primary = latest primary_store chain (some old) (after_outage f chain new).1;
          secondary = latest secondary_store chain (some old) (after_outage f chain new).1;
        })).1
            ≡ some old)
  unfolding after_outage latest update_progress mark_primary probe get_progress
  get_progress_stale f chain old new = ground (arith, str_eq_iff chain chain)
