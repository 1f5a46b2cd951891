-- ===== src/Engine/Batch/Coverage.antt =====
-- Which blocks a run of ticks has stored.
use mathlib.Core.Path.{subst}
use native.Mathlib.Decide.{dec_le}
use chain_parse_service.Base.{
  ◌+◌, ◌≡◌, ◌∙◌, ◌⊎◌, inl, inr, String, true, none, some, List, [], ◌∷◌, ◌++◌, arith, Bool-cases,
}
use chain_parse_service.Base.{All, All-map}
use chain_parse_service.Base.Dict.{lookup}
use chain_parse_service.Base.Int.{ℤ, pos, ◌+ℤ◌, ◌≤ℤ◌, ◌<ℤ◌, pos_part, neg_part, int_laws}
use chain_parse_service.Types.{ProcessProgress}
use chain_parse_service.Engine.{
  ChainConfig, default_start, EngineConfig, process_chain_batch, start_block, batch_size,
  get_or_create_progress,
}
use chain_parse_service.Engine.Batch.Range.{start_block_next, end_block_bounds}
use chain_parse_service.Engine.Batch.Ticks.{
  Tick, Loads, stored_range, tick, next_progress, run, ranges, from_block, next_progress_cases,
  from_block_loaded, from_block_fresh,
}

abbrev pub InRanges : ℤ → List (ℤ × ℤ) → Type 0
InRanges n [] = ⊥
InRanges n ((s, e) ∷ rs) = ((s ≤ℤ n) × (n ≤ℤ e)) ⊎ InRanges n rs

InRanges-append : (n : ℤ) (rs ss : List (ℤ × ℤ)) → InRanges n ss → InRanges n (rs ++ ss)
InRanges-append n [] ss h = h
InRanges-append n (r ∷ rs) ss h = inr (InRanges-append n rs ss h)

module _ {F : Type 0} (cfg : EngineConfig) (chain : String) where
  -- The chain has a StartBlock, and it is not beyond the block after the progress.
  pub record StartsBy (p : ProcessProgress F) : Type 0 where
    pub config : ChainConfig
    pub configured : lookup chain cfg.chain_configs ≡ some config
    pub positive : pos 0 <ℤ config.start_block
    pub in_reach : config.start_block ≤ℤ p.last_processed_block +ℤ pos 1

  -- GetProgress succeeds, or the fresh progress that replaces it makes the tick start early enough.
  abbrev pub Keeps : ProcessProgress F → Tick F → Type 0
  Keeps p t = (t.load_ok ≡ true) ⊎ StartsBy p

  configured_start :
      (p : ProcessProgress F) (latest : ℤ) (early : StartsBy p)
      → default_start (lookup chain cfg.chain_configs) latest ≡ early.config.start_block
  unfolding default_start
  configured_start p latest early = ground (arith, early.configured, early.positive)

  -- The tick starts at a positive block, and skips none after the progress.
  from_block_bounds :
      (p : ProcessProgress F) (t : Tick F) (latest : ℤ)
      → pos 0 <ℤ p.last_processed_block
      → Keeps p t
      → (pos 0 <ℤ from_block cfg chain p t latest)
        × (from_block cfg chain p t latest ≤ℤ p.last_processed_block +ℤ pos 1)
  from_block_bounds p t latest h (inl loads) =
      rw (from_block_loaded cfg chain p t latest h loads) (omega int_laws, omega int_laws)
  from_block_bounds p t latest h (inr early) = elim (Bool-cases t.load_ok) [
    | inl loads ↦
        rw (from_block_loaded cfg chain p t latest h loads) (omega int_laws, omega int_laws)
    | inr fails ↦
        rw (from_block_fresh cfg chain p t latest fails, configured_start p latest early)
          (early.positive, early.in_reach)
  ]

  -- After the tick the start is still early enough: a progress that moved back has passed it.
  still_StartsBy :
      (p q : ProcessProgress F) (e start : ℤ)
      → q.last_processed_block ≡ e
      → start <ℤ e
      → (start ≡ p.last_processed_block +ℤ pos 1)
        ⊎ ((early : StartsBy p) × (start ≡ early.config.start_block))
      → StartsBy p
      → StartsBy q
  still_StartsBy p q e start moved over (inl next) early = record {
    config = early.config;
    configured = early.configured;
    positive = early.positive;
    in_reach =
        let near = early.in_reach in
        let over' : p.last_processed_block +ℤ pos 1 <ℤ e = subst (λ z. z <ℤ e) next over in
        rw moved (omega (int_laws, near, over'));
  }
  still_StartsBy p q e start moved over (inr (early, from)) _ = record {
    config = early.config;
    configured = early.configured;
    positive = early.positive;
    in_reach =
        let over' : early.config.start_block <ℤ e = subst (λ z. z <ℤ e) from over in
        rw moved (omega (int_laws, over'));
  }

  which_start :
      (p : ProcessProgress F) (t : Tick F) (latest : ℤ)
      → pos 0 <ℤ p.last_processed_block
      → StartsBy p
      → (from_block cfg chain p t latest ≡ p.last_processed_block +ℤ pos 1)
        ⊎ ((early : StartsBy p) × (from_block cfg chain p t latest ≡ early.config.start_block))
  which_start p t latest h early = elim (Bool-cases t.load_ok) [
    | inl loads ↦ inl (from_block_loaded cfg chain p t latest h loads)
    | inr fails ↦
        inr (early, from_block_fresh cfg chain p t latest fails ∙ configured_start p latest early)
  ]

  keep_on :
      (p q : ProcessProgress F) (ts : List (Tick F))
      → (StartsBy p → StartsBy q)
      → All (Keeps p) ts
      → All (Keeps q) ts
  keep_on p q ts f =
      All-map (Keeps p) (Keeps q)
        (λ t k. elim k [ inl loads ↦ inl loads | inr early ↦ inr (f early) ]) ts

  -- No block is skipped: over any run of ticks, failing or not, from a positive progress, every
  -- block number above the first progress and up to the last one lies in a range that some tick
  -- fetched and handed to the storage engine without an error. In each tick GetProgress succeeds,
  -- or the chain has a StartBlock that is not beyond the block after the first progress.
  pub run-InRanges :
      (p : ProcessProgress F) (ts : List (Tick F)) (n : ℤ)
      → pos 0 <ℤ p.last_processed_block
      → All (Keeps p) ts
      → p.last_processed_block <ℤ n
      → n ≤ℤ (run cfg chain p ts).last_processed_block
      → InRanges n (ranges cfg chain p ts)
  unfolding run ranges
  run-InRanges p [] n h k lo hi = absurd (omega arith)
  run-InRanges p (t ∷ ts) n h k lo hi =
      let q = next_progress cfg chain p t in
      elim (next_progress_cases cfg chain p t) [
        | inl same ↦
            InRanges-append n (stored_range (tick cfg chain p t)) _ (
              run-InRanges q ts n (rw same h) (keep_on p q ts (λ s. rw same s) k.1) (rw same lo) hi)
        | inr (latest, e, moved, _, over, range) ↦
            let bounds = from_block_bounds p t latest h k.0 in
            elim (dec_le (pos_part n + neg_part e) (pos_part e + neg_part n)) [
              | yes below ↦ rw range (inl (omega (int_laws, bounds.1), below))
              | no above ↦ InRanges-append n (stored_range (tick cfg chain p t)) _ (
                  run-InRanges q ts n (rw moved (omega (arith, bounds.0, over)))
                    (keep_on p q ts
                      (λ s.
                        still_StartsBy p q e (from_block cfg chain p t latest) moved over
                          (which_start p t latest h s) s)
                      k.1)
                    (rw moved (omega arith)) hi)
            ]
      ]

  pub next_progress_grows :
      (p : ProcessProgress F) (t : Tick F)
      → pos 0 <ℤ p.last_processed_block
      → Loads t
      → p.last_processed_block ≤ℤ (next_progress cfg chain p t).last_processed_block
  next_progress_grows p t h loads = elim (next_progress_cases cfg chain p t) [
    | inl same ↦ rw same (omega arith)
    | inr (latest, e, moved, _, over, _) ↦
        let over' : p.last_processed_block +ℤ pos 1 <ℤ e =
          subst (λ z. z <ℤ e) (from_block_loaded cfg chain p t latest h loads) over in
        rw moved (omega (int_laws, over'))
  ]

  -- A run in which every GetProgress succeeds never moves a positive progress back.
  pub run_grows :
      (p : ProcessProgress F) (ts : List (Tick F))
      → pos 0 <ℤ p.last_processed_block
      → All Loads ts
      → p.last_processed_block ≤ℤ (run cfg chain p ts).last_processed_block
  unfolding run
  run_grows p [] h l = omega arith
  run_grows p (t ∷ ts) h l = omega (
    arith,
    next_progress_grows p t h l.0,
    run_grows (next_progress cfg chain p t) ts (omega (arith, next_progress_grows p t h l.0)) l.1,
  )

  -- The newest block waits: if it is the only new one, a tick whose GetProgress succeeds fetches
  -- and stores nothing, saves no progress and ends without an error.
  pub head_waits :
      (p : ProcessProgress F) (t : Tick F) (latest : ℤ)
      → pos 0 <ℤ p.last_processed_block
      → t.load_ok ≡ true
      → t.replies.latest ≡ some latest
      → latest ≡ p.last_processed_block +ℤ pos 1
      → tick cfg chain p t ≡ record { error = none; trace = [] }
  unfolding tick process_chain_batch get_or_create_progress
  head_waits p t latest h loads gives e =
      let s = start_block cfg chain p.last_processed_block latest in
      let bounds = end_block_bounds s (batch_size cfg chain) latest in
      let next = start_block_next cfg chain p.last_processed_block latest h in
      ground (arith, loads, gives, bounds, next, e)
