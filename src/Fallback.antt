-- ===== src/Fallback.antt =====
-- internal/storage/progress/fallback/fallback_progress.go: the progress tracker that prefers a
-- primary store (Redis) and falls back to a secondary one (the database). What the stores answer to
-- a call is an argument; `none` and `false` are errors.
pub mod Sync
pub mod Recovery
mod Tests
use chain_parse_service.Base.{
  ℕ, String, ◌+◌, ◌%◌, ◌^◌, ◌≡◌, Bool, true, false, ◌&&◌, ◌||◌, Option, none, some, List, [], ◌∷◌,
  ◌++◌, if◌then◌else◌, ◌==◌,
}

pub record FallbackProgressTracker : Type 0 where
  pub sync_interval : ℕ
  pub update_count : ℕ
  pub primary_healthy : Bool

-- A `syncInterval` of 0 is 10.
unfoldable pub new_fallback_progress_tracker : ℕ → FallbackProgressTracker
new_fallback_progress_tracker n = record {
  sync_interval = if n == 0 then 10 else n;
  update_count = 0;
  primary_healthy = true;
}

unfoldable pub mark_primary : FallbackProgressTracker → Bool → FallbackProgressTracker
mark_primary f healthy = record f { primary_healthy = healthy }

-- What the two stores answer to one call.
pub record Answers {ℓ} (A : Type ℓ) : Type ℓ where
  pub primary : A
  pub secondary : A

-- GetAllProgress, GetProcessingStats, GetGlobalStats, GetProcessingStatus, GetErrorHistory and
-- GetPerformanceMetrics have this body.
module _ {ℓ} {A : Type ℓ} where
  abbrev read_primary :
      FallbackProgressTracker → Option A → Option A → FallbackProgressTracker × Option A
  read_primary f (some a) fallback = (f, some a)
  read_primary f none fallback = (mark_primary f false, fallback)

  unfoldable pub read :
      FallbackProgressTracker → Answers (Option A) → FallbackProgressTracker × Option A
  unfolding mark_primary
  read f r = if f.primary_healthy then read_primary f r.primary r.secondary else (f, r.secondary)

  abbrev get_primary :
      FallbackProgressTracker → Option A → Option A → FallbackProgressTracker × Option A
  get_primary f (some a) fallback = (mark_primary f true, some a)
  get_primary f none fallback = (mark_primary f false, fallback)

  unfoldable pub get_progress :
      FallbackProgressTracker → Answers (Option A) → FallbackProgressTracker × Option A
  unfolding mark_primary
  get_progress f r =
      if f.primary_healthy then get_primary f r.primary r.secondary else (f, r.secondary)

-- UpdateMultipleProgress, SetProcessingStatus, ClearErrorHistory and RecordProcessingMetrics have
-- this body: the result is that of the secondary store.
unfoldable pub write_both : FallbackProgressTracker → Answers Bool → FallbackProgressTracker × Bool
unfolding mark_primary
write_both f r = (if f.primary_healthy then mark_primary f r.primary else f, r.secondary)

unfoldable pub record_error :
    FallbackProgressTracker → Answers Bool → FallbackProgressTracker × Bool
unfolding mark_primary
record_error f r = (if f.primary_healthy then mark_primary f r.primary else f, true)

unfoldable pub reset_progress :
    FallbackProgressTracker → Answers Bool → FallbackProgressTracker × Bool
reset_progress f r = (f, r.secondary)

unfoldable pub fallback_cleanup :
    FallbackProgressTracker → Answers Bool → FallbackProgressTracker × Bool
fallback_cleanup f r = (f, r.secondary)

unfoldable pub health_check :
    FallbackProgressTracker → Answers Bool → FallbackProgressTracker × Bool
unfolding mark_primary
health_check f r = (mark_primary f r.primary, r.primary || r.secondary)

-- One tick of the loop of StartHealthCheck, for a primary that has a HealthCheck.
unfoldable pub probe : FallbackProgressTracker → Bool → FallbackProgressTracker
unfolding mark_primary
probe f ok = mark_primary f ok

-- A write that a store has taken.
pub data Store : Type 0 where
  primary_store secondary_store : Store

pub record Write (P : Type 0) : Type 0 where
  pub store : Store
  pub chain : String
  pub progress : P

pub record Update (P : Type 0) : Type 0 where
  pub chain : String
  pub progress : P
  pub answers : Answers Bool

abbrev pub counted : FallbackProgressTracker → FallbackProgressTracker
counted f = record f { update_count = (f.update_count + 1) % 2 ^ 64 }

-- The results are the tracker, the writes that were taken, and whether the call returned nil.
module _ {P : Type 0} where
  abbrev pub written : Bool → Store → Update P → List (Write P)
  written false s c = []
  written true s c = record { store = s; chain = c.chain; progress = c.progress } ∷ []

  abbrev pub to_secondary :
      FallbackProgressTracker → Update P → FallbackProgressTracker × List (Write P) × Bool
  to_secondary f c = (f, written c.answers.secondary secondary_store c, c.answers.secondary)

  abbrev pub synced : FallbackProgressTracker → Update P → List (Write P)
  synced f c =
      written (f.update_count % f.sync_interval == 0 && c.answers.secondary) secondary_store c

  abbrev pub on_counted :
      FallbackProgressTracker → Update P → FallbackProgressTracker × List (Write P) × Bool
  on_counted f c =
      if f.primary_healthy
      then (if c.answers.primary
          then (mark_primary f true, written true primary_store c ++ synced f c, true)
          else to_secondary (mark_primary f false) c)
      else to_secondary f c

  unfoldable pub update_progress :
      FallbackProgressTracker → Update P → FallbackProgressTracker × List (Write P) × Bool
  unfolding mark_primary
  update_progress f c = on_counted (counted f) c

  -- A sequence of calls of UpdateProgress: the tracker at the end and all writes taken.
  unfoldable pub updates :
      FallbackProgressTracker → List (Update P) → FallbackProgressTracker × List (Write P)
  updates f [] = (f, [])
  updates f (c ∷ cs) =
      let (f', ws, ok) = update_progress f c in let (f'', more) = updates f' cs in (f'', ws ++ more)
