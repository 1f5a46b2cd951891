-- ===== src/Fallback/Tests.antt =====
-- Runs of the fallback tracker, and its theorems at concrete inputs.
use chain_parse_service.Base.{
  ℕ, ◌≡◌, refl, ◌<◌, ◌+◌, true, some, [], ◌∷◌, List, arith, length, ne_of_str_eq,
}
use chain_parse_service.Fallback.{
  FallbackProgressTracker, Update, primary_store, secondary_store, new_fallback_progress_tracker,
  update_progress, updates, get_progress,
}
use chain_parse_service.Fallback.Sync.{lag, both_ok, lag-updates, in_turn, lag-in_turn}
use chain_parse_service.Fallback.Recovery.{
  Taken, update_progress-Taken, latest, after_outage, get_progress_stale,
}

abbrev every_second : FallbackProgressTracker
every_second = record { sync_interval = 2; update_count = 0; primary_healthy = true }

default_interval : (new_fallback_progress_tracker 0).sync_interval ≡ 10
unfolding new_fallback_progress_tracker
default_interval = refl

abbrev block_update : ℕ → Update ℕ
block_update n = record { chain = "ethereum"; progress = n; answers = both_ok }

abbrev nine : ℕ
nine = 9

abbrev two_rounds : List (ℕ × ℕ)
two_rounds = (1, 7) ∷ (2, 8) ∷ []

abbrev three_updates : List (Update ℕ)
three_updates = block_update 1 ∷ block_update 2 ∷ block_update 3 ∷ []

one_behind : lag "ethereum" 0 (updates every_second three_updates).1 ≡ 1
unfolding lag updates update_progress
one_behind = refl

lag-updates_example : lag "ethereum" 0 (updates every_second three_updates).1 < 2
lag-updates_example =
    lag-updates every_second three_updates "ethereum" 0 (omega arith) (omega arith)
      ((refl, refl), ((refl, refl), ((refl, refl), tt))) (omega arith)

lag-in_turn_example :
    lag "ethereum" 0 (updates every_second (in_turn "ethereum" "bsc" two_rounds)).1
    ≡ 0 + length two_rounds
lag-in_turn_example =
    lag-in_turn every_second 1 "ethereum" "bsc" 0 two_rounds refl refl (omega arith) refl
      (omega arith) (ne_of_str_eq "ethereum" "bsc" refl)

update_progress-Taken_example :
    Taken (block_update 4) (update_progress every_second (block_update 4))
update_progress-Taken_example = update_progress-Taken every_second (block_update 4)

get_progress_stale_example :
    (latest {P = ℕ} secondary_store "bsc" (some 5) (after_outage every_second "bsc" nine).1
      ≡ some nine)
    × ((get_progress (after_outage every_second "bsc" nine).0 (record {
      primary =
          latest {P = ℕ} primary_store "bsc" (some 5) (after_outage every_second "bsc" nine).1;
      secondary =
          latest {P = ℕ} secondary_store "bsc" (some 5) (after_outage every_second "bsc" nine).1;
    })).1
        ≡ some 5)
get_progress_stale_example = get_progress_stale every_second "bsc" 5 nine
