-- ===== src/Progress/Tests.antt =====
-- A tracker with two chains; its rates are whole numbers.
use chain_parse_service.Base.{ℕ, ◌+◌, ◌*◌, ◌/◌, ◌≡◌, some, List, [], ◌∷◌, select}
use chain_parse_service.Base.Dict.{lookup}
use chain_parse_service.Base.Int.{pos, pos_part, ◌-ℤ◌}
use chain_parse_service.Types.{ProcessProgress, ProcessingStatus}
use chain_parse_service.Progress.Records.{Rates, ProcessingMetrics}
use chain_parse_service.Progress.{or_nil}
use chain_parse_service.Progress.History.{get_error_history, after}
use chain_parse_service.Progress.Report.{get_performance_metrics}
use chain_parse_service.Progress.Calls.{Call, from_new}
use chain_parse_service.Progress.Sums.{IsValid}
use chain_parse_service.Progress.Invariant.{from_new-IsValid}
use chain_parse_service.Progress.Recent.{logged, newest, newest_limited, get_error_history-logged}
use chain_parse_service.Progress.Averages.{IsBounded, get_performance_metrics_bounds}

abbrev rates : Rates
rates = record {
  Float = ℕ;
  zero = 0;
  hundred = 100;
  percent = λ a b. pos_part a * 100 / b;
  add = λ a b. a + b;
  over = λ x n. x / n;
  per_second = λ n d. n / pos_part d;
}

abbrev progress : ℕ → ProcessProgress ℕ
progress n = record {
  chain_type = "";
  last_processed_block = pos 7;
  last_update_time = 0;
  total_transactions = n;
  total_events = 2;
  processing_status = ProcessingStatus.running;
  start_time = 1;
  last_error_time = 0;
  error_count = 0;
  success_rate = 0;
}

abbrev metrics : ℕ → ProcessingMetrics ℕ
metrics time = record {
  chain_type = "";
  timestamp = 0;
  processing_time = time;
  transaction_count = 1;
  event_count = 1;
  memory_usage = 5;
  cpu_usage = 1;
}

abbrev calls : List (Call ℕ)
calls =
    Call.update "bsc" (some (progress 10)) 20
    ∷ Call.set_status "sui" ProcessingStatus.paused 21
    ∷ Call.note_error "bsc" (some (record { error_type = "rpc"; error_msg = "down" })) 22
    ∷ Call.note_metrics "bsc" (some (metrics 30)) 23
    ∷ Call.note_metrics "bsc" (some (metrics 11)) 24
    ∷ []

from_new-IsValid_example : IsValid (from_new rates 0 calls)
from_new-IsValid_example = from_new-IsValid rates 0 calls

get_error_history-logged_example :
    get_error_history rates (from_new rates 0 calls) "bsc" (pos 5)
    ≡ newest_limited (pos 5) (newest 1000 (logged "bsc" [] calls))
get_error_history-logged_example =
    get_error_history-logged rates 0 calls "bsc" (pos 5) (tt, (tt, (tt, (tt, (tt, tt)))))

get_performance_metrics_bounds_example :
    IsBounded (get_performance_metrics rates (from_new rates 0 calls) "bsc" (pos 10) 25) (
      select
        (λ x. after (pos 25 -ℤ pos 10) x.timestamp)
        (or_nil (lookup "bsc" (from_new rates 0 calls).metrics)))
get_performance_metrics_bounds_example =
    get_performance_metrics_bounds rates (from_new rates 0 calls) "bsc" (pos 10) 25
