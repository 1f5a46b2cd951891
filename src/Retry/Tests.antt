-- ===== src/Retry/Tests.antt =====
-- The theorem on retries at a concrete run.
use chain_parse_service.Base.{ℕ, zero, suc, ◌≡◌, refl, true, false}
use chain_parse_service.Retry.{Attempt, succeeded, retry, Explains, retry-Explains}

abbrev third_succeeds : ℕ → Attempt
third_succeeds (suc (suc zero)) = record {
  done_before = false;
  succeeds = true;
  done_waiting = false;
}
third_succeeds _ = record { done_before = false; succeeds = false; done_waiting = false }

three_calls : retry 3 third_succeeds ≡ (3, succeeded)
unfolding retry
three_calls = refl

retry-Explains_example : Explains 3 third_succeeds (retry 3 third_succeeds)
retry-Explains_example = retry-Explains 3 third_succeeds
