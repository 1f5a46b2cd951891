-- ===== src/Retry.antt =====
-- internal/utils/retry.go: Retry. An `Attempt` says what happens in one turn of the loop: whether the
-- context is done before the call, whether the call succeeds, and whether the context ends during
-- the wait after it. How long the waits are, which is floating point, does not change the result.
mod Tests
use chain_parse_service.Base.{
  ℕ, zero, suc, ◌≤◌, ◌≡◌, refl, Bool, true, false, if◌then◌else◌, arith, Bool-cases, inl, inr,
}

pub record Attempt : Type 0 where
  pub done_before : Bool
  pub succeeds : Bool
  pub done_waiting : Bool

pub data RetryResult : Type 0 where
  succeeded cancelled all_failed : RetryResult

abbrev later : (ℕ → Attempt) → ℕ → Attempt
later turns i = turns (suc i)

abbrev after_failure : Bool → ℕ × RetryResult → ℕ × RetryResult
after_failure true rest = (1, cancelled)
after_failure false (calls, result) = (suc calls, result)

-- The number of calls of `fn`, and the result, with so many retries left.
unfoldable pub retry : ℕ → (ℕ → Attempt) → ℕ × RetryResult
retry zero turns =
    if (turns 0).done_before
    then (0, cancelled)
    else if (turns 0).succeeds
    then (1, succeeded)
    else (1, all_failed)
retry (suc n) turns =
    let rest = retry n (later turns) in
    if (turns 0).done_before
    then (0, cancelled)
    else if (turns 0).succeeds
    then (1, succeeded)
    else after_failure (turns 0).done_waiting rest

-- The first calls all fail.
abbrev pub AllFail : ℕ → (ℕ → Attempt) → Type 0
AllFail zero turns = Unit
AllFail (suc k) turns = ((turns 0).succeeds ≡ false) × AllFail k (later turns)

abbrev pub Explains : ℕ → (ℕ → Attempt) → ℕ × RetryResult → Type 0
Explains n turns (calls, succeeded) =
    (k : ℕ) × ((calls ≡ suc k) × (k ≤ n) × AllFail k turns × ((turns k).succeeds ≡ true))
Explains n turns (calls, cancelled) = (calls ≤ suc n) × AllFail calls turns
Explains n turns (calls, all_failed) = (calls ≡ suc n) × AllFail calls turns

Explains-after_failure :
    (n : ℕ) (turns : ℕ → Attempt) (b : Bool) (rest : ℕ × RetryResult)
    → (turns 0).succeeds ≡ false
    → Explains n (later turns) rest
    → Explains (suc n) turns (after_failure b rest)
Explains-after_failure n turns true (calls, result) h e = (omega arith, (h, tt))
Explains-after_failure n turns false (calls, succeeded) h (k, (same, le, fail, ok)) =
    (suc k, (omega (arith, same), omega (arith, le), (h, fail), ok))
Explains-after_failure n turns false (calls, cancelled) h (le, fail) =
    (omega (arith, le), (h, fail))
Explains-after_failure n turns false (calls, all_failed) h (same, fail) =
    (omega (arith, same), (h, fail))

-- The tests at the head of a turn; `rest` is what follows a call that failed.
Explains-turn :
    (n : ℕ) (turns : ℕ → Attempt) (done ok : Bool) (rest : ℕ × RetryResult)
    → (turns 0).succeeds ≡ ok
    → (ok ≡ false → Explains n turns rest)
    → Explains n turns (if done then (0, cancelled) else if ok then (1, succeeded) else rest)
Explains-turn n turns true ok rest same e = (omega arith, tt)
Explains-turn n turns false true rest same e = (0, (refl, omega arith, tt, same))
Explains-turn n turns false false rest same e = e refl

-- With n retries, Retry succeeds only if one of the first n + 1 calls succeeds, all before it fail
-- and it is the last one; it reports that all failed only after n + 1 calls that all fail; and it
-- reports a cancelled context only after at most n + 1 calls that all fail.
pub retry-Explains : (n : ℕ) (turns : ℕ → Attempt) → Explains n turns (retry n turns)
unfolding retry
retry-Explains zero turns =
    Explains-turn 0 turns (turns 0).done_before (turns 0).succeeds (1, all_failed) refl
      (λ h. (refl, (h, tt)))
retry-Explains (suc n) turns =
    Explains-turn (suc n) turns (turns 0).done_before (turns 0).succeeds
      (after_failure (turns 0).done_waiting (retry n (later turns))) refl
      (λ h.
        Explains-after_failure n turns (turns 0).done_waiting (retry n (later turns)) h
          (retry-Explains n (later turns)))
