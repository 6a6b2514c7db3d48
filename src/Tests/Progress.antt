-- ===== src/Tests/Progress.antt =====
-- Equal batches in a row, and the delay before a request is tried again.
use proofcoder.Base.{ℕ, ◌≡◌, refl, ◌≤◌, min, true, false, none, some, [], ◌∷◌}
use proofcoder.Base.Int.{pos}
use proofcoder.Base.Result.{ok}
use proofcoder.Errors.{LlmRequestError, rate_limit}
use proofcoder.Retry.{retry_delay_seconds, delay_bounds}
use proofcoder.Progress.{
  observe, observation_of, reset, count_fingerprint, after, unmodified, modified, streak, run_of,
  observe-after, NoProgressTracker,
}

tracked : NoProgressTracker
unfolding observe observation_of reset count_fingerprint after streak run_of
tracked = after (unmodified "a" ∷ unmodified "a" ∷ modified ∷ unmodified "a" ∷ [])

third :
    observe (ok "a") false (after (unmodified "a" ∷ unmodified "a" ∷ modified ∷ []))
    ≡ ok (
      record { fingerprint = some "a"; repeats = 3 },
      record { repeat_count = 3; warn = false; terminate = true },
    )
unfolding tracked
third = refl

observe-after_example :
    observe (ok "a") false (after (unmodified "a" ∷ unmodified "a" ∷ modified ∷ []))
    ≡ ok (
      record { fingerprint = some "a"; repeats = 3 },
      record { repeat_count = 3; warn = false; terminate = true },
    )
unfolding tracked
observe-after_example = observe-after "a" false (unmodified "a" ∷ unmodified "a" ∷ modified ∷ [])

-- The provider asks for 20 seconds.
abbrev limited : LlmRequestError
limited = record {
  message = "slow down";
  category = rate_limit;
  status_code = some 429;
  retry_after_seconds = some (pos 1600);
  request_id = none;
}

delay_bounds_example :
    (40 ≤ 1600)
    × (1600 ≤ 2400)
    × (limited.retry_after_seconds ≡ none → 1600 ≤ 800)
    × ((after : ℕ) → limited.retry_after_seconds ≡ some (pos after) → min after 2400 ≤ 1600)
unfolding retry_delay_seconds
delay_bounds_example = delay_bounds 10 limited 2 5 refl
