-- ===== src/Retry/Tests.antt =====
-- Witnesses for retrying: a call that fails once and then returns its attempt.
use solana_snake_arena.Base.{ℕ, ◌≡◌, refl, Bool, true, false, arith, ltb, if◌then◌else◌}
use solana_snake_arena.Retry.{Result, done, threw, RetryOptions, with_retry}
use solana_snake_arena.Retry.Attempts.{count_from, with_retry-done}

abbrev options : RetryOptions Bool
options = record {
  max_attempts = 4;
  aborted = λ attempt. false;
  should_retry = λ e. e;
  backoff = λ attempt. 300;
  to_service_error = λ e. e;
  abort_error = false;
}

abbrev flaky : ℕ → Result Bool ℕ
flaky attempt = if ltb attempt 2 then threw true else done attempt

with_retry-done_example :
    ((with_retry options flaky false).result ≡ done 2)
    × ((with_retry options flaky false).attempts ≡ count_from 2 1)
with_retry-done_example = with_retry-done options flaky false 1 2 (omega arith) refl refl refl
