-- ===== src/Tests/Retries.antt =====
-- src/with-retry.ts at small inputs.
use stream_fi_sdk.Base.{
  ℕ, ◌+◌, ◌<◌, ◌≤◌, ◌≡◌, ◌≢◌, ltb, refl, false, none, some, [], ◌∷◌, String, All, length, arith,
  if◌then◌else◌,
}
use stream_fi_sdk.Retry.Jitter.{
  rate_limit, unchanged, decorrelated, is_rate_limit_error, WithRetryOptions, apply_jitter,
}
use stream_fi_sdk.Retry.Loop.{World, Settings, resolves, rejects, done, exhausted, retry_loop}
use stream_fi_sdk.Retry.Waits.{Within, retry_loop-Within}
use stream_fi_sdk.Retry.Schedule.{IsScheduled, retry_loop-IsScheduled}
use stream_fi_sdk.Retry.Attempts.{IsRetried, by_value, Result, retry_loop-first, retry_loop-ends}
use stream_fi_sdk.Circuit.{Circuits}
use stream_fi_sdk.Circuit.Entry.{opened}

-- Two refusals for the rate, then a value; `Math.random()` is 1/2.
abbrev world : World ℕ String
world = record {
  operation = λ n. if ltb n 2 then rejects (rate_limit none) else resolves 7;
  random = λ n. record { num = 1; den = 2 };
  aborted = λ n. false;
  sleep_aborted = λ n. false;
  from_rpc_error = λ e. none;
}

abbrev plain : Settings String
plain = record {
  max_retries = 3;
  base_delay_ms = 500;
  backoff_factor = 2;
  max_delay_ms = 800;
  jitter = unchanged;
  should_retry = is_rate_limit_error;
}

-- The decorrelated strategy can wait longer than the longest delay.
longer : apply_jitter 800 decorrelated 800 (record { num = 9; den = 10 }) ≡ 1440
unfolding apply_jitter
longer = refl

retry_loop-Within_example : All (Within world plain) (retry_loop world plain).retries
retry_loop-Within_example = retry_loop-Within world plain (λ n. omega arith) (λ q. cc q)

retry_loop-IsScheduled_example : All (IsScheduled world plain) (retry_loop world plain).retries
retry_loop-IsScheduled_example =
    retry_loop-IsScheduled world plain refl (omega arith) (λ n e h. ground arith)

world-IsRetried : (i : ℕ) → i < 2 → IsRetried world plain i
world-IsRetried i l = record {
  error = rate_limit none;
  rejected = ground arith;
  retryable = refl;
  running = refl;
  slept = refl;
}

retry_loop-first_example : Result world plain (retry_loop world plain) (done 7) 2
retry_loop-first_example =
    retry_loop-first world plain 2 (done 7) (omega arith) world-IsRetried refl (by_value 7 refl)

retry_loop-ends_example :
    ((retry_loop world plain).reply ≢ exhausted)
    × ((retry_loop world plain).calls ≤ 3 + 1)
    × (length (retry_loop world plain).retries ≤ (retry_loop world plain).calls)
retry_loop-ends_example = retry_loop-ends world plain

abbrev watched : WithRetryOptions String
watched = record {
  max_retries = none;
  base_delay_ms = none;
  backoff_factor = none;
  max_delay_ms = none;
  jitter = none;
  should_retry = none;
  circuit_scope = some "rpc";
}

abbrev one_open : Circuits
one_open = record {
  circuits =
      (
        "rpc",
        record {
          scope = "rpc";
          status = record {
            state = opened;
            failure_count = 2;
            last_failure_at = some 20;
            last_success_at = none;
            cooldown_until = some 120;
          };
        },
      )
      ∷ [];
  listeners = [];
  transition_listeners = [];
  events = [];
}
