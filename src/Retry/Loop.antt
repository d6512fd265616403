-- ===== src/Retry/Loop.antt =====
-- src/with-retry.ts: the loop over the attempts, and `withRetry` with the tests before it. The
-- loop has fuel for one attempt more than the retries; running out of it is the `throw` after the
-- loop.
use stream_fi_sdk.Base.{
  ℕ, zero, suc, ◌+◌, ◌*◌, min, Bool, not, ◌||◌, Option, none, some, List, [], ◌∷◌, String, ◌==◌,
  if◌then◌else◌,
}
use stream_fi_sdk.Circuit.Entry.{CircuitStatus, opened, same_state}
use stream_fi_sdk.Circuit.Record.{get_or}
use stream_fi_sdk.Circuit.{Circuits, get_circuit_state}
use stream_fi_sdk.Retry.Jitter.{
  Strategy, full, RpcError, WithRetryOptions, is_rate_limit_error, retry_after_ms, Draw,
  apply_jitter,
}

pub data Attempt (T X : Type 0) : Type 0 where
  resolves : T → Attempt T X
  rejects : RpcError X → Attempt T X

-- What attempt `n` of a run meets, and `RateLimitError.fromRpcError`.
pub record World (T X : Type 0) : Type 0 where
  pub operation : ℕ → Attempt T X
  pub random : ℕ → Draw
  pub aborted : ℕ → Bool
  pub sleep_aborted : ℕ → Bool
  pub from_rpc_error : RpcError X → Option (RpcError X)

-- The options with their defaults filled in.
pub record Settings (X : Type 0) : Type 0 where
  pub max_retries : ℕ
  pub base_delay_ms : ℕ
  pub backoff_factor : ℕ
  pub max_delay_ms : ℕ
  pub jitter : Strategy
  pub should_retry : RpcError X → Bool

-- The argument of `onRetry`.
pub record RetryInfo (X : Type 0) : Type 0 where
  pub attempt : ℕ
  pub delay_ms : ℕ
  pub error : RpcError X

pub data Reply (T X : Type 0) : Type 0 where
  done : T → Reply T X
  failed : RpcError X → Reply T X
  aborted_first aborted_loop aborted_sleep exhausted : Reply T X
  circuit_open : String → Option ℕ → Reply T X

-- The reply, the calls of `onRetry` in order, and the number of calls of the operation.
pub record Run (T X : Type 0) : Type 0 where
  pub reply : Reply T X
  pub retries : List (RetryInfo X)
  pub calls : ℕ

abbrev pub settings : {X : Type 0} → WithRetryOptions X → Settings X
settings options = record {
  max_retries = get_or options.max_retries 3;
  base_delay_ms = get_or options.base_delay_ms 500;
  backoff_factor = get_or options.backoff_factor 2;
  max_delay_ms = get_or options.max_delay_ms 30000;
  jitter = get_or options.jitter full;
  should_retry = get_or options.should_retry is_rate_limit_error;
}

module _ {T X : Type 0} where
  abbrev pub stop : Reply T X → ℕ → Run T X
  stop reply calls = record { reply = reply; retries = []; calls = calls }

  abbrev pub retried : RetryInfo X → Run T X → Run T X
  retried info rest = record {
    reply = rest.reply;
    retries = info ∷ rest.retries;
    calls = rest.calls + 1;
  }

  module _ (w : World T X) (s : Settings X) where
    abbrev pub classify : RpcError X → RpcError X
    classify err = get_or (w.from_rpc_error err) err

    unfoldable pub wait_time : ℕ → ℕ → ℕ → RpcError X → ℕ
    wait_time attempt delay prev_delay classified =
        apply_jitter (min (get_or (retry_after_ms classified) delay) s.max_delay_ms) s.jitter
          prev_delay (w.random attempt)

    unfoldable pub gives_up : ℕ → RpcError X → Bool
    gives_up attempt classified = (attempt == s.max_retries) || not (s.should_retry classified)

    -- One attempt; `rest` is the loop from the next one, with its `delay` and `prevDelay`.
    unfoldable pub on_attempt : ℕ → ℕ → ℕ → Attempt T X → (ℕ → ℕ → Run T X) → Run T X
    on_attempt attempt delay prev_delay (resolves t) rest = stop (done t) 1
    on_attempt attempt delay prev_delay (rejects err) rest =
        let classified = classify err in
        let waited = wait_time attempt delay prev_delay classified in
        let info : RetryInfo X = record {
          attempt = attempt + 1;
          delay_ms = waited;
          error = classified;
        } in
        if gives_up attempt classified
        then stop (failed classified) 1
        else retried info (
            if w.sleep_aborted attempt
            then stop aborted_sleep 0
            else rest (min (delay * s.backoff_factor) s.max_delay_ms) waited)

    unfoldable pub retry_from : ℕ → ℕ → ℕ → ℕ → Run T X
    retry_from zero attempt delay prev_delay = stop exhausted 0
    retry_from (suc fuel) attempt delay prev_delay =
        let rest = retry_from fuel (attempt + 1) in
        if w.aborted attempt
        then stop aborted_loop 0
        else on_attempt attempt delay prev_delay (w.operation attempt) rest

    unfoldable pub retry_loop : Run T X
    retry_loop = retry_from (s.max_retries + 1) 0 s.base_delay_ms s.base_delay_ms

  abbrev pub past_circuit : String → CircuitStatus → Run T X → Run T X
  past_circuit scope circuit run =
      if same_state circuit.state opened
      then stop (circuit_open scope circuit.cooldown_until) 0
      else run

  unfoldable pub consult : Option String → Circuits → ℕ → Run T X → Circuits × Run T X
  consult none c now run = (c, run)
  consult (some scope) c now run =
      let (c', circuit) = get_circuit_state c scope now in (c', past_circuit scope circuit run)

  unfoldable pub with_retry :
      World T X → WithRetryOptions X → Bool → Circuits → ℕ → Circuits × Run T X
  with_retry w options aborted c now =
      if aborted
      then (c, stop aborted_first 0)
      else consult options.circuit_scope c now (retry_loop w (settings options))
