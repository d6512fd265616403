-- ===== src/Retry/Scope.antt =====
-- src/with-retry.ts: what `withRetry` tests before its loop.
use stream_fi_sdk.Base.{ℕ, false, some, ◌≡◌, refl, String, []}
use stream_fi_sdk.Circuit.Entry.{opened, is_due}
use stream_fi_sdk.Circuit.{Circuits}
use stream_fi_sdk.Circuit.Laws.{status_at, get_circuit_state_early}
use stream_fi_sdk.Retry.Jitter.{WithRetryOptions}
use stream_fi_sdk.Retry.Loop.{World, circuit_open, consult, past_circuit, with_retry}

module _ {T X : Type 0} (w : World T X) (options : WithRetryOptions X) (c : Circuits)
    (now : ℕ) where
  -- While the circuit of the scope in the options is open and not yet due, a run that is not aborted
  -- ends at once with the deadline: the operation is not called, nothing waits, and no circuit changes.
  pub with_retry_refused :
      (scope : String)
      → options.circuit_scope ≡ some scope
      → (status_at c scope).state ≡ opened
      → is_due now (status_at c scope) ≡ false
      → with_retry w options false c now ≡ (
        c,
        record {
          reply = circuit_open scope (status_at c scope).cooldown_until;
          retries = [];
          calls = 0;
        },
      )
  unfolding with_retry consult
  with_retry_refused scope o h early =
      rw (o, consult, get_circuit_state_early c scope now early, past_circuit, h) refl
