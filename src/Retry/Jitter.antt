-- ===== src/Retry/Jitter.antt =====
-- src/with-retry.ts: the options, the errors that it tells apart, and `applyJitter`.
use stream_fi_sdk.Base.{ℕ, ◌+◌, ◌*◌, ◌/◌, max, Bool, true, false, Option, none, String}

pub data Strategy : Type 0 where
  unchanged full equal decorrelated : Strategy

-- The error classes that the module distinguishes; a `RateLimitError` has its `retryAfterMs`.
pub data RpcError (X : Type 0) : Type 0 where
  rate_limit : Option ℕ → RpcError X
  network service_unavailable : RpcError X
  other_error : X → RpcError X

pub record WithRetryOptions (X : Type 0) : Type 0 where
  pub max_retries : Option ℕ
  pub base_delay_ms : Option ℕ
  pub backoff_factor : Option ℕ
  pub max_delay_ms : Option ℕ
  pub jitter : Option Strategy
  pub should_retry : Option (RpcError X → Bool)
  pub circuit_scope : Option String

module _ {X : Type 0} where
  abbrev pub is_rate_limit_error : RpcError X → Bool
  is_rate_limit_error (rate_limit t) = true
  is_rate_limit_error _ = false

  abbrev pub is_transient_rpc_error : RpcError X → Bool
  is_transient_rpc_error (rate_limit t) = true
  is_transient_rpc_error network = true
  is_transient_rpc_error service_unavailable = true
  is_transient_rpc_error (other_error x) = false

  abbrev pub retry_after_ms : RpcError X → Option ℕ
  retry_after_ms (rate_limit t) = t
  retry_after_ms _ = none

-- `Math.random()` is `num / den`.
pub record Draw : Type 0 where
  pub num : ℕ
  pub den : ℕ

-- `Math.floor` of a quotient is the quotient of naturals: in `equal` the fraction
-- `half + random * half` has the denominator `2 * den`.
unfoldable pub apply_jitter : ℕ → Strategy → ℕ → Draw → ℕ
apply_jitter delay_ms full prev_delay_ms r = r.num * (delay_ms + 1) / r.den
apply_jitter delay_ms equal prev_delay_ms r = (delay_ms * r.den + r.num * delay_ms) / (2 * r.den)
apply_jitter delay_ms decorrelated prev_delay_ms r =
    r.num * (max delay_ms (prev_delay_ms * 2) + 1) / r.den
apply_jitter delay_ms unchanged prev_delay_ms r = delay_ms
