-- ===== src/Retry/Waits.antt =====
-- src/with-retry.ts: how long the waits between the attempts are.
use stream_fi_sdk.Base.{
  ℕ, zero, suc, ◌+◌, ◌*◌, ◌/◌, ◌≤◌, ◌<◌, min, All, refl, ◌≢◌, arith, Bool-cases, inl, inr,
}
use native.Mathlib.Nat.{div-lt_iff_lt-mul, mul-lt-mul_of_pos_right, mul-le-mul_right}
use stream_fi_sdk.Circuit.Record.{get_or}
use stream_fi_sdk.Retry.Jitter.{
  Strategy, unchanged, full, equal, decorrelated, RpcError, retry_after_ms, Draw, apply_jitter,
}
use stream_fi_sdk.Retry.Loop.{
  World, Settings, RetryInfo, Run, Attempt, resolves, rejects, classify, gives_up, wait_time,
  on_attempt, retry_from, retry_loop,
}

-- `Math.random()` is below 1.
abbrev pub IsFraction : Draw → Type 0
IsFraction r = r.num < r.den

quotient-le : (a b n : ℕ) → 0 < n → a < (b + 1) * n → a / n ≤ b
quotient-le a b n p h = let below : a / n < b + 1 = (div-lt_iff_lt-mul p).1 h in omega arith

-- Every strategy but the decorrelated one keeps within the delay it is given.
apply_jitter-le :
    (delay_ms : ℕ) (strategy : Strategy) (prev_delay_ms : ℕ) (r : Draw)
    → IsFraction r
    → strategy ≢ decorrelated
    → apply_jitter delay_ms strategy prev_delay_ms r ≤ delay_ms
unfolding apply_jitter
apply_jitter-le d full prev r f n =
    let scaled : r.num * (d + 1) < r.den * (d + 1) = mul-lt-mul_of_pos_right f (omega arith) in
    quotient-le (r.num * (d + 1)) d r.den (omega arith) (grind (arith, scaled))
apply_jitter-le d equal prev r f n =
    let scaled : r.num * d ≤ r.den * d = mul-le-mul_right d (omega arith) in
    quotient-le (d * r.den + r.num * d) d (2 * r.den) (omega arith) (grind (arith, scaled))
apply_jitter-le d decorrelated prev r f n = absurd (n refl)
apply_jitter-le d unchanged prev r f n = omega arith

module _ {T X : Type 0} (w : World T X) (s : Settings X) where
  -- Every draw is a fraction.
  abbrev pub IsFair : Type 0
  IsFair = (n : ℕ) → IsFraction (w.random n)

  abbrev pub Within : RetryInfo X → Type 0
  Within info = info.delay_ms ≤ s.max_delay_ms

  wait_time-le :
      (attempt delay prev_delay : ℕ) (e : RpcError X)
      → IsFair
      → s.jitter ≢ decorrelated
      → wait_time w s attempt delay prev_delay e ≤ s.max_delay_ms
  unfolding wait_time
  wait_time-le attempt delay prev_delay e f n = omega (
    arith,
    apply_jitter-le (min (get_or (retry_after_ms e) delay) s.max_delay_ms) s.jitter prev_delay
        (w.random attempt) (f attempt) n,
  )

  on_attempt-Within :
      (attempt delay prev_delay : ℕ) (a : Attempt T X) (rest : ℕ → ℕ → Run T X)
      → IsFair
      → s.jitter ≢ decorrelated
      → ((d p : ℕ) → All Within (rest d p).retries)
      → All Within (on_attempt w s attempt delay prev_delay a rest).retries
  unfolding on_attempt
  on_attempt-Within attempt delay prev_delay (resolves t) rest f n h = tt
  on_attempt-Within attempt delay prev_delay (rejects err) rest f n h =
      elim (Bool-cases (gives_up w s attempt (classify w s err))) [
        | inl g ↦ rw g tt
        | inr g ↦ elim (Bool-cases (w.sleep_aborted attempt)) [
          | inl a ↦ rw (g, a) (waited, tt)
          | inr a ↦ rw (g, a) (waited, h _ _)
        ]
      ]
    where
      waited : wait_time w s attempt delay prev_delay (classify w s err) ≤ s.max_delay_ms
      waited = wait_time-le attempt delay prev_delay (classify w s err) f n

  retry_from-Within :
      (fuel attempt delay prev_delay : ℕ)
      → IsFair
      → s.jitter ≢ decorrelated
      → All Within (retry_from w s fuel attempt delay prev_delay).retries
  unfolding retry_from
  retry_from-Within zero attempt delay prev_delay f n = tt
  retry_from-Within (suc fuel) attempt delay prev_delay f n =
      elim (Bool-cases (w.aborted attempt)) [
        | inl h ↦ rw h tt
        | inr h ↦ rw h (
            on_attempt-Within attempt delay prev_delay (w.operation attempt)
              (retry_from w s fuel (attempt + 1)) f n
              (λ d p. retry_from-Within fuel (attempt + 1) d p f n))
      ]

  -- With any strategy but the decorrelated one, and draws that are fractions below 1, no wait of a run
  -- is longer than the option allows.
  pub retry_loop-Within : IsFair → s.jitter ≢ decorrelated → All Within (retry_loop w s).retries
  unfolding retry_loop
  retry_loop-Within f n =
      retry_from-Within (s.max_retries + 1) 0 s.base_delay_ms s.base_delay_ms f n
