-- ===== src/Retry/Schedule.antt =====
-- src/with-retry.ts: the waits when neither jitter nor a `Retry-After` changes them.
use stream_fi_sdk.Base.{
  ℕ, zero, suc, ◌+◌, ◌-◌, ◌*◌, ◌^◌, ◌≤◌, ◌<◌, min, none, All, ◌≡◌, refl, sym, arith, Bool-cases,
  inl, inr,
}
use native.Mathlib.Nat.{le-mul_of_pos_right, pow-zero, pow-suc, mul-one, mul_assoc}
use native.Mathlib.Decide.{dec_le}
use stream_fi_sdk.Retry.Jitter.{unchanged, RpcError, retry_after_ms, apply_jitter}
use stream_fi_sdk.Retry.Loop.{
  World, Settings, RetryInfo, Run, Attempt, resolves, rejects, classify, gives_up, wait_time,
  on_attempt, retry_from, retry_loop,
}

min-scale : (a b f m : ℕ) → 0 < f → min a m ≡ min b m → min (min (a * f) m) m ≡ min (b * f) m
min-scale a b f m p h = elim (dec_le m a) [
  | yes l ↦
      let grown : a ≤ a * f = le-mul_of_pos_right a p in
      let grown' : b ≤ b * f = le-mul_of_pos_right b p in omega (arith, grown, grown')
  | no n ↦ let same : a ≡ b = omega arith in rw same (omega arith)
]

module _ {T X : Type 0} (w : World T X) (s : Settings X) where
  -- No error that an attempt meets has a `Retry-After`.
  abbrev pub HasNoRetryAfter : Type 0
  HasNoRetryAfter =
      (n : ℕ) (e : RpcError X) → w.operation n ≡ rejects e → retry_after_ms (classify w s e) ≡ none

  -- The delay before retry `n + 1`.
  abbrev pub backoff : ℕ → ℕ
  backoff n = min (s.base_delay_ms * s.backoff_factor ^ n) s.max_delay_ms

  abbrev pub IsScheduled : RetryInfo X → Type 0
  IsScheduled info = (0 < info.attempt) × (info.delay_ms ≡ backoff (info.attempt - 1))

  backoff-suc :
      (n d : ℕ)
      → 0 < s.backoff_factor
      → min d s.max_delay_ms ≡ backoff n
      → min (min (d * s.backoff_factor) s.max_delay_ms) s.max_delay_ms ≡ backoff (n + 1)
  backoff-suc n d p h =
      let next : s.backoff_factor ^ (n + 1) ≡ s.backoff_factor ^ n * s.backoff_factor =
        let one_more : n + 1 ≡ suc n = omega arith in rw one_more (pow-suc s.backoff_factor n) in
      let regrouped = mul_assoc s.base_delay_ms (s.backoff_factor ^ n) s.backoff_factor in
      rw (next, sym regrouped)
        (min-scale d (s.base_delay_ms * s.backoff_factor ^ n) s.backoff_factor s.max_delay_ms p h)

  on_attempt-IsScheduled :
      (n delay prev_delay : ℕ) (a : Attempt T X) (rest : ℕ → ℕ → Run T X)
      → s.jitter ≡ unchanged
      → ((e : RpcError X) → a ≡ rejects e → retry_after_ms (classify w s e) ≡ none)
      → min delay s.max_delay_ms ≡ backoff n
      → ((p : ℕ) → All IsScheduled (rest (min (delay * s.backoff_factor) s.max_delay_ms) p).retries)
      → All IsScheduled (on_attempt w s n delay prev_delay a rest).retries
  unfolding on_attempt
  on_attempt-IsScheduled n d p (resolves t) rest j q h r = tt
  on_attempt-IsScheduled n d p (rejects err) rest j q h r =
      elim (Bool-cases (gives_up w s n (classify w s err))) [
        | inl g ↦ rw g tt
        | inr g ↦ elim (Bool-cases (w.sleep_aborted n)) [
          | inl a ↦ rw (g, a) (scheduled, tt)
          | inr a ↦ rw (g, a) (scheduled, r _)
        ]
      ]
    where
      waits : wait_time w s n d p (classify w s err) ≡ backoff n
      waits = unfold wait_time apply_jitter in rw (q err refl, j) h

      scheduled : (0 < n + 1) × (wait_time w s n d p (classify w s err) ≡ backoff (n + 1 - 1))
      scheduled = let same : n + 1 - 1 ≡ n = omega arith in (omega arith, rw same waits)

  retry_from-IsScheduled :
      (fuel n delay prev_delay : ℕ)
      → s.jitter ≡ unchanged
      → 0 < s.backoff_factor
      → HasNoRetryAfter
      → min delay s.max_delay_ms ≡ backoff n
      → All IsScheduled (retry_from w s fuel n delay prev_delay).retries
  unfolding retry_from
  retry_from-IsScheduled zero n d p j f q h = tt
  retry_from-IsScheduled (suc fuel) n d p j f q h = elim (Bool-cases (w.aborted n)) [
    | inl a ↦ rw a tt
    | inr a ↦ rw a (
        on_attempt-IsScheduled n d p (w.operation n) (retry_from w s fuel (n + 1)) j (q n) h
          (λ p'. retry_from-IsScheduled fuel (n + 1) _ p' j f q (backoff-suc n d f h)))
  ]

  -- Without jitter, with a positive factor and without a `Retry-After`, the wait before retry `n + 1` is the base delay
  -- times the factor to the power `n`, or the longest delay allowed if that is less.
  pub retry_loop-IsScheduled :
      s.jitter ≡ unchanged
      → 0 < s.backoff_factor
      → HasNoRetryAfter
      → All IsScheduled (retry_loop w s).retries
  unfolding retry_loop
  retry_loop-IsScheduled j f q =
      retry_from-IsScheduled (s.max_retries + 1) 0 s.base_delay_ms s.base_delay_ms j f q
        (rw (pow-zero s.backoff_factor, mul-one s.base_delay_ms))
