-- ===== src/Retry/Attempts.antt =====
-- src/with-retry.ts: how often the operation runs and which of its results is returned.
use stream_fi_sdk.Base.{
  ℕ, zero, suc, ◌+◌, ◌≤◌, ◌<◌, true, false, ◌≡◌, refl, ◌≢◌, sym, subst, ◌⊎◌, length, arith,
  Bool-cases, inl, inr,
}
use stream_fi_sdk.Retry.Jitter.{RpcError}
use stream_fi_sdk.Retry.Loop.{
  World, Settings, Run, Reply, done, failed, Attempt, resolves, rejects, exhausted, classify,
  gives_up, on_attempt, retry_from, retry_loop,
}

module _ {T X : Type 0} (w : World T X) (s : Settings X) where
  -- Attempt `n` rejects with an error that is retried, and nothing aborts it.
  pub record IsRetried (n : ℕ) : Type 0 where
    pub error : RpcError X
    pub rejected : w.operation n ≡ rejects error
    pub retryable : s.should_retry (classify w s error) ≡ true
    pub running : w.aborted n ≡ false
    pub slept : w.sleep_aborted n ≡ false

  -- Attempt `n` ends the run with the reply: a value, an error that is not retried, or any error
  -- when no retry is left.
  pub data Ends (n : ℕ) : Reply T X → Type 0 where
    by_value : (t : T) → w.operation n ≡ resolves t → Ends n (done t)
    by_error :
        (e : RpcError X)
        → w.operation n ≡ rejects e
        → (n ≡ s.max_retries) ⊎ (s.should_retry (classify w s e) ≡ false)
        → Ends n (failed (classify w s e))

  abbrev pub Result : Run T X → Reply T X → ℕ → Type 0
  Result r reply retries =
      (r.reply ≡ reply) × (r.calls ≡ retries + 1) × (length r.retries ≡ retries)

  ends :
      (n delay prev_delay : ℕ) (reply : Reply T X) (rest : ℕ → ℕ → Run T X)
      → Ends n reply
      → Result (on_attempt w s n delay prev_delay (w.operation n) rest) reply 0
  unfolding on_attempt
  ends n d p reply rest (by_value t h) = rw (h, on_attempt) (refl, refl, refl)
  ends n d p reply rest (by_error e h g) =
      let quits : gives_up w s n (classify w s e) ≡ true = unfold gives_up in ground arith in
      rw (h, on_attempt, quits) (refl, refl, refl)

  goes_on :
      (n k delay prev_delay : ℕ) (reply : Reply T X) (rest : ℕ → ℕ → Run T X)
      → n < s.max_retries
      → IsRetried n
      → ((d p : ℕ) → Result (rest d p) reply k)
      → Result (on_attempt w s n delay prev_delay (w.operation n) rest) reply (suc k)
  unfolding on_attempt
  goes_on n k d p reply rest l r h =
      let stays : gives_up w s n (classify w s r.error) ≡ false =
        unfold gives_up in ground (arith, r.retryable) in
      let next = h _ _ in
      rw (r.rejected, on_attempt, stays, r.slept)
        (next.0, omega (arith, next.1), omega (arith, next.2))

  -- The loop from attempt `m` with `k` retried attempts before the one that ends it.
  retry_from-first :
      (k fuel m delay prev_delay : ℕ) (reply : Reply T X)
      → k < fuel
      → m + k ≤ s.max_retries
      → ((i : ℕ) → m ≤ i → i < m + k → IsRetried i)
      → w.aborted (m + k) ≡ false
      → Ends (m + k) reply
      → Result (retry_from w s fuel m delay prev_delay) reply k
  unfolding retry_from
  retry_from-first zero zero m d p reply f l h a e = absurd (omega arith)
  retry_from-first zero (suc fuel) m d p reply f l h a e =
      let same : m + 0 ≡ m = omega arith in
      let running : w.aborted m ≡ false = subst (λ x. w.aborted x ≡ false) same a in
      rw running (ends m d p reply (retry_from w s fuel (m + 1)) (subst (λ x. Ends x reply) same e))
  retry_from-first (suc k) zero m d p reply f l h a e = absurd (omega arith)
  retry_from-first (suc k) (suc fuel) m d p reply f l h a e =
      let r = h m (omega arith) (omega arith) in
      let same : m + 1 + k ≡ m + suc k = omega arith in
      rw r.running (
        goes_on m k d p reply (retry_from w s fuel (m + 1)) (omega arith) r (λ d' p'.
          retry_from-first k fuel (m + 1) d' p' reply (omega arith) (omega arith)
            (λ i l' u. h i (omega arith) (omega arith)) (rw same a)
            (subst (λ x. Ends x reply) (sym same) e)))

  -- Say that the attempts before one within the limit all reject with an error that is retried, and
  -- that this one ends the run: with a value, with an error that is not retried, or with any error as
  -- the last one allowed. If nothing is aborted until then, the run replies with that value or
  -- error, after one wait and one call of the operation for each attempt before it and its own call.
  pub retry_loop-first :
      (n : ℕ) (reply : Reply T X)
      → n ≤ s.max_retries
      → ((i : ℕ) → i < n → IsRetried i)
      → w.aborted n ≡ false
      → Ends n reply
      → Result (retry_loop w s) reply n
  unfolding retry_loop
  retry_loop-first n reply l h a e =
      let same : 0 + n ≡ n = omega arith in
      retry_from-first n (s.max_retries + 1) 0 s.base_delay_ms s.base_delay_ms reply (omega arith)
        (omega arith) (λ i l' u. h i (omega arith)) (rw same a)
        (subst (λ x. Ends x reply) (sym same) e)

  -- The reply is not that of the loop's end, and the calls fit in what is left of the loop.
  Bounded : ℕ → Run T X → Type 0
  Bounded fuel r = (r.reply ≢ exhausted) × (r.calls ≤ fuel) × (length r.retries ≤ r.calls)

  retry_left :
      (n : ℕ) (e : RpcError X) → gives_up w s n e ≡ false → n ≤ s.max_retries → n < s.max_retries
  unfolding gives_up
  retry_left n e g l = ground arith

  on_attempt-Bounded :
      (fuel n delay prev_delay : ℕ) (a : Attempt T X) (rest : ℕ → ℕ → Run T X)
      → (n < s.max_retries → (d p : ℕ) → Bounded fuel (rest d p))
      → n ≤ s.max_retries
      → Bounded (suc fuel) (on_attempt w s n delay prev_delay a rest)
  unfolding Bounded on_attempt
  on_attempt-Bounded fuel n d p (resolves t) rest h l = (λ q. cc q, omega arith, omega arith)
  on_attempt-Bounded fuel n d p (rejects err) rest h l =
      elim (Bool-cases (gives_up w s n (classify w s err))) [
        | inl g ↦ rw g (λ q. cc q, omega arith, omega arith)
        | inr g ↦ elim (Bool-cases (w.sleep_aborted n)) [
          | inl a ↦ rw (g, a) (λ q. cc q, omega arith, omega arith)
          | inr a ↦
              let r = h (retry_left n (classify w s err) g l) _ _ in
              rw (g, a) (r.0, omega (arith, r.1), omega (arith, r.2))
        ]
      ]

  retry_from-Bounded :
      (fuel n delay prev_delay : ℕ)
      → n + fuel ≡ suc s.max_retries
      → n ≤ s.max_retries
      → Bounded fuel (retry_from w s fuel n delay prev_delay)
  unfolding retry_from
  retry_from-Bounded zero n d p l b = absurd (omega arith)
  retry_from-Bounded (suc fuel) n d p l b = elim (Bool-cases (w.aborted n)) [
    | inl a ↦ rw a (unfold Bounded in (λ q. cc q, omega arith, omega arith))
    | inr a ↦ rw a (
        on_attempt-Bounded fuel n d p (w.operation n) (retry_from w s fuel (n + 1))
          (λ more d' p'. retry_from-Bounded fuel (n + 1) d' p' (omega arith) (omega arith)) b)
  ]

  -- Whatever the operation, the signal and the draws do, the loop ends by one of its own exits, and
  -- the operation is called at most once more than the retries allowed.
  pub retry_loop-ends :
      ((retry_loop w s).reply ≢ exhausted)
      × ((retry_loop w s).calls ≤ s.max_retries + 1)
      × (length (retry_loop w s).retries ≤ (retry_loop w s).calls)
  unfolding retry_loop Bounded
  retry_loop-ends =
      let whole : s.max_retries + 1 ≡ suc s.max_retries = omega arith in
      rw whole (
        retry_from-Bounded (suc s.max_retries) 0 s.base_delay_ms s.base_delay_ms (omega arith)
          (omega arith))
