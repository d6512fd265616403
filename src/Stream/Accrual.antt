-- ===== src/Stream/Accrual.antt =====
-- src/utils.ts: laws of the local accrual functions.
use stream_fi_sdk.Base.{
  ℕ, ◌+◌, ◌-◌, ◌*◌, ◌≤◌, ◌<◌, true, false, ◌≡◌, refl, List, [], ◌∷◌, ◌++◌, ltb, leb, if◌then◌else◌,
  arith, ap, ◌∙◌, inl, inr, Bool-cases,
}
use stream_fi_sdk.Stream.{
  StreamInfo, effective_now, withdrawable_local, streamed_total_local, sum_from, sum_withdrawable,
  sum_streamed_total, stream_status, completed,
}

-- What a recipient can take is what has streamed less what was taken, and 0 below that.
pub withdrawable_local_lem :
    (s : StreamInfo) (now : ℕ) → withdrawable_local s now ≡ streamed_total_local s now - s.withdrawn
unfolding withdrawable_local streamed_total_local
withdrawable_local_lem s now = ground arith

pub effective_now_mono :
    (s : StreamInfo) (now later : ℕ) → now ≤ later → effective_now s now ≤ effective_now s later
effective_now_mono s now later h = ground arith

clamp_elapsed :
    (rate eff start : ℕ)
    → (if ltb eff start then 0 else if leb (eff - start) 0 then 0 else rate * (eff - start))
      ≡ rate * (eff - start)
clamp_elapsed rate eff start = grind arith

pub streamed_total_local-elapsed :
    (s : StreamInfo) (now : ℕ)
    → s.cancelled ≡ false
    → streamed_total_local s now ≡ s.rate_per_second * (effective_now s now - s.start_time)
unfolding streamed_total_local
streamed_total_local-elapsed s now h =
    rw h (clamp_elapsed s.rate_per_second (effective_now s now) s.start_time)

mul_mono : (r a b : ℕ) → a ≤ b → r * a ≤ r * b
mul_mono r a b h = grind arith

streamed_total_local-cancelled :
    (s : StreamInfo) (now : ℕ) → s.cancelled ≡ true → streamed_total_local s now ≡ s.withdrawn
unfolding streamed_total_local
streamed_total_local-cancelled s now h = rw h

-- The amount streamed never falls as time passes, whether the stream runs, is paused, has ended or
-- is cancelled.
pub streamed_total_local_mono :
    (s : StreamInfo) (now later : ℕ)
    → now ≤ later
    → streamed_total_local s now ≤ streamed_total_local s later
streamed_total_local_mono s now later h = elim (Bool-cases s.cancelled) [
  | inl c ↦
      omega
        (arith, streamed_total_local-cancelled s now c, streamed_total_local-cancelled s later c)
  | inr r ↦
      rw (streamed_total_local-elapsed s now r, streamed_total_local-elapsed s later r)
        (mul_mono s.rate_per_second _ _ (omega (arith, effective_now_mono s now later h)))
]

-- A finite stream that is not cancelled never streams more than its rate over its whole duration.
pub streamed_total_local-le :
    (s : StreamInfo) (now : ℕ)
    → s.cancelled ≡ false
    → 0 < s.end_time
    → streamed_total_local s now ≤ s.rate_per_second * (s.end_time - s.start_time)
streamed_total_local-le s now h p =
    let within : effective_now s now ≤ s.end_time = ground arith in
    rw (streamed_total_local-elapsed s now h) (mul_mono s.rate_per_second _ _ (omega arith))

-- One that ran to its end without a pause has streamed exactly that.
pub streamed_total_local-ended :
    (s : StreamInfo) (now : ℕ)
    → s.cancelled ≡ false
    → s.paused ≡ false
    → 0 < s.end_time
    → s.end_time ≤ now
    → streamed_total_local s now ≡ s.rate_per_second * (s.end_time - s.start_time)
streamed_total_local-ended s now h q p e =
    let at_end : effective_now s now ≡ s.end_time = ground arith in
    streamed_total_local-elapsed s now h ∙ ap (λ t. s.rate_per_second * (t - s.start_time)) at_end

-- A stream paused before its end and read after it: the status is completed, and the amount stays
-- what had streamed at the pause.
pub streamed_total_local-paused_ended :
    (s : StreamInfo) (now : ℕ)
    → s.cancelled ≡ false
    → s.paused ≡ true
    → s.paused_at < s.end_time
    → s.end_time ≤ now
    → (stream_status s now ≡ completed)
      × (streamed_total_local s now ≡ s.rate_per_second * (s.paused_at - s.start_time))
unfolding stream_status
streamed_total_local-paused_ended s now h q p e =
    let frozen : effective_now s now ≡ s.paused_at = ground arith in
    (
      ground arith,
      streamed_total_local-elapsed s now h
          ∙ ap (λ t. s.rate_per_second * (t - s.start_time)) frozen,
    )

sum_from-append :
    (f : StreamInfo → ℕ → ℕ) (n : ℕ) (xs ys : List StreamInfo) (now : ℕ)
    → sum_from f n (xs ++ ys) now ≡ sum_from f (sum_from f n xs now) ys now
unfolding sum_from
sum_from-append f n [] ys now = refl
sum_from-append f n (x ∷ xs) ys now = sum_from-append f (n + f x now) xs ys now

sum_from-start :
    (f : StreamInfo → ℕ → ℕ) (n : ℕ) (xs : List StreamInfo) (now : ℕ)
    → sum_from f n xs now ≡ n + sum_from f 0 xs now
unfolding sum_from
sum_from-start f n [] now = omega arith
sum_from-start f n (x ∷ xs) now =
    omega (arith, sum_from-start f (n + f x now) xs now, sum_from-start f (0 + f x now) xs now)

-- The sum over two lists of streams is the sum of the sums: the order of the streams plays no part.
pub sum_withdrawable-append :
    (xs ys : List StreamInfo) (now : ℕ)
    → sum_withdrawable (xs ++ ys) now ≡ sum_withdrawable xs now + sum_withdrawable ys now
unfolding sum_withdrawable
sum_withdrawable-append xs ys now = omega (
  arith,
  sum_from-append withdrawable_local 0 xs ys now,
  sum_from-start withdrawable_local (sum_from withdrawable_local 0 xs now) ys now,
)

sum_from_mono :
    (xs : List StreamInfo) (m n now : ℕ)
    → m ≤ n
    → sum_from withdrawable_local m xs now ≤ sum_from streamed_total_local n xs now
unfolding sum_from
sum_from_mono [] m n now h = h
sum_from_mono (x ∷ xs) m n now h =
    sum_from_mono xs _ _ now (omega (arith, withdrawable_local_lem x now))

-- No set of streams has more to withdraw than it has streamed.
pub sum_withdrawable-le :
    (xs : List StreamInfo) (now : ℕ) → sum_withdrawable xs now ≤ sum_streamed_total xs now
unfolding sum_withdrawable sum_streamed_total
sum_withdrawable-le xs now = sum_from_mono xs 0 0 now (omega arith)
