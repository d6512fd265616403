-- ===== src/Stream/Status.antt =====
-- src/utils.ts: the status, the progress and the remaining time of a stream agree.
use stream_fi_sdk.Base.{ℕ, ◌+◌, ◌-◌, ◌≤◌, ◌<◌, false, ◌≡◌, ◌↔◌, max, arith}
use stream_fi_sdk.Stream.{
  StreamInfo, quotient, stream_progress, remaining_time, completed, stream_status,
}

-- A finite stream that is not cancelled has no time left exactly when it counts as completed, and the
-- time left is what separates it from its end.
pub remaining_time-status :
    (s : StreamInfo) (now : ℕ)
    → s.cancelled ≡ false
    → 0 < s.end_time
    → ((stream_status s now ≡ completed) ↔ (remaining_time s now ≡ 0))
      × (now + remaining_time s now ≡ max now s.end_time)
unfolding stream_status remaining_time
remaining_time-status s now h p = ground arith

-- A progress that is a quotient lies below 1 and has a positive denominator; it is shown exactly
-- while a finite stream runs.
pub stream_progress-quotient :
    (s : StreamInfo) (now n d : ℕ)
    → stream_progress s now ≡ quotient n d
    → (n < d) × (s.start_time ≤ now) × (now < s.end_time) × (n ≡ now - s.start_time)
unfolding stream_progress
stream_progress-quotient s now n d h = ground arith
