-- ===== src/Stream.antt =====
-- src/utils.ts: what a `StreamInfo` snapshot says of its stream at a time, without a contract call.
-- Times are seconds and amounts stroops, none negative (the contract's own amounts are not).
pub mod Accrual
pub mod Status
pub mod Preview
pub mod Validate
pub mod Acceptable
use stream_fi_sdk.Base.{
  ℕ, ◌+◌, ◌-◌, ◌*◌, String, Bool, true, false, not, ◌&&◌, List, [], ◌∷◌, ltb, leb, ◌==◌,
  if◌then◌else◌,
}

-- src/types/index.ts.
pub record StreamInfo : Type 0 where
  pub id : ℕ
  pub address : String
  pub sender : String
  pub recipient : String
  pub token : String
  pub rate_per_second : ℕ
  pub start_time : ℕ
  pub end_time : ℕ
  pub withdrawn : ℕ
  pub paused : Bool
  pub paused_at : ℕ
  pub cancelled : Bool
  pub clawback_enabled : Bool

-- A fraction of a stream: `streamProgress` is 0, 1, not a number, or a quotient that is not computed
-- here.
pub data Progress : Type 0 where
  not_started : Progress
  open_ended : Progress
  ended : Progress
  quotient : ℕ → ℕ → Progress

unfoldable pub stream_progress : StreamInfo → ℕ → Progress
stream_progress s now =
    if ltb now s.start_time
    then not_started
    else if s.end_time == 0
    then open_ended
    else if leb s.end_time now
    then ended
    else quotient (now - s.start_time) (s.end_time - s.start_time)

unfoldable pub remaining_time : StreamInfo → ℕ → ℕ
remaining_time s now =
    if s.end_time == 0 then 0 else if leb s.end_time now then 0 else s.end_time - now

abbrev pub end_clamped : StreamInfo → ℕ → ℕ
end_clamped s now = if ltb 0 s.end_time && ltb s.end_time now then s.end_time else now

abbrev pub effective_now : StreamInfo → ℕ → ℕ
effective_now s now =
    if s.paused && ltb s.paused_at (end_clamped s now) then s.paused_at else end_clamped s now

-- The elapsed seconds, at least 0 behind the two early returns.
unfoldable pub withdrawable_local : StreamInfo → ℕ → ℕ
withdrawable_local s now =
    let elapsed = effective_now s now - s.start_time in
    let streamed = s.rate_per_second * elapsed in
    if s.cancelled
    then 0
    else if ltb (effective_now s now) s.start_time
    then 0
    else if leb elapsed 0
    then 0
    else if ltb s.withdrawn streamed
    then streamed - s.withdrawn
    else 0

unfoldable pub streamed_total_local : StreamInfo → ℕ → ℕ
streamed_total_local s now =
    let elapsed = effective_now s now - s.start_time in
    if s.cancelled
    then s.withdrawn
    else if ltb (effective_now s now) s.start_time
    then 0
    else if leb elapsed 0
    then 0
    else s.rate_per_second * elapsed

pub data StreamStatus : Type 0 where
  active paused completed cancelled : StreamStatus

unfoldable pub stream_status : StreamInfo → ℕ → StreamStatus
stream_status s now =
    if s.cancelled
    then cancelled
    else if not (s.end_time == 0) && leb s.end_time now
    then completed
    else if s.paused
    then paused
    else active

-- The `reduce` loops, from an accumulator.
sum_from : (StreamInfo → ℕ → ℕ) → ℕ → List StreamInfo → ℕ → ℕ
sum_from f sum [] now = sum
sum_from f sum (s ∷ streams) now = sum_from f (sum + f s now) streams now

unfoldable pub sum_withdrawable : List StreamInfo → ℕ → ℕ
unfolding sum_from
sum_withdrawable streams now = sum_from withdrawable_local 0 streams now

unfoldable pub sum_streamed_total : List StreamInfo → ℕ → ℕ
unfolding sum_from
sum_streamed_total streams now = sum_from streamed_total_local 0 streams now
