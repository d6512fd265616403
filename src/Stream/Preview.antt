-- ===== src/Stream/Preview.antt =====
-- src/streams.ts: the pure functions on a snapshot of a stream.
use stream_fi_sdk.Base.{
  ℕ, ◌+◌, ◌-◌, ◌*◌, ◌/◌, ◌%◌, ◌≤◌, ◌<◌, min, String, Bool, true, false, ◌&&◌, ◌||◌, Option, none,
  some, ltb, leb, ◌===◌, string_eq, if◌then◌else◌, ◌≡◌, ◌↔◌, refl, ◌∙◌, ap, arith, if_cases,
}
use stream_fi_sdk.Stream.{StreamInfo, effective_now, withdrawable_local, streamed_total_local}
use stream_fi_sdk.Stream.Accrual.{streamed_total_local-elapsed}
use native.Mathlib.Nat.{mul_assoc, mul_comm}

pub record DurationBreakdown : Type 0 where
  pub days : ℕ
  pub hours : ℕ
  pub minutes : ℕ
  pub seconds : ℕ
  pub total_seconds : ℕ

unfoldable pub calculate_stream_remaining_duration : ℕ → ℕ → DurationBreakdown
calculate_stream_remaining_duration end_time now =
    let remaining = end_time - now in
    record {
      days = remaining / 86400;
      hours = remaining % 86400 / 3600;
      minutes = remaining % 3600 / 60;
      seconds = remaining % 60;
      total_seconds = remaining;
    }

abbrev pub clamped_to_end : StreamInfo → ℕ → ℕ
clamped_to_end s now = if ltb 0 s.end_time && ltb s.end_time now then s.end_time else now

abbrev pub frozen_now : StreamInfo → ℕ → ℕ
frozen_now s end_clamped =
    if s.paused && ltb s.paused_at end_clamped then s.paused_at else end_clamped

-- The elapsed seconds are not negative behind the early returns.
unfoldable pub calculate_withdrawable_amount : StreamInfo → ℕ → ℕ
calculate_withdrawable_amount s now =
    let effective = frozen_now s (clamped_to_end s now) in
    let elapsed = effective - s.start_time in
    let streamed = s.rate_per_second * elapsed in
    if s.cancelled
    then 0
    else if ltb effective s.start_time
    then 0
    else if leb elapsed 0
    then 0
    else if ltb s.withdrawn streamed
    then streamed - s.withdrawn
    else 0

-- A fraction, as its numerator and denominator.
unfoldable pub calculate_vested_percentage : StreamInfo → ℕ → ℕ × ℕ
calculate_vested_percentage s now =
    let total = s.end_time - s.start_time in
    let effective = frozen_now s (if ltb s.end_time now then s.end_time else now) in
    if s.cancelled
    then (0, 1)
    else if leb s.end_time 0 || leb s.end_time s.start_time
    then (0, 1)
    else if leb effective s.start_time
    then (0, 1)
    else if ltb total (effective - s.start_time)
    then (1, 1)
    else (effective - s.start_time, total)

-- The threshold may be missing.
unfoldable pub is_stream_cancellable_by_account : StreamInfo → String → Option ℕ → ℕ → Bool
is_stream_cancellable_by_account s wallet threshold now =
    if wallet === ""
    then false
    else if s.cancelled
    then false
    else if wallet === s.sender
    then true
    else if wallet === s.recipient
    then (elim threshold [
      | none ↦ false
      | some seconds ↦ s.paused && leb (s.paused_at + seconds) now
    ])
    else false

pub record SimulatedWithdraw : Type 0 where
  pub withdraw_amount : ℕ
  pub withdrawable : ℕ
  pub remaining_withdrawable : ℕ
  pub estimated_fee : ℕ
  pub exceeds_available : Bool

abbrev pub or_all : Option ℕ → ℕ → ℕ
or_all none all = all
or_all (some amount) all = amount

-- The fee is read from a string, or is `BASE_FEE`; it comes as a number here.
unfoldable pub simulate_withdraw : StreamInfo → Option ℕ → ℕ → ℕ → SimulatedWithdraw
simulate_withdraw s amount now fee =
    let withdrawable = calculate_withdrawable_amount s now in
    let requested = or_all amount withdrawable in
    let withdraw_amount = if ltb withdrawable requested then withdrawable else requested in
    record {
      withdraw_amount = withdraw_amount;
      withdrawable = withdrawable;
      remaining_withdrawable = withdrawable - withdraw_amount;
      estimated_fee = fee;
      exceeds_available = ltb withdrawable requested;
    }

-- The parts of the breakdown are the seconds that remain, each below the next larger unit.
pub calculate_stream_remaining_duration_lem :
    (end_time now : ℕ)
    → (let d = calculate_stream_remaining_duration end_time now in
        (d.days * 86400 + d.hours * 3600 + d.minutes * 60 + d.seconds ≡ end_time - now)
        × (d.hours < 24)
        × (d.minutes < 60)
        × (d.seconds < 60))
unfolding calculate_stream_remaining_duration
calculate_stream_remaining_duration_lem end_time now =
    (omega arith, omega arith, omega arith, omega arith)

-- The two functions that replicate the contract's withdrawable amount agree.
pub calculate_withdrawable_amount-local :
    (s : StreamInfo) (now : ℕ) → calculate_withdrawable_amount s now ≡ withdrawable_local s now
unfolding calculate_withdrawable_amount withdrawable_local
calculate_withdrawable_amount-local s now = refl

-- A withdrawal that is previewed takes what is asked for, at most what can be withdrawn, leaves the
-- rest, and says whether more was asked for.
pub simulate_withdraw_lem :
    (s : StreamInfo) (amount now fee : ℕ)
    → (let w = simulate_withdraw s (some amount) now fee in
        (w.withdraw_amount ≡ min amount (withdrawable_local s now))
        × (w.withdraw_amount + w.remaining_withdrawable ≡ withdrawable_local s now)
        × ((w.exceeds_available ≡ true) ↔ (withdrawable_local s now < amount)))
unfolding simulate_withdraw
simulate_withdraw_lem s amount now fee =
    rw (calculate_withdrawable_amount-local s now) (capped (withdrawable_local s now))
  where
    capped :
        (a : ℕ)
        → ((if ltb a amount then a else amount) ≡ min amount a)
          × ((if ltb a amount then a else amount) + (a - (if ltb a amount then a else amount)) ≡ a)
          × ((ltb a amount ≡ true) ↔ (a < amount))
    capped a = (ground arith, ground arith, ground arith)

frozen_now-effective :
    (s : StreamInfo) (now : ℕ)
    → 0 < s.end_time
    → (frozen_now s (if ltb s.end_time now then s.end_time else now) ≡ effective_now s now)
      × (effective_now s now ≤ s.end_time)
frozen_now-effective s now h =
    let started : ltb 0 s.end_time ≡ true = ground arith in rw started (refl, ground arith)

scaled_rate : (r e t : ℕ) → r * e * t ≡ e * (r * t)
scaled_rate r e t = ap (λ k. k * t) (mul_comm r e) ∙ mul_assoc e r t

-- `part / whole` is a fraction of at most one, and the same as `streamed / all`.
abbrev pub IsFraction : ℕ → ℕ → ℕ × ℕ → Type 0
IsFraction streamed all (part, whole) =
    (part ≤ whole) × (0 < whole) × (streamed * whole ≡ part * all)

vested-IsFraction :
    (rate start end eff : ℕ)
    → start < end
    → eff ≤ end
    → IsFraction (rate * (eff - start)) (rate * (end - start)) (
        if leb eff start
        then (0, 1)
        else if ltb (end - start) (eff - start)
        then (1, 1)
        else (eff - start, end - start))
vested-IsFraction rate start end eff h b =
    let Good : ℕ × ℕ → Type 0 = IsFraction (rate * (eff - start)) (rate * (end - start)) in
    if_cases Good (leb eff start)
      (λ l.
        let z : eff - start ≡ 0 = ground arith in (omega arith, omega arith, rw z (omega arith)))
      (λ l.
        if_cases Good (ltb (end - start) (eff - start)) (λ k. absurd (ground arith))
          (λ k. (omega (arith, b), omega (arith, h), scaled_rate rate (eff - start) (end - start))))

-- For a stream with an end after its start that is not cancelled, the fraction vested is at most one,
-- and is the fraction of what the stream pays in all that has streamed.
pub calculate_vested_percentage-streamed :
    (s : StreamInfo) (now : ℕ)
    → s.cancelled ≡ false
    → s.start_time < s.end_time
    → IsFraction
        (streamed_total_local s now)
        (s.rate_per_second * (s.end_time - s.start_time))
        (calculate_vested_percentage s now)
unfolding calculate_vested_percentage
calculate_vested_percentage-streamed s now c h =
    let bounded : (leb s.end_time 0 || leb s.end_time s.start_time) ≡ false = ground arith in
    let (same, below) = frozen_now-effective s now (omega (arith, h)) in
    rw (streamed_total_local-elapsed s now c, c, bounded, same)
      (vested-IsFraction s.rate_per_second s.start_time s.end_time (effective_now s now) h below)
