-- ===== src/Tests/Streams.antt =====
-- src/utils.ts and src/streams.ts at small inputs.
use stream_fi_sdk.Base.{◌-◌, ◌*◌, ◌≡◌, refl, true, false, [], ◌∷◌, arith}
use stream_fi_sdk.Base.{ℕ, ◌^◌, Bool, Option, none, some, replicate}
use stream_fi_sdk.Amount.{ℤ, to_stroops, pow10}
use stream_fi_sdk.Amount.Digits.{Text, big_int}
use stream_fi_sdk.Duration.{is_space}
use stream_fi_sdk.Stream.Preview.{
  IsFraction, calculate_vested_percentage, calculate_vested_percentage-streamed,
}
use stream_fi_sdk.Stream.Validate.{
  StreamConfig, IsAcceptable, validate_stream_parameters, effective_stop, native_token,
}
use stream_fi_sdk.Stream.Acceptable.{validate_stream_parameters-IsAcceptable}
use stream_fi_sdk.Stream.{StreamInfo, withdrawable_local, streamed_total_local}

abbrev running : StreamInfo
running = record {
  id = 1;
  address = "c";
  sender = "s";
  recipient = "r";
  token = "t";
  rate_per_second = 5;
  start_time = 100;
  end_time = 200;
  withdrawn = 50;
  paused = false;
  paused_at = 0;
  cancelled = false;
  clawback_enabled = false;
}

abbrev halted : StreamInfo
halted = record running { paused = true; paused_at = 150 }

half_way : (withdrawable_local running 150 ≡ 200) × (streamed_total_local halted 300 ≡ 250)
unfolding withdrawable_local streamed_total_local
half_way = (refl, refl)

calculate_vested_percentage-streamed_example :
    IsFraction
      (streamed_total_local running 150)
      (5 * (200 - 100))
      (calculate_vested_percentage running 150)
calculate_vested_percentage-streamed_example =
    calculate_vested_percentage-streamed running 150 refl (omega arith)

-- A recipient with a valid address, "native", "1", an hour.
abbrev every_text : Text → Bool
every_text t = true

abbrev no_integer : Text → Option ℤ
no_integer t = none

abbrev power_of_ten : ℕ → ℕ
power_of_ten d = 10 ^ d

abbrev an_hour : StreamConfig
an_hour = record {
  recipient = replicate 56 71;
  token = native_token;
  deposit_amount = 49 ∷ [];
  duration_seconds = some 3600;
  rate_per_second = none;
  start_time = none;
  stop_time = none;
  end_time = none;
  sender = none;
}

an_hour_valid : validate_stream_parameters every_text no_integer power_of_ten an_hour 1000 ≡ []
unfolding validate_stream_parameters effective_stop to_stroops big_int pow10 is_space
an_hour_valid = refl

validate_stream_parameters-IsAcceptable_example :
    IsAcceptable every_text no_integer power_of_ten an_hour 1000
validate_stream_parameters-IsAcceptable_example =
    validate_stream_parameters-IsAcceptable every_text no_integer power_of_ten an_hour 1000
      an_hour_valid
