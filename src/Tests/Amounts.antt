-- ===== src/Tests/Amounts.antt =====
-- Runs of the model of src/utils.ts: amounts and durations.
use stream_fi_sdk.Base.{◌<◌, ℕ, ◌^◌, ◌*◌, none, some, [], ◌∷◌, ◌++◌, ◌≡◌, refl, length, arith}
use stream_fi_sdk.Amount.{
  pos, sign, magnitude, pow10, to_stroops, from_stroops, format_token_amount,
}
use stream_fi_sdk.Amount.Digits.{Text, IsDecimal, big_int}
use stream_fi_sdk.Amount.Convert.{to_stroops-from_stroops}
use stream_fi_sdk.Amount.Rounding.{IsNearest, to_stroops-IsNearest}
use stream_fi_sdk.Amount.Format.{format_token_amount-IsNearest}
use stream_fi_sdk.Duration.{format_duration, parse_duration, is_space, unit_seconds}
use stream_fi_sdk.Duration.RoundTrip.{shown_seconds, parse_duration-format_duration}

abbrev power_of_ten : ℕ → ℕ
power_of_ten d = 10 ^ d

-- "1.5" in a token with seven decimals.
one_and_a_half : to_stroops power_of_ten (49 ∷ 46 ∷ 53 ∷ []) 7 ≡ some 15000000
unfolding to_stroops big_int pow10
one_and_a_half = refl

-- "." is refused.
bare_point : to_stroops power_of_ten (46 ∷ []) 7 ≡ none
unfolding to_stroops big_int pow10
bare_point = refl

to_stroops-from_stroops_example :
    to_stroops power_of_ten (from_stroops power_of_ten (pos 15000000) 7) 7 ≡ some 15000000
to_stroops-from_stroops_example = to_stroops-from_stroops power_of_ten 15000000 7 (omega arith)

-- "1.256" in a token with two decimals.
to_stroops-IsNearest_example :
    (r : ℕ) × (to_stroops power_of_ten ((49 ∷ []) ++ 46 ∷ 50 ∷ 53 ∷ 54 ∷ []) 2 ≡ some r)
    × IsNearest (big_int ((49 ∷ []) ++ 50 ∷ 53 ∷ 54 ∷ []) * 10 ^ 2) (10 ^ 3) r
to_stroops-IsNearest_example =
    to_stroops-IsNearest power_of_ten (49 ∷ []) (50 ∷ 53 ∷ 54 ∷ []) 2 (refl, tt)
      (refl, (refl, (refl, tt))) (omega arith) (omega arith)

format_token_amount-IsNearest_example :
    (w : Text) × (f : Text) × (format_token_amount power_of_ten (pos 123456789) 8 (some 4)
      ≡ sign (pos 123456789) ++ (w ++ 46 ∷ f))
    × (0 < length w)
    × IsDecimal w
    × (length f ≡ 4)
    × IsDecimal f
    × IsNearest (magnitude (pos 123456789) * 10 ^ 4) (10 ^ 8) (big_int (w ++ f))
format_token_amount-IsNearest_example =
    format_token_amount-IsNearest power_of_ten (pos 123456789) 8 3 (omega arith) (omega arith)

parse_duration-format_duration_example :
    parse_duration (format_duration 5430) ≡ some (shown_seconds 5430)
parse_duration-format_duration_example = parse_duration-format_duration 5430

-- "1 h" is refused, since the space is counted among what matches only, and "1 hx" is read as an hour.
space_refused : parse_duration (49 ∷ 32 ∷ 104 ∷ []) ≡ none
unfolding parse_duration is_space unit_seconds big_int
space_refused = refl

junk_accepted : parse_duration (49 ∷ 32 ∷ 104 ∷ 120 ∷ []) ≡ some 3600
unfolding parse_duration is_space unit_seconds big_int
junk_accepted = refl
