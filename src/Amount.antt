-- ===== src/Amount.antt =====
-- src/utils.ts: amounts of tokens, as text and in the token's smallest unit. A call that throws gives
-- `none`. `double_power` stands for `10 ** decimals` on doubles, which is used past the table.
pub mod Digits
pub mod Trim
pub mod Convert
pub mod Rounding
pub mod Format
use stream_fi_sdk.Base.{
  ℕ, zero, suc, ◌+◌, ◌-◌, ◌*◌, ◌/◌, ◌%◌, Bool, true, false, not, ◌&&◌, ◌||◌, Option, none, some,
  List, [], ◌∷◌, ◌++◌, ltb, leb, ◌==◌, if◌then◌else◌, length, get_elem?, take, replicate,
}
use stream_fi_sdk.Amount.Digits.{Text, is_digit, big_int, to_string, pad_start}

-- A `bigint`.
pub data ℤ : Type 0 where
  pos negsuc : ℕ → ℤ

abbrev pub magnitude : ℤ → ℕ
magnitude (pos n) = n
magnitude (negsuc n) = suc n

abbrev pub sign : ℤ → Text
sign (pos n) = []
sign (negsuc n) = 45 ∷ []

abbrev pub powers : List ℕ
powers =
    1 ∷ 10 ∷ 100 ∷ 1000 ∷ 10000 ∷ 100000 ∷ 1000000 ∷ 10000000 ∷ 100000000 ∷ 1000000000 ∷ 10000000000
    ∷ 100000000000 ∷ 1000000000000 ∷ 10000000000000 ∷ 100000000000000 ∷ 1000000000000000
    ∷ 10000000000000000 ∷ 100000000000000000 ∷ 1000000000000000000 ∷ 10000000000000000000 ∷ []

-- `/^\d*(\.\d*)?$/.test(amount)`
abbrev pub all_digits : Text → Bool
all_digits [] = true
all_digits (c ∷ cs) = is_digit c && all_digits cs

abbrev pub has_format : Text → Bool
has_format [] = true
has_format (c ∷ cs) = if is_digit c then has_format cs else (c == 46) && all_digits cs

-- `amount === '.' || amount === ''`
abbrev pub is_bare : Text → Bool
is_bare [] = true
is_bare (c ∷ []) = c == 46
is_bare (c ∷ d ∷ cs) = false

-- The parts before and after the first point.
abbrev pub whole_part : Text → Text
whole_part [] = []
whole_part (c ∷ cs) = let rest = whole_part cs in if c == 46 then [] else c ∷ rest

abbrev pub frac_part : Text → Text
frac_part [] = []
frac_part (c ∷ cs) = let rest = frac_part cs in if c == 46 then cs else rest

abbrev pub frac_padded : Text → ℕ → Text
frac_padded frac needed =
    if leb needed (length frac)
    then take needed frac
    else frac ++ replicate (needed - length frac) 48

-- `charCodeAt(decimals) - 48 >= 5`, which no character fails.
abbrev pub rounds_up : Option ℕ → Bool
rounds_up none = false
rounds_up (some c) = leb 5 (c - 48)

abbrev pub rounded_frac : Text → ℕ → ℕ
rounded_frac padded decimals =
    let tenth = big_int padded / 10 in
    if rounds_up (get_elem? padded decimals) then tenth + 1 else tenth

-- `charCodeAt(end - 1) === 48`
abbrev pub is_zero_at : Text → ℕ → Bool
is_zero_at t i = elim (get_elem? t i) [ none ↦ false | some c ↦ c == 48 ]

-- The loop that steps back over zeros, to the first digit at most.
abbrev pub trim_from : Text → ℕ → ℕ
trim_from t zero = zero
trim_from t (suc zero) = suc zero
trim_from t (suc (suc end)) =
    let before = trim_from t (suc end) in if is_zero_at t (suc end) then before else suc (suc end)

module _ (double_power : ℕ → ℕ) where
  unfoldable pub pow10 : ℕ → ℕ
  pow10 decimals = elim (get_elem? powers decimals) [ none ↦ double_power decimals | some p ↦ p ]

  unfoldable pub to_stroops : Text → ℕ → Option ℕ
  to_stroops amount decimals =
      let padded = frac_padded (frac_part amount) (decimals + 1) in
      if not (has_format amount) || is_bare amount
      then none
      else some (big_int (whole_part amount) * pow10 decimals + rounded_frac padded decimals)

  unfoldable pub from_stroops : ℤ → ℕ → Text
  from_stroops stroops decimals =
      let abs = magnitude stroops in
      let factor = pow10 decimals in
      let frac = pad_start (to_string (abs % factor)) decimals in
      let trimmed = take (trim_from frac (length frac)) frac in
      sign stroops ++ (to_string (abs / factor) ++ 46 ∷ trimmed)

  -- A duration is a whole number here.
  unfoldable pub calculate_rate : Text → ℕ → ℕ → Option ℕ
  calculate_rate deposit_amount duration_secs decimals =
      if leb duration_secs 0 then none else elim (to_stroops deposit_amount decimals) [
        | none ↦ none
        | some stroops ↦
            let quotient = stroops / duration_secs in
            let remainder = stroops - quotient * duration_secs in
            some (if leb duration_secs (remainder * 2) then quotient + 1 else quotient)
      ]

  -- An amount given as a `bigint`.
  unfoldable pub format_token_amount : ℤ → ℕ → Option ℕ → Text
  format_token_amount amount decimals display_decimals =
      let display_dec : ℕ = elim display_decimals [ none ↦ decimals | some d ↦ d ] in
      let factor = pow10 decimals in
      let display_factor = pow10 display_dec in
      let whole = magnitude amount / factor in
      let rem = magnitude amount % factor in
      let scaled = (rem * display_factor + factor / 2) / factor in
      let capped = if leb display_factor scaled then 0 else scaled in
      let carry = if leb display_factor scaled then 1 else 0 in
      if display_dec == 0
      then sign amount ++ to_string (if leb factor (rem * 2) then whole + 1 else whole)
      else sign amount
        ++ (to_string (whole + carry) ++ 46 ∷ pad_start (to_string capped) display_dec)
