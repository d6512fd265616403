-- ===== src/Duration.antt =====
-- src/utils.ts: durations as text, `formatDuration` and `parseDuration`. A duration is a whole number
-- of seconds below 2^53, where the numbers of the source are exact; text is a list of code units.
pub mod Tokens
pub mod RoundTrip
use stream_fi_sdk.Base.{
  ℕ, zero, suc, ◌+◌, ◌-◌, ◌*◌, ◌/◌, ◌%◌, Bool, true, false, not, ◌&&◌, ◌||◌, Option, none, some,
  List, [], ◌∷◌, ◌++◌, ltb, leb, ◌==◌, if◌then◌else◌, length, filter,
}
use stream_fi_sdk.Amount.Digits.{Text, is_digit, big_int, to_string}

-- The letters d, h, m and s.
abbrev pub unit_d : ℕ
unit_d = 100

abbrev pub unit_h : ℕ
unit_h = 104

abbrev pub unit_m : ℕ
unit_m = 109

abbrev pub unit_s : ℕ
unit_s = 115

abbrev pub one : ℕ → ℕ → Text
one n unit = to_string n ++ unit ∷ []

abbrev pub two : ℕ → ℕ → ℕ → ℕ → Text
two n unit m smaller = to_string n ++ (unit ∷ 32 ∷ one m smaller)

abbrev pub shown : ℕ → ℕ → ℕ → ℕ → Text
shown n unit m smaller = if ltb 0 m then two n unit m smaller else one n unit

unfoldable pub format_duration : ℕ → Text
format_duration total =
    if ltb total 60
    then one total unit_s
    else if ltb total 3600
    then shown (total / 60) unit_m (total % 60) unit_s
    else if ltb total 86400
    then shown (total / 3600) unit_h (total % 3600 / 60) unit_m
    else shown (total / 86400) unit_d (total % 86400 / 3600) unit_h

-- `DURATION_UNIT_SECONDS[unit.toLowerCase()]`, for the letters that the pattern has.
unfoldable pub unit_seconds : ℕ → Option ℕ
unit_seconds c =
    if (c == 100) || (c == 68)
    then some 86400
    else if (c == 104) || (c == 72)
    then some 3600
    else if (c == 109) || (c == 77)
    then some 60
    else if (c == 115) || (c == 83)
    then some 1
    else none

-- `\s`
unfoldable pub is_space : ℕ → Bool
is_space c =
    (leb 9 c && leb c 13)
    || (c == 32)
    || (c == 160)
    || (c == 5760)
    || (leb 8192 c && leb c 8202)
    || (c == 8232)
    || (c == 8233)
    || (c == 8239)
    || (c == 8287)
    || (c == 12288)
    || (c == 65279)

abbrev pub trim_start : Text → Text
trim_start [] = []
trim_start (c ∷ cs) = let rest = trim_start cs in if is_space c then rest else c ∷ cs

abbrev pub is_empty : Text → Bool
is_empty [] = true
is_empty (c ∷ cs) = false

abbrev pub trim_end : Text → Text
trim_end [] = []
trim_end (c ∷ cs) = let rest = trim_end cs in if is_space c && is_empty rest then [] else c ∷ rest

-- The match of `/(\d+)\s*(d|h|m|s)/i` that starts at the first character: its seconds and its length,
-- and the text after it. The digits read so far come first, then the number of spaces after them.
pub record Match : Type 0 where
  pub seconds : ℕ
  pub size : ℕ
  pub rest : Text

abbrev pub match_unit : Text → ℕ → Text → Option Match
match_unit digits spaces [] = none
match_unit digits spaces (c ∷ cs) =
    let after = match_unit digits (spaces + 1) cs in
    if is_space c then after else elim (unit_seconds c) [
      | none ↦ none
      | some s ↦
          some
            (record { seconds = big_int digits * s; size = length digits + spaces + 1; rest = cs })
    ]

abbrev pub match_digits : Text → Text → Option Match
match_digits digits [] = none
match_digits digits (c ∷ cs) =
    let after = match_digits (digits ++ c ∷ []) cs in
    if is_digit c then after else if is_empty digits then none else match_unit digits 0 (c ∷ cs)

pub record Totals : Type 0 where
  pub total_seconds : ℕ
  pub matched_length : ℕ
  pub found_any : Bool

abbrev pub count : Totals → Option Match → Totals
count t none = t
count t (some m) = record {
  total_seconds = t.total_seconds + m.seconds;
  matched_length = t.matched_length + m.size;
  found_any = true;
}

abbrev pub go_on : Text → Option Match → Text
go_on next none = next
go_on next (some m) = m.rest

-- The loop of `re.exec`, from the place where the last match ended. A place where no match starts is
-- passed over, so that there are no more rounds than characters.
abbrev pub exec_from : ℕ → Text → Totals → Totals
exec_from zero text totals = totals
exec_from (suc fuel) [] totals = totals
exec_from (suc fuel) (c ∷ cs) totals =
    let found = match_digits [] (c ∷ cs) in exec_from fuel (go_on cs found) (count totals found)

-- `none` is the error that is thrown.
unfoldable pub parse_duration : Text → Option ℕ
parse_duration input =
    let trimmed = trim_end (trim_start input) in
    let totals =
      exec_from (length trimmed) trimmed
        (record { total_seconds = 0; matched_length = 0; found_any = false }) in
    let stripped_length = length (filter (λ c. not (is_space c)) trimmed) in
    if is_empty trimmed
    then none
    else if not totals.found_any || not (totals.matched_length == stripped_length)
    then none
    else some totals.total_seconds
