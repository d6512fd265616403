-- ===== src/History/Values.antt =====
-- src/dashboard/transaction-history.ts: what an indexer's value becomes. A number is a whole number
-- below 10^21, whose text is its digits; fractions are outside the model. `other` is any value that is not
-- a string, a finite number or a bigint, such as an object or NaN.
use stream_fi_sdk.Base.{
  ℕ, suc, ◌+◌, ◌*◌, Bool, true, false, ◌&&◌, Option, none, some, List, [], ◌∷◌, ◌++◌, ltb, leb,
  ◌==◌, ◌===◌, if◌then◌else◌, take, drop,
}
use stream_fi_sdk.Amount.{ℤ, pos, negsuc, magnitude, sign, all_digits}
use stream_fi_sdk.Amount.Digits.{Text, is_digit, to_string}
use stream_fi_sdk.Texts.{text_eq, trim}

pub data Value : Type 0 where
  missing other : Value
  text : Text → Value
  number bigint : ℤ → Value

-- `a ?? b`
unfoldable pub or_value : Value → Value → Value
or_value missing b = b
or_value other b = other
or_value (text t) b = text t
or_value (number n) b = number n
or_value (bigint n) b = bigint n

unfoldable pub as_string : Value → Text → Text
as_string missing fallback = fallback
as_string other fallback = fallback
as_string (text t) fallback = t
as_string (number n) fallback = sign n ++ to_string (magnitude n)
as_string (bigint n) fallback = sign n ++ to_string (magnitude n)

-- The shape of `2024-01-31 12:00:00`: a digit is 100 here, any other character is itself.
abbrev pub shape : List ℕ
shape =
    100 ∷ 100 ∷ 100 ∷ 100 ∷ 45 ∷ 100 ∷ 100 ∷ 45 ∷ 100 ∷ 100 ∷ 32 ∷ 100 ∷ 100 ∷ 58 ∷ 100 ∷ 100 ∷ 58
    ∷ 100 ∷ 100 ∷ []

-- What follows the shape, if the text begins with it.
abbrev pub after_shape : List ℕ → Text → Option Text
after_shape [] t = some t
after_shape (p ∷ ps) [] = none
after_shape (p ∷ ps) (c ∷ cs) =
    let rest = after_shape ps cs in if (if p == 100 then is_digit c else c == p) then rest else none

-- `(?:\.\d+)?$`
abbrev pub is_fraction : Text → Bool
is_fraction [] = true
is_fraction (c ∷ []) = false
is_fraction (c ∷ d ∷ ds) = c == 46 && all_digits (d ∷ ds)

abbrev pub iso_of : Text → Option Text → Text
iso_of value none = value
iso_of value (some rest) =
    if is_fraction rest then take 10 value ++ 84 ∷ (drop 11 value ++ 90 ∷ []) else value

-- `SPACE_SEPARATED_DATETIME` and `toIso8601`
unfoldable pub to_iso8601 : Text → Text
to_iso8601 value = iso_of value (after_shape shape value)

-- `asTimestamp` of a finite number.
unfoldable pub number_timestamp : ℤ → ℤ
number_timestamp (pos n) = if leb 1000000000 n && ltb n 10000000000 then pos (n * 1000) else pos n
number_timestamp (negsuc n) =
    if leb 1000000000 (suc n) && ltb (suc n) 10000000000 then negsuc (n * 1000 + 999) else negsuc n

-- What the language reads in a string: the whole part of `Number(text)`, where it is finite, and
-- `Date.parse(text)`; and its changes of case, which go by the tables of Unicode.
pub record Readers : Type 0 where
  pub to_number : Text → Option ℤ
  pub parse_date : Text → Option ℤ
  pub to_upper_case : Text → Text
  pub to_lower_case : Text → Text

module _ (r : Readers) where
  abbrev pub date_or_zero : Option ℤ → ℤ
  date_or_zero none = pos 0
  date_or_zero (some ms) = ms

  abbrev pub number_or_date : Text → Option ℤ → ℤ
  number_or_date trimmed (some n) = number_timestamp n
  number_or_date trimmed none = date_or_zero (r.parse_date (to_iso8601 trimmed))

  -- A `Date` cannot come from an indexer's answer.
  unfoldable pub as_timestamp : Value → ℤ
  unfolding trim
  as_timestamp missing = pos 0
  as_timestamp other = pos 0
  as_timestamp (bigint n) = pos 0
  as_timestamp (number n) = number_timestamp n
  as_timestamp (text t) =
      let trimmed = trim t in
      if trimmed === [] then pos 0 else number_or_date trimmed (r.to_number trimmed)

  -- The member of `allowed` with the name.
  abbrev pub named : {A : Type 0} → Text → List (Text × A) → A → A
  named upper [] fallback = fallback
  named upper ((name, a) ∷ allowed) fallback =
      let rest = named upper allowed fallback in if name === upper then a else rest

  unfoldable pub as_enum : {A : Type 0} → Value → List (Text × A) → A → A
  unfolding trim
  as_enum missing allowed fallback = fallback
  as_enum other allowed fallback = fallback
  as_enum (number n) allowed fallback = fallback
  as_enum (bigint n) allowed fallback = fallback
  as_enum (text t) allowed fallback = named (r.to_upper_case (trim t)) allowed fallback
