-- ===== src/Errors.antt =====
-- src/errors.ts: the contracts' error codes, and how a code is found in what was thrown and becomes a typed
-- error. The causes of an error are a function of the depth, so that a cyclic chain is one too.
pub mod Found
pub mod Parse
pub mod Kept
pub mod Hints
pub mod Translate
pub mod Recoverable
use stream_fi_sdk.Base.{
  ◌*◌, ◌/◌, ◌%◌, ltb, length, ℕ, zero, suc, ◌+◌, Bool, true, false, not, ◌&&◌, ◌||◌, Option, none,
  some, List, [], ◌∷◌, ◌++◌, String, ◌==◌, filter, if◌then◌else◌,
}
use stream_fi_sdk.Amount.{ℤ, pos, negsuc}
use stream_fi_sdk.Amount.Digits.{Text, is_digit, big_int}
use stream_fi_sdk.Texts.{codes, is_space}

pub data ConduitContract : Type 0 where
  stream factory governor : ConduitContract

abbrev pub stream_messages : List (ℕ × String)
stream_messages =
    (1, "Caller is not the sender or recipient of this stream.")
    ∷ (2, "Stream not found.")
    ∷ (3, "This stream has been cancelled.")
    ∷ (4, "Stream has not started yet.")
    ∷ (5, "Stream has passed its end time.")
    ∷ (6, "Nothing to withdraw — balance is zero.")
    ∷ (7, "Deposit is too small for the requested stream duration.")
    ∷ (8, "end_time must be greater than start_time.")
    ∷ (9, "Stream is already paused.")
    ∷ (10, "Stream is not currently paused.")
    ∷ (11, "Clawback was not enabled when this stream was created.")
    ∷ (12, "Integer overflow in stream calculation.")
    ∷ (13, "force_cancel called before the 30-day pause threshold elapsed.")
    ∷ (14, "Stream has already been initialized.")
    ∷ (15, "Amount must be greater than zero.")
    ∷ []

abbrev pub factory_messages : List (ℕ × String)
factory_messages =
    (1, "Factory has not been initialized.")
    ∷ (2, "Deposit must be greater than zero.")
    ∷ (3, "rate_per_sec must be greater than zero.")
    ∷ (4, "end_time must be greater than start_time.")
    ∷ (
      5,
      "Deposit doesn't cover rate_per_sec for at least one second, or the full declared duration.",
    )
    ∷ (6, "start_time cannot be in the past.")
    ∷ (7, "Factory has already been initialized.")
    ∷ (8, "rate_per_sec exceeds the governor's max_rate_per_second.")
    ∷ (9, "Stream duration is below the governor's min_duration_seconds.")
    ∷ (10, "Integer overflow validating deposit against duration.")
    ∷ []

abbrev pub governor_messages : List (ℕ × String)
governor_messages =
    (1, "Caller is not the current governor authority.")
    ∷ (2, "Parameter failed validation (e.g. fee_bps > 10_000, zero duration/rate).")
    ∷ (3, "Governor has already been initialized.")
    ∷ []

abbrev pub messages_by_contract : ConduitContract → List (ℕ × String)
messages_by_contract stream = stream_messages
messages_by_contract factory = factory_messages
messages_by_contract governor = governor_messages

-- `code in messages`
abbrev pub has_code : ℕ → List (ℕ × String) → Bool
has_code code [] = false
has_code code ((c, message) ∷ messages) = c == code || has_code code messages

-- The `code` of an object.
pub data Code : Type 0 where
  absent fraction other : Code
  integer : ℤ → Code

-- One value of a chain of causes: null or undefined, a string, an object, or another primitive.
pub data Thrown : Type 0 where
  nullish primitive : Thrown
  text : Text → Thrown
  object : Code → Thrown
  error : Code → Text → Thrown

-- `\s*#(\d+)\)` at the start of a text, after the spaces; `digits` are those read before.
abbrev pub digits_to_bracket : Text → Text → Option Text
digits_to_bracket digits [] = none
digits_to_bracket digits (c ∷ cs) =
    let more = digits_to_bracket (digits ++ c ∷ []) cs in
    if is_digit c then more else if c == 41 then some digits else none

abbrev pub nonempty : Option Text → Option Text
nonempty none = none
nonempty (some []) = none
nonempty (some (d ∷ ds)) = some (d ∷ ds)

abbrev pub after_spaces : Text → Option Text
after_spaces [] = none
after_spaces (c ∷ cs) =
    let later = after_spaces cs in
    let digits = nonempty (digits_to_bracket [] cs) in
    if is_space c then later else if c == 35 then digits else none

-- What follows a prefix.
abbrev pub strip_prefix : Text → Text → Option Text
strip_prefix [] t = some t
strip_prefix (p ∷ ps) [] = none
strip_prefix (p ∷ ps) (c ∷ cs) = let rest = strip_prefix ps cs in if p == c then rest else none

abbrev pub then_spaces : Option Text → Option Text
then_spaces none = none
then_spaces (some t) = after_spaces t

abbrev pub or_else : Option Text → Option Text → Option Text
or_else none o = o
or_else (some t) o = some t

-- `/Error\(Contract,\s*#(\d+)\)/.exec(text)`, and the digits of its group.
unfoldable pub exec : Text → Option Text
exec [] = none
exec (c ∷ cs) = or_else (then_spaces (strip_prefix (codes "Error(Contract,") (c ∷ cs))) (exec cs)

abbrev pub exact_limit : ℕ
exact_limit = 9007199254740992

-- The nearest multiple of the unit, the even one halfway.
abbrev pub round_half_even : ℕ → ℕ → ℕ
round_half_even n unit =
    let q = n / unit in
    let twice = 2 * (n % unit) in
    if ltb twice unit
    then q * unit
    else if ltb unit twice
    then (q + 1) * unit
    else if q % 2 == 0
    then q * unit
    else (q + 1) * unit

-- The nearest double, with 53 binary digits at the unit that it takes.
unfoldable pub double_at : ℕ → ℕ → ℕ → ℕ
double_at zero n unit = n
double_at (suc fuel) n unit =
    let coarser = double_at fuel n (2 * unit) in
    if ltb n (exact_limit * unit) then round_half_even n unit else coarser

-- `Number` of digits, less than 1.8 * 10 ^ 308: a digit takes four binary digits at most.
unfoldable pub number : Text → ℕ
unfolding double_at big_int
number digits = double_at (suc (4 * length digits)) (big_int digits) 1

abbrev pub number_of : Option Text → Option ℕ
number_of none = none
number_of (some digits) = some (number digits)

abbrev pub positive_code : Code → Option ℕ
positive_code (integer (pos (suc n))) = some (suc n)
positive_code (integer (pos zero)) = none
positive_code (integer (negsuc n)) = none
positive_code absent = none
positive_code fraction = none
positive_code other = none

abbrev pub or_code : Option ℕ → Option ℕ → Option ℕ
or_code none o = o
or_code (some n) o = some n

-- The body of the loop, up to the step to the cause.
unfoldable pub code_of_value : Thrown → Option ℕ
unfolding exec number
code_of_value nullish = none
code_of_value primitive = none
code_of_value (text t) = number_of (exec t)
code_of_value (object code) = positive_code code
code_of_value (error code message) = or_code (positive_code code) (number_of (exec message))

abbrev pub is_nullish : Thrown → Bool
is_nullish nullish = true
is_nullish _ = false

unfoldable pub extract_from : ℕ → (ℕ → Thrown) → ℕ → Option ℕ
unfolding code_of_value
extract_from zero chain depth = none
extract_from (suc rounds) chain depth =
    let later = extract_from rounds chain (depth + 1) in
    if is_nullish (chain depth) then none else or_code (code_of_value (chain depth)) later

unfoldable pub extract_contract_error_code : (ℕ → Thrown) → Option ℕ
unfolding extract_from
extract_contract_error_code chain = extract_from 5 chain 0
