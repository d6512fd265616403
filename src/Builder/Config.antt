-- ===== src/Builder/Config.antt =====
-- src/builder.ts: the fields of `StreamBuilder`, their setters, `validate`, `build`, and what `reset` and
-- `clone` do to the fields. A setter that throws gives `none`. The checks of addresses are the Stellar SDK's;
-- a `number` is a double, of which only these operations are used.
pub mod Sound
use stream_fi_sdk.Base.{
  ℕ, zero, suc, ◌-◌, Bool, true, false, not, ◌&&◌, ◌||◌, Option, none, some, List, [], ◌∷◌, ◌++◌,
  String, ltb, ◌===◌, if◌then◌else◌,
}
use stream_fi_sdk.Amount.{ℤ, pos, negsuc, magnitude, sign}
use stream_fi_sdk.Amount.Digits.{Text, big_int, to_string}
use stream_fi_sdk.Texts.{text_eq, trim, integer_of}

pub record Environment : Type 1 where
  pub Number : Type 0
  pub is_positive : Number → Bool
  pub number_of : Text → Number
  pub string_of : Number → Text
  pub is_valid_contract : Text → Bool
  pub is_valid_address : Text → Bool

pub data Quantity (Number : Type 0) : Type 0 where
  number : Number → Quantity Number
  bigint : ℤ → Quantity Number

-- What a setter is given.
pub data Given (Number : Type 0) : Type 0 where
  quantity : Quantity Number → Given Number
  text : Text → Given Number

pub record Fields (Number : Type 0) : Type 0 where
  pub token : Option Text
  pub sender : Option Text
  pub recipient : Option Text
  pub amount : Option (Quantity Number)
  pub rate_per_second : Option (Quantity Number)
  pub start_time : Option ℕ
  pub end_time : Option ℕ
  pub clawback_enabled : Option Bool
  pub cancelable : Option Bool
  pub clawbackable : Option Bool

pub record Payload : Type 0 where
  pub token : Text
  pub sender : Text
  pub recipient : Text
  pub amount : Text
  pub rate_per_second : Option Text
  pub start_time : Option ℕ
  pub end_time : Option ℕ
  pub clawback_enabled : Option Bool
  pub cancelable : Option Bool
  pub clawbackable : Option Bool

pub data Issue : Type 0 where
  token_required sender_required recipient_required amount_required : Issue

pub data Built : Type 0 where
  built : Payload → Built
  destroyed : Built
  invalid : List Issue → Built

unfoldable pub no_fields : {Number : Type 0} → Fields Number
no_fields = record {
  token = none;
  sender = none;
  recipient = none;
  amount = none;
  rate_per_second = none;
  start_time = none;
  end_time = none;
  clawback_enabled = none;
  cancelable = none;
  clawbackable = none;
}

abbrev pub issue_if_missing : {A : Type 0} → Issue → Option A → List Issue
issue_if_missing issue none = issue ∷ []
issue_if_missing issue (some a) = []

unfoldable pub validate : {Number : Type 0} → Fields Number → List Issue
validate f =
    issue_if_missing token_required f.token
    ++ (issue_if_missing sender_required f.sender
        ++ (issue_if_missing recipient_required f.recipient
            ++ issue_if_missing amount_required f.amount))

-- `reset`, which leaves two of the fields.
unfoldable pub reset_fields : {Number : Type 0} → Fields Number → Fields Number
reset_fields f = record f {
  token = none;
  sender = none;
  recipient = none;
  amount = none;
  rate_per_second = none;
  start_time = none;
  end_time = none;
  clawback_enabled = none;
}

-- `clone`, which copies neither of the two.
unfoldable pub clone_fields : {Number : Type 0} → Fields Number → Fields Number
clone_fields f = record f { cancelable = none; clawbackable = none }

-- The integer of the digits, with its sign.
abbrev pub signed : Bool → ℕ → ℤ
signed true zero = pos zero
signed true (suc n) = negsuc n
signed false n = pos n

module _ (env : Environment) where
  open env use {Number, is_positive, number_of, string_of, is_valid_contract, is_valid_address}

  abbrev pub quantity_of : Text → Option (Bool × Text) → Quantity Number
  quantity_of trimmed none = number (number_of trimmed)
  quantity_of trimmed (some (negative, digits)) = bigint (signed negative (big_int digits))

  abbrev pub normalized : Given Number → Quantity Number
  normalized (quantity q) = q
  normalized (text t) = quantity_of (trim t) (integer_of (trim t))

  abbrev pub is_positive_integer : ℤ → Bool
  is_positive_integer (pos n) = ltb 0 n
  is_positive_integer (negsuc n) = false

  abbrev pub is_positive_quantity : Quantity Number → Bool
  is_positive_quantity (number x) = is_positive x
  is_positive_quantity (bigint n) = is_positive_integer n

  -- `amount` and `ratePerSecond` check their values alike.
  unfoldable pub checked_quantity : Given Number → Option (Quantity Number)
  unfolding trim big_int
  checked_quantity given =
      let q = normalized given in if is_positive_quantity q then some q else none

  unfoldable pub validate_address : (Text → Bool) → Text → Option Text
  unfolding trim
  validate_address is_valid address =
      if trim address === [] then none else if is_valid address then some address else none

  -- The calls of the setters; a time is `none` if it is not an integer or is negative. `startTime` comes
  -- with the time of the call.
  pub data Setter : Type 0 where
    token sender recipient : Text → Setter
    amount rate_per_second : Given Number → Setter
    start_time : ℕ → Option ℕ → Setter
    end_time : Option ℕ → Setter
    clawback_enabled set_cancelable set_clawbackable : Bool → Setter
    resets : Setter

  abbrev pub checked_start : ℕ → Option ℕ → Option ℕ
  checked_start now none = none
  checked_start now (some val) = if ltb val now then none else some val

  -- The fields after the call; a value that was refused leaves them.
  abbrev pub set_or_keep :
      {A : Type 0} → Fields Number → Option A → (A → Fields Number) → Fields Number
  set_or_keep f none set = f
  set_or_keep f (some a) set = set a

  unfoldable pub call_setter : Fields Number → Setter → Fields Number
  unfolding checked_quantity validate_address reset_fields
  call_setter f (token address) =
      set_or_keep f (validate_address is_valid_contract address) (λ a. record f { token = some a })
  call_setter f (sender address) =
      set_or_keep f (validate_address is_valid_address address) (λ a. record f { sender = some a })
  call_setter f (recipient address) =
      set_or_keep f (validate_address is_valid_address address)
        (λ a. record f { recipient = some a })
  call_setter f (amount given) =
      set_or_keep f (checked_quantity given) (λ q. record f { amount = some q })
  call_setter f (rate_per_second given) =
      set_or_keep f (checked_quantity given) (λ q. record f { rate_per_second = some q })
  call_setter f (start_time now val) =
      set_or_keep f (checked_start now val) (λ t. record f { start_time = some t })
  call_setter f (end_time val) = set_or_keep f val (λ t. record f { end_time = some t })
  call_setter f (clawback_enabled val) = record f { clawback_enabled = some val }
  call_setter f (set_cancelable val) = record f { cancelable = some val }
  call_setter f (set_clawbackable val) = record f {
    clawbackable = some val;
    clawback_enabled = some val;
  }
  call_setter f resets = reset_fields f

  unfoldable pub call_setters : Fields Number → List Setter → Fields Number
  unfolding call_setter
  call_setters f [] = f
  call_setters f (setter ∷ setters) = call_setters (call_setter f setter) setters

  abbrev pub text_of : Quantity Number → Text
  text_of (number x) = string_of x
  text_of (bigint n) = sign n ++ to_string (magnitude n)

  abbrev pub text_of_option : Option (Quantity Number) → Option Text
  text_of_option none = none
  text_of_option (some q) = some (text_of q)

  abbrev pub payload_of :
      Fields Number → Option Text → Option Text → Option Text → Option (Quantity Number) → Built
  payload_of f (some t) (some s) (some r) (some a) = built (record {
    token = t;
    sender = s;
    recipient = r;
    amount = text_of a;
    rate_per_second = text_of_option f.rate_per_second;
    start_time = f.start_time;
    end_time = f.end_time;
    clawback_enabled = f.clawback_enabled;
    cancelable = f.cancelable;
    clawbackable = f.clawbackable;
  })
  payload_of f t s r a = invalid (validate f)

  unfoldable pub build : Bool → Fields Number → Built
  unfolding validate
  build is_destroyed f =
      if is_destroyed then destroyed else payload_of f f.token f.sender f.recipient f.amount
