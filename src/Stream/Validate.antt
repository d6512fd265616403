-- ===== src/Stream/Validate.antt =====
-- src/streams.ts: `validateStreamParameters`. Strings are lists of code units, an option that is left
-- out is `none`, and times and durations are whole numbers. `isValidAddress`, which asks the Stellar
-- SDK, `BigInt` of any string and `10 ** decimals` are parameters.
use stream_fi_sdk.Base.{
  ℕ, ◌+◌, ◌≤◌, ◌<◌, Bool, true, false, not, ◌&&◌, ◌||◌, Option, none, some, List, [], ◌∷◌, ◌++◌,
  ltb, leb, ◌==◌, if◌then◌else◌, length, ◌≡◌, ◌⊎◌,
}
use stream_fi_sdk.Amount.{ℤ, pos, negsuc, to_stroops}
use stream_fi_sdk.Amount.Digits.{Text}
use stream_fi_sdk.Duration.{is_empty, trim_start, trim_end}

pub record StreamConfig : Type 0 where
  pub recipient : Text
  pub token : Text
  pub deposit_amount : Text
  pub duration_seconds : Option ℕ
  pub rate_per_second : Option Text
  pub start_time : Option ℕ
  pub stop_time : Option ℕ
  pub end_time : Option ℕ
  pub sender : Option Text

-- The messages, in the order of the checks.
pub data Invalid : Type 0 where
  recipient_empty recipient_address sender_address token_empty token_address deposit_empty : Invalid
  deposit_not_positive duration_not_positive duration_too_short rate_empty : Invalid
  rate_not_positive no_duration_or_rate start_in_past stop_before_start : Invalid

abbrev pub min_stream_duration_seconds : ℕ
min_stream_duration_seconds = 3600

-- `!text || !text.trim()`
abbrev pub is_blank : Text → Bool
is_blank t = is_empty (trim_end (trim_start t))

abbrev pub same_text : Text → Text → Bool
same_text [] [] = true
same_text [] (d ∷ ds) = false
same_text (c ∷ cs) [] = false
same_text (c ∷ cs) (d ∷ ds) = (c == d) && same_text cs ds

-- "native" and "USDC".
abbrev pub native_token : Text
native_token = 110 ∷ 97 ∷ 116 ∷ 105 ∷ 118 ∷ 101 ∷ []

abbrev pub usdc_token : Text
usdc_token = 85 ∷ 83 ∷ 68 ∷ 67 ∷ []

abbrev pub is_positive : Option ℤ → Bool
is_positive none = false
is_positive (some (pos n)) = ltb 0 n
is_positive (some (negsuc n)) = false

abbrev pub exceeds_zero : Option ℕ → Bool
exceeds_zero none = false
exceeds_zero (some n) = ltb 0 n

abbrev pub effective_start : StreamConfig → ℕ → ℕ
effective_start p now = elim p.start_time [ none ↦ now | some t ↦ t ]

abbrev pub implied_stop : Option ℕ → ℕ → Option ℕ
implied_stop none start = none
implied_stop (some duration) start = if ltb 0 duration then some (start + duration) else none

abbrev pub or_else : Option ℕ → Option ℕ → Option ℕ
or_else none b = b
or_else (some a) b = some a

-- The time to stop: as given, or after the duration.
unfoldable pub effective_stop : StreamConfig → ℕ → Option ℕ
effective_stop p now =
    or_else (or_else p.stop_time p.end_time)
      (implied_stop p.duration_seconds (effective_start p now))

abbrev pub is_given : Option Text → Bool
is_given none = false
is_given (some t) = not (is_empty t)

abbrev pub is_defined : Option ℕ → Bool
is_defined none = false
is_defined (some n) = true

module _ (is_valid_address : Text → Bool) (big_int_of : Text → Option ℤ)
    (double_power : ℕ → ℕ) where
  abbrev pub is_address : Text → Bool
  is_address t = (length t == 56) && is_valid_address t

  abbrev pub check_recipient : Text → List Invalid
  check_recipient t =
      if is_blank t
      then recipient_empty ∷ []
      else if is_address t
      then []
      else recipient_address ∷ []

  abbrev pub check_sender : Option Text → List Invalid
  check_sender none = []
  check_sender (some t) = if is_address t then [] else sender_address ∷ []

  abbrev pub check_token : Text → List Invalid
  check_token t =
      if is_blank t
      then token_empty ∷ []
      else if same_text t native_token || same_text t usdc_token
      then []
      else if is_address t
      then []
      else token_address ∷ []

  abbrev pub check_deposit : Text → List Invalid
  check_deposit t =
      if is_blank t
      then deposit_empty ∷ []
      else if exceeds_zero (to_stroops double_power t 7)
      then []
      else deposit_not_positive ∷ []

  abbrev pub check_duration : Option ℕ → List Invalid
  check_duration none = []
  check_duration (some d) =
      if leb d 0
      then duration_not_positive ∷ []
      else if ltb d min_stream_duration_seconds
      then duration_too_short ∷ []
      else []

  abbrev pub check_rate : Option Text → List Invalid
  check_rate none = []
  check_rate (some t) =
      if is_blank t
      then rate_empty ∷ []
      else if is_positive (big_int_of t)
      then []
      else rate_not_positive ∷ []

  abbrev pub check_given : StreamConfig → List Invalid
  check_given p =
      if exceeds_zero p.duration_seconds
        || is_given p.rate_per_second
        || is_defined p.stop_time
        || is_defined p.end_time
      then []
      else no_duration_or_rate ∷ []

  abbrev pub check_start : Option ℕ → ℕ → List Invalid
  check_start none now = []
  check_start (some t) now = if ltb t now then start_in_past ∷ [] else []

  abbrev pub check_stop : Option ℕ → ℕ → List Invalid
  check_stop none start = []
  check_stop (some t) start = if leb t start then stop_before_start ∷ [] else []

  -- The errors; the configuration is valid when there is none.
  unfoldable pub validate_stream_parameters : StreamConfig → ℕ → List Invalid
  validate_stream_parameters p now =
      check_recipient p.recipient
      ++ (check_sender p.sender
          ++ (check_token p.token
              ++ (check_deposit p.deposit_amount
                  ++ (check_duration p.duration_seconds
                      ++ (check_rate p.rate_per_second
                          ++ (check_given p
                              ++ (check_start p.start_time now
                                  ++ check_stop (effective_stop p now)
                                      (effective_start p now))))))))

  -- What a stream can be created from.
  pub record IsAcceptable (p : StreamConfig) (now : ℕ) : Type 0 where
    pub pays_address : is_address p.recipient ≡ true
    pub sent_by : (t : Text) → p.sender ≡ some t → is_address t ≡ true
    pub in_token :
        ((same_text p.token native_token || same_text p.token usdc_token) ≡ true)
        ⊎ (is_address p.token ≡ true)
    pub pays : (n : ℕ) × (to_stroops double_power p.deposit_amount 7 ≡ some n) × (0 < n)
    pub lasts : (d : ℕ) → p.duration_seconds ≡ some d → 3600 ≤ d
    pub starts : (t : ℕ) → p.start_time ≡ some t → now ≤ t
    pub bounded : (p.rate_per_second ≡ none) → (t : ℕ) × (effective_stop p now ≡ some t)
    pub ends : (t : ℕ) → effective_stop p now ≡ some t → effective_start p now < t
