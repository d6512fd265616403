-- ===== src/Stream/Acceptable.antt =====
-- src/streams.ts: what `validateStreamParameters` accepts.
use stream_fi_sdk.Base.{
  ℕ, ◌+◌, ◌≤◌, ◌<◌, Bool, true, ◌||◌, Option, none, some, List, [], ◌∷◌, ◌++◌, ltb, ◌≡◌, ◌⊎◌, refl,
  sym, ◌∙◌, ap, arith, Bool-cases, inl, inr,
}
use stream_fi_sdk.Amount.{ℤ, to_stroops}
use stream_fi_sdk.Amount.Digits.{Text}
use stream_fi_sdk.Stream.Validate.{
  StreamConfig, Invalid, same_text, native_token, usdc_token, exceeds_zero, effective_start,
  implied_stop, or_else, effective_stop, is_given, is_defined, is_address, check_recipient,
  check_sender, check_token, check_deposit, check_duration, check_rate, check_given, check_start,
  check_stop, validate_stream_parameters, IsAcceptable,
}

append_empty : (xs ys : List Invalid) → xs ++ ys ≡ [] → (xs ≡ []) × (ys ≡ [])
append_empty [] ys h = (refl, h)
append_empty (x ∷ xs) ys h = absurd (cc h)

-- A test that passes only when its last branch does.
exceeds_zero_lem : (o : Option ℕ) → exceeds_zero o ≡ true → (n : ℕ) × (o ≡ some n) × (0 < n)
exceeds_zero_lem none h = absurd (cc h)
exceeds_zero_lem (some n) h = (n, refl, ground arith)

stop_given :
    (duration stop end : Option ℕ) (start : ℕ)
    → (exceeds_zero duration || is_given none || is_defined stop || is_defined end) ≡ true
    → (t : ℕ) × (or_else (or_else stop end) (implied_stop duration start) ≡ some t)
stop_given duration (some t) end start h = (t, refl)
stop_given duration none (some t) start h = (t, refl)
stop_given none none none start h = absurd (cc h)
stop_given (some d) none none start h =
    let long : ltb 0 d ≡ true = ground arith in (start + d, rw long refl)

module _ (is_valid_address : Text → Bool) (big_int_of : Text → Option ℤ)
    (double_power : ℕ → ℕ) where
  recipient_ok :
      (t : Text)
      → check_recipient is_valid_address big_int_of double_power t ≡ []
      → is_address is_valid_address big_int_of double_power t ≡ true
  recipient_ok t h = ground arith

  sender_ok :
      (o : Option Text)
      → check_sender is_valid_address big_int_of double_power o ≡ []
      → (t : Text) → o ≡ some t
      → is_address is_valid_address big_int_of double_power t ≡ true
  sender_ok none h t e = absurd (cc e)
  sender_ok (some t) h u e = ground arith

  token_ok :
      (t : Text)
      → check_token is_valid_address big_int_of double_power t ≡ []
      → ((same_text t native_token || same_text t usdc_token) ≡ true)
        ⊎ (is_address is_valid_address big_int_of double_power t ≡ true)
  token_ok t h = elim (Bool-cases (same_text t native_token || same_text t usdc_token)) [
    | inl e ↦ inl e
    | inr e ↦ inr (ground arith)
  ]

  deposit_ok :
      (t : Text)
      → check_deposit is_valid_address big_int_of double_power t ≡ []
      → exceeds_zero (to_stroops double_power t 7) ≡ true
  deposit_ok t h = ground arith

  duration_ok :
      (o : Option ℕ)
      → check_duration is_valid_address big_int_of double_power o ≡ []
      → (d : ℕ) → o ≡ some d
      → 3600 ≤ d
  duration_ok none h d e = absurd (cc e)
  duration_ok (some d) h c e = ground arith

  start_ok :
      (o : Option ℕ) (now : ℕ)
      → check_start is_valid_address big_int_of double_power o now ≡ []
      → (t : ℕ) → o ≡ some t
      → now ≤ t
  start_ok none now h t e = absurd (cc e)
  start_ok (some t) now h u e = ground arith

  stop_ok :
      (o : Option ℕ) (start : ℕ)
      → check_stop is_valid_address big_int_of double_power o start ≡ []
      → (t : ℕ) → o ≡ some t
      → start < t
  stop_ok none start h t e = absurd (cc e)
  stop_ok (some t) start h u e = ground arith

  given_ok :
      (p : StreamConfig)
      → check_given is_valid_address big_int_of double_power p ≡ []
      → (exceeds_zero p.duration_seconds
          || is_given p.rate_per_second
          || is_defined p.stop_time
          || is_defined p.end_time)
        ≡ true
  given_ok p h = ground arith

  -- Parameters without an error pay a positive amount that reads as such, to a valid address, in a
  -- token that is known or a valid address. A sender that is given is a valid address, a duration that
  -- is given is an hour at least, and a start that is given has not passed. A time to stop is later than
  -- the start, and without a rate there is one.
  pub validate_stream_parameters-IsAcceptable :
      (p : StreamConfig) (now : ℕ)
      → validate_stream_parameters is_valid_address big_int_of double_power p now ≡ []
      → IsAcceptable is_valid_address big_int_of double_power p now
  unfolding validate_stream_parameters effective_stop
  validate_stream_parameters-IsAcceptable p now h =
      let (r, h1) =
        append_empty (check_recipient is_valid_address big_int_of double_power p.recipient) _ h in
      let (s, h2) =
        append_empty (check_sender is_valid_address big_int_of double_power p.sender) _ h1 in
      let (t, h3) =
        append_empty (check_token is_valid_address big_int_of double_power p.token) _ h2 in
      let (d, h4) =
        append_empty (check_deposit is_valid_address big_int_of double_power p.deposit_amount) _
          h3 in
      let (l, h5) =
        append_empty (check_duration is_valid_address big_int_of double_power p.duration_seconds) _
          h4 in
      let (_, h6) =
        append_empty (check_rate is_valid_address big_int_of double_power p.rate_per_second) _ h5 in
      let (g, h7) = append_empty (check_given is_valid_address big_int_of double_power p) _ h6 in
      let (b, e) =
        append_empty (check_start is_valid_address big_int_of double_power p.start_time now) _ h7 in
      record {
        pays_address = recipient_ok p.recipient r;
        sent_by = sender_ok p.sender s;
        in_token = token_ok p.token t;
        pays =
            exceeds_zero_lem (to_stroops double_power p.deposit_amount 7)
              (deposit_ok p.deposit_amount d);
        lasts = duration_ok p.duration_seconds l;
        starts = start_ok p.start_time now b;
        bounded = λ n.
            stop_given p.duration_seconds p.stop_time p.end_time (effective_start p now) (
              ap
                (λ o.
                  exceeds_zero p.duration_seconds
                  || is_given o
                  || is_defined p.stop_time
                  || is_defined p.end_time)
                (sym n)
              ∙ given_ok p g);
        ends = stop_ok (effective_stop p now) (effective_start p now) e;
      }
