-- ===== src/Builder/Config/Sound.antt =====
-- src/builder.ts: what `build` gives after any calls of the setters.
use stream_fi_sdk.Base.{
  ◌≡◌, ◌≢◌, ◌⊎◌, inl, inr, refl, subst, Bool, true, false, Option, none, some, List, [], ◌∷◌, ◌===◌,
  Bool-cases,
}
use stream_fi_sdk.Amount.Digits.{Text}
use stream_fi_sdk.Texts.{text_eq, trim}
use stream_fi_sdk.Builder.Config.{
  Environment, Quantity, Given, Fields, Payload, built, invalid, validate, is_positive_quantity,
  normalized, checked_quantity, set_or_keep, checked_start, validate_address, Setter, token, sender,
  recipient, amount, rate_per_second, start_time, end_time, clawback_enabled, set_cancelable,
  set_clawbackable, resets, call_setter, call_setters, no_fields, reset_fields, text_of, build,
}

-- A field that is set has the property.
abbrev pub IfSet : {A : Type 0} → (A → Type 0) → Option A → Type 0
IfSet P none = Unit
IfSet P (some a) = P a

IfSet-unit : {A : Type 0} (o : Option A) → IfSet {A = A} (λ t. Unit {0}) o
IfSet-unit none = tt
IfSet-unit (some a) = tt

module _ (env : Environment) where
  open env use {Number, is_valid_contract, is_valid_address}

  abbrev pub Passes : (Text → Bool) → Text → Type 0
  Passes check t = (check t ≡ true) × ((trim t === []) ≡ false)

  pub record IsSound (f : Fields Number) : Type 0 where
    pub token_ok : IfSet (Passes is_valid_contract) f.token
    pub sender_ok : IfSet (Passes is_valid_address) f.sender
    pub recipient_ok : IfSet (Passes is_valid_address) f.recipient
    pub amount_ok : IfSet (λ q. is_positive_quantity env q ≡ true) f.amount
    pub rate_ok : IfSet (λ q. is_positive_quantity env q ≡ true) f.rate_per_second

  validate_address-IfSet :
      (check : Text → Bool) (t : Text) → IfSet (Passes check) (validate_address env check t)
  unfolding validate_address
  validate_address-IfSet check t = elim (Bool-cases (trim t === [])) [
    | inl e ↦ rw e tt
    | inr f ↦ elim (Bool-cases (check t)) [ inl e ↦ rw (f, e) (e, f) | inr n ↦ rw (f, n) tt ]
  ]

  checked_quantity-IfSet :
      (g : Given Number) → IfSet (λ q. is_positive_quantity env q ≡ true) (checked_quantity env g)
  unfolding checked_quantity
  checked_quantity-IfSet g = elim (Bool-cases (is_positive_quantity env (normalized env g))) [
    | inl e ↦ rw e e
    | inr n ↦ rw n tt
  ]

  -- A setter's effect, from what its check lets through.
  set_or_keep-IsSound :
      {A : Type 0} (P : A → Type 0) (f : Fields Number) (o : Option A) (set : A → Fields Number)
      → IsSound f
      → IfSet P o
      → ((a : A) → P a → IsSound (set a))
      → IsSound (set_or_keep env f o set)
  set_or_keep-IsSound P f none set v h k = v
  set_or_keep-IsSound P f (some a) set v h k = k a h

  call_setter-IsSound :
      (f : Fields Number) (s : Setter env) → IsSound f → IsSound (call_setter env f s)
  unfolding call_setter reset_fields
  call_setter-IsSound f (token t) v =
      set_or_keep-IsSound (Passes is_valid_contract) f _ _ v
        (validate_address-IfSet is_valid_contract t)
        (λ a p. record {
          token_ok = p;
          sender_ok = v.sender_ok;
          recipient_ok = v.recipient_ok;
          amount_ok = v.amount_ok;
          rate_ok = v.rate_ok;
        })
  call_setter-IsSound f (sender t) v =
      set_or_keep-IsSound (Passes is_valid_address) f _ _ v
        (validate_address-IfSet is_valid_address t)
        (λ a p. record {
          token_ok = v.token_ok;
          sender_ok = p;
          recipient_ok = v.recipient_ok;
          amount_ok = v.amount_ok;
          rate_ok = v.rate_ok;
        })
  call_setter-IsSound f (recipient t) v =
      set_or_keep-IsSound (Passes is_valid_address) f _ _ v
        (validate_address-IfSet is_valid_address t)
        (λ a p. record {
          token_ok = v.token_ok;
          sender_ok = v.sender_ok;
          recipient_ok = p;
          amount_ok = v.amount_ok;
          rate_ok = v.rate_ok;
        })
  call_setter-IsSound f (amount g) v =
      set_or_keep-IsSound (λ q. is_positive_quantity env q ≡ true) f _ _ v
        (checked_quantity-IfSet g)
        (λ a p. record {
          token_ok = v.token_ok;
          sender_ok = v.sender_ok;
          recipient_ok = v.recipient_ok;
          amount_ok = p;
          rate_ok = v.rate_ok;
        })
  call_setter-IsSound f (rate_per_second g) v =
      set_or_keep-IsSound (λ q. is_positive_quantity env q ≡ true) f _ _ v
        (checked_quantity-IfSet g)
        (λ a p. record {
          token_ok = v.token_ok;
          sender_ok = v.sender_ok;
          recipient_ok = v.recipient_ok;
          amount_ok = v.amount_ok;
          rate_ok = p;
        })
  call_setter-IsSound f (start_time now val) v =
      set_or_keep-IsSound (λ t. Unit {0}) f (checked_start env now val) _ v
        (IfSet-unit (checked_start env now val))
        (λ a p. record {
          token_ok = v.token_ok;
          sender_ok = v.sender_ok;
          recipient_ok = v.recipient_ok;
          amount_ok = v.amount_ok;
          rate_ok = v.rate_ok;
        })
  call_setter-IsSound f (end_time val) v =
      set_or_keep-IsSound (λ t. Unit {0}) f val _ v (IfSet-unit val)
        (λ a p. record {
          token_ok = v.token_ok;
          sender_ok = v.sender_ok;
          recipient_ok = v.recipient_ok;
          amount_ok = v.amount_ok;
          rate_ok = v.rate_ok;
        })
  call_setter-IsSound f resets v = record {
    token_ok = tt;
    sender_ok = tt;
    recipient_ok = tt;
    amount_ok = tt;
    rate_ok = tt;
  }
  call_setter-IsSound f (clawback_enabled val) v = record {
    token_ok = v.token_ok;
    sender_ok = v.sender_ok;
    recipient_ok = v.recipient_ok;
    amount_ok = v.amount_ok;
    rate_ok = v.rate_ok;
  }
  call_setter-IsSound f (set_cancelable val) v = record {
    token_ok = v.token_ok;
    sender_ok = v.sender_ok;
    recipient_ok = v.recipient_ok;
    amount_ok = v.amount_ok;
    rate_ok = v.rate_ok;
  }
  call_setter-IsSound f (set_clawbackable val) v = record {
    token_ok = v.token_ok;
    sender_ok = v.sender_ok;
    recipient_ok = v.recipient_ok;
    amount_ok = v.amount_ok;
    rate_ok = v.rate_ok;
  }

  call_setters-IsSound :
      (setters : List (Setter env)) (f : Fields Number)
      → IsSound f
      → IsSound (call_setters env f setters)
  unfolding call_setters
  call_setters-IsSound [] f v = v
  call_setters-IsSound (s ∷ setters) f v =
      call_setters-IsSound setters (call_setter env f s) (call_setter-IsSound f s v)

  -- The addresses of a payload pass their checks, and its amount is the text of a positive quantity.
  pub record IsPayload (p : Payload) : Type 0 where
    pub token_ok : Passes is_valid_contract p.token
    pub sender_ok : Passes is_valid_address p.sender
    pub recipient_ok : Passes is_valid_address p.recipient
    pub amount_ok :
        (q : Quantity Number) × (is_positive_quantity env q ≡ true) × (p.amount ≡ text_of env q)

  -- Either fields are missing and all of them are named, or there is a payload and it is sound.
  abbrev pub BuildsWell : Fields Number → Type 0
  BuildsWell f =
      ((build env false f ≡ invalid (validate f)) × (validate f ≢ []))
      ⊎ ((p : Payload) × (build env false f ≡ built p) × (validate f ≡ []) × IsPayload p)

  payload_of-BuildsWell :
      (f : Fields Number) (t s r : Option Text) (a : Option (Quantity Number))
      → f.token ≡ t
      → f.sender ≡ s
      → f.recipient ≡ r
      → f.amount ≡ a
      → IsSound f
      → BuildsWell f
  unfolding build validate
  payload_of-BuildsWell f (some t) (some s) (some r) (some a) et es er ea v =
      rw (et, es, er, ea)
        (inr (
          _,
          refl,
          refl,
          record {
            token_ok = subst (IfSet (Passes is_valid_contract)) et v.token_ok;
            sender_ok = subst (IfSet (Passes is_valid_address)) es v.sender_ok;
            recipient_ok = subst (IfSet (Passes is_valid_address)) er v.recipient_ok;
            amount_ok =
                (a, subst (IfSet (λ q. is_positive_quantity env q ≡ true)) ea v.amount_ok, refl);
          },
        ))
  payload_of-BuildsWell f none s r a et es er ea v = rw et (inl (refl, λ e. cc))
  payload_of-BuildsWell f (some t) none r a et es er ea v = rw (et, es) (inl (refl, λ e. cc))
  payload_of-BuildsWell f (some t) (some s) none a et es er ea v =
      rw (et, es, er) (inl (refl, λ e. cc))
  payload_of-BuildsWell f (some t) (some s) (some r) none et es er ea v =
      rw (et, es, er, ea) (inl (refl, λ e. cc))

  -- After any calls of the setters and of `reset`, those that throw included, a build of a builder that is
  -- not destroyed either fails and names missing fields, or none is missing and it gives a payload whose
  -- addresses pass their checks and whose amount is the text of a positive quantity.
  pub build-IsPayload :
      (setters : List (Setter env)) → BuildsWell (call_setters env no_fields setters)
  build-IsPayload setters =
      let f = call_setters env no_fields setters in
      payload_of-BuildsWell f f.token f.sender f.recipient f.amount refl refl refl refl (
        call_setters-IsSound setters no_fields (
          unfold no_fields in
          (record {
            token_ok = tt;
            sender_ok = tt;
            recipient_ok = tt;
            amount_ok = tt;
            rate_ok = tt;
          })))
