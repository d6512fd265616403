-- ===== src/Errors/Kept.antt =====
-- src/errors.ts: a parsed error keeps the contract and the code that were found.
use stream_fi_sdk.Base.{
  ℕ, ◌≡◌, refl, sym, false, ◌&&◌, Option, none, some, [], ◌∷◌, ◌==◌, leb, ==_iff, if◌then◌else◌,
  if_cases, Bool-cases, inl, inr, arith,
}
use stream_fi_sdk.Amount.{ℤ}
use stream_fi_sdk.Amount.Digits.{Text}
use stream_fi_sdk.Errors.{
  ConduitContract, stream, factory, governor, stream_messages, factory_messages, governor_messages,
  messages_by_contract, has_code, Thrown, extract_contract_error_code,
}
use stream_fi_sdk.Errors.Parse.{
  ConduitError, contract_of, code_of, plain, or_unauthorized, or_not_found, or_invalid_state,
  has_state, ContractErrorContext, Parsed, unchanged, wrapped, contract_error, typed, typed_error,
  contracts_defining_code, parse_scoped, parse_code, parse_contract_error,
}

-- The contract and the code that a result names.
abbrev pub named_contract : Parsed → Option ConduitContract
named_contract unchanged = none
named_contract wrapped = none
named_contract (contract_error contract code) = contract
named_contract (typed e) = some (contract_of e)

abbrev pub named_code : Parsed → Option ℕ
named_code unchanged = none
named_code wrapped = none
named_code (contract_error contract code) = some code
named_code (typed e) = some (code_of e)

-- The only contract that has the code.
abbrev pub sole_contract : ℕ → Option ConduitContract
sole_contract code = if leb 11 code && leb code 15 then some stream else none

abbrev pub contract_or_sole : Option ConduitContract → ℕ → Option ConduitContract
contract_or_sole none code = sole_contract code
contract_or_sole (some contract) code = some contract

has_stream_code : (code : ℕ) → has_code code stream_messages ≡ (leb 1 code && leb code 15)
has_stream_code code = ground arith

has_factory_code : (code : ℕ) → has_code code factory_messages ≡ (leb 1 code && leb code 10)
has_factory_code code = ground arith

has_governor_code : (code : ℕ) → has_code code governor_messages ≡ (leb 1 code && leb code 3)
has_governor_code code = ground arith

-- An error of the stream contract with the code.
abbrev Keeps : ℕ → ConduitError → Type 0
Keeps code e = (contract_of e ≡ stream) × (code_of e ≡ code)

typed_error_keeps :
    (contract : ConduitContract) (code : ℕ) (context : ContractErrorContext)
    → (contract_of (typed_error contract code context) ≡ contract)
      × (code_of (typed_error contract code context) ≡ code)
typed_error_keeps governor code context = ground arith
typed_error_keeps factory code context = ground arith
typed_error_keeps stream code context =
    if_cases (Keeps code) (code == 11) (λ e. (refl, sym ((==_iff code 11).0 e)))
      (λ _.
        if_cases (Keeps code) (code == 1)
          (λ e. unauthorized_keeps context.operation context.caller ((==_iff code 1).0 e))
          (λ _.
            if_cases (Keeps code) (code == 2)
              (λ e. not_found_keeps context.stream_id ((==_iff code 2).0 e))
              (λ _.
                if_cases (Keeps code) (has_state code) (λ _. invalid_state_keeps context.operation)
                  (λ _. (refl, refl)))))
  where
    unauthorized_keeps :
        (operation caller : Option Text)
        → code ≡ 1
        → Keeps code (or_unauthorized (plain stream code) operation caller)
    unauthorized_keeps none caller e = (refl, refl)
    unauthorized_keeps (some []) caller e = (refl, refl)
    unauthorized_keeps (some (o ∷ os)) none e = (refl, refl)
    unauthorized_keeps (some (o ∷ os)) (some []) e = (refl, refl)
    unauthorized_keeps (some (o ∷ os)) (some (c ∷ cs)) e = (refl, sym e)

    not_found_keeps : (id : Option ℤ) → code ≡ 2 → Keeps code (or_not_found (plain stream code) id)
    not_found_keeps none e = (refl, refl)
    not_found_keeps (some id) e = (refl, sym e)

    invalid_state_keeps :
        (operation : Option Text) → Keeps code (or_invalid_state (plain stream code) operation code)
    invalid_state_keeps none = (refl, refl)
    invalid_state_keeps (some []) = (refl, refl)
    invalid_state_keeps (some (o ∷ os)) = (refl, refl)

parse_scoped_keeps :
    (contract : ConduitContract) (code : ℕ) (context : ContractErrorContext)
    → (named_contract (parse_scoped contract code context) ≡ some contract)
      × (named_code (parse_scoped contract code context) ≡ some code)
unfolding parse_scoped
parse_scoped_keeps contract code context =
    let kept = typed_error_keeps contract code context in
    if_cases (λ p. (named_contract p ≡ some contract) × (named_code p ≡ some code))
      (has_code code (messages_by_contract contract)) (λ _. ground (arith, kept))
      (λ _. (refl, refl))

defining :
    (code : ℕ)
    → contracts_defining_code code ≡ (
        if leb 11 code && leb code 15
        then stream ∷ []
        else if leb 1 code && leb code 3
        then stream ∷ factory ∷ governor ∷ []
        else if leb 4 code && leb code 10
        then stream ∷ factory ∷ []
        else [])
unfolding contracts_defining_code
defining code = ground (arith, has_stream_code code, has_factory_code code, has_governor_code code)

parse_code_keeps :
    (contract : Option ConduitContract) (code : ℕ) (context : ContractErrorContext)
    → (named_contract (parse_code contract code context) ≡ contract_or_sole contract code)
      × (named_code (parse_code contract code context) ≡ some code)
parse_code_keeps (some contract) code context = parse_scoped_keeps contract code context
parse_code_keeps none code context =
    let kept = parse_scoped_keeps stream code context in
    elim (Bool-cases (leb 11 code && leb code 15)) [
      | inl e ↦ rw (defining code, e) kept
      | inr f ↦
          rw (defining code, f)
            (elim (Bool-cases (leb 1 code && leb code 3)) [
              | inl e ↦ rw e (refl, refl)
              | inr g ↦ elim (Bool-cases (leb 4 code && leb code 10)) [
                | inl e ↦ rw (g, e) (refl, refl)
                | inr h ↦ rw (g, h) (refl, refl)
              ]
            ])
    ]

-- If a code is found in an error that is no `ConduitError` yet, the result names this code, and the
-- contract that is given; where none is given, the codes from 11 to 15 name the stream contract, and no
-- other code names a contract. This includes a code that no contract has raised, as the 20 of the
-- platform's `AbortError`.
pub parse_contract_error-keeps :
    (chain : ℕ → Thrown) (contract : Option ConduitContract) (code : ℕ)
    (context : ContractErrorContext)
    → extract_contract_error_code chain ≡ some code
    → (named_contract (parse_contract_error false chain contract context)
        ≡ contract_or_sole contract code)
      × (named_code (parse_contract_error false chain contract context) ≡ some code)
unfolding parse_contract_error
parse_contract_error-keeps chain contract code context e =
    rw e (parse_code_keeps contract code context)
