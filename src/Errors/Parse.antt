-- ===== src/Errors/Parse.antt =====
-- src/errors.ts: `parseContractError` and the typed errors that it gives.
use stream_fi_sdk.Base.{
  ℕ, Bool, ◌||◌, Option, none, some, List, [], ◌∷◌, ◌==◌, filter, if◌then◌else◌,
}
use stream_fi_sdk.Amount.{ℤ}
use stream_fi_sdk.Amount.Digits.{Text}
use stream_fi_sdk.Errors.{
  ConduitContract, stream, factory, governor, messages_by_contract, has_code, Thrown, error,
  extract_contract_error_code,
}

-- The typed errors, each a `ConduitError`.
pub data ConduitError : Type 0 where
  plain : ConduitContract → ℕ → ConduitError
  governor_invalid_param rate_exceeds_max duration_too_short backdated_stream clawback_not_enabled :
      ConduitError
  unauthorized : Text → Text → ConduitError
  stream_not_found : ℤ → ConduitError
  invalid_stream_state : Text → ℕ → ConduitError

-- What the constructors pass to that of `ConduitError`.
abbrev pub contract_of : ConduitError → ConduitContract
contract_of (plain contract code) = contract
contract_of governor_invalid_param = governor
contract_of rate_exceeds_max = factory
contract_of duration_too_short = factory
contract_of backdated_stream = factory
contract_of clawback_not_enabled = stream
contract_of (unauthorized operation caller) = stream
contract_of (stream_not_found id) = stream
contract_of (invalid_stream_state operation code) = stream

abbrev pub code_of : ConduitError → ℕ
code_of (plain contract code) = code
code_of governor_invalid_param = 2
code_of rate_exceeds_max = 8
code_of duration_too_short = 9
code_of backdated_stream = 6
code_of clawback_not_enabled = 11
code_of (unauthorized operation caller) = 1
code_of (stream_not_found id) = 2
code_of (invalid_stream_state operation code) = code

-- A field that is not given is `none`. A stream's id is
-- what `BigInt` makes of it; an id that it cannot read is outside the model.
pub record ContractErrorContext : Type 0 where
  pub stream_id : Option ℤ
  pub operation : Option Text
  pub caller : Option Text

-- The original error, an `Error` made of its text, a `ContractError` with what is known, or a typed error.
pub data Parsed : Type 0 where
  unchanged wrapped : Parsed
  contract_error : Option ConduitContract → ℕ → Parsed
  typed : ConduitError → Parsed

-- An empty operation or caller counts as none, as the texts are tested for their truth.
abbrev pub or_unauthorized : ConduitError → Option Text → Option Text → ConduitError
or_unauthorized e none caller = e
or_unauthorized e (some []) caller = e
or_unauthorized e (some (o ∷ os)) none = e
or_unauthorized e (some (o ∷ os)) (some []) = e
or_unauthorized e (some (o ∷ os)) (some (c ∷ cs)) = unauthorized (o ∷ os) (c ∷ cs)

abbrev pub or_not_found : ConduitError → Option ℤ → ConduitError
or_not_found e none = e
or_not_found e (some id) = stream_not_found id

abbrev pub or_invalid_state : ConduitError → Option Text → ℕ → ConduitError
or_invalid_state e none code = e
or_invalid_state e (some []) code = e
or_invalid_state e (some (o ∷ os)) code = invalid_stream_state (o ∷ os) code

-- `code in STATE_BY_CODE`
abbrev pub has_state : ℕ → Bool
has_state code = code == 3 || (code == 4 || (code == 5 || (code == 9 || code == 10)))

-- The `switch` on the contract. A code has one of the tests at most.
abbrev pub typed_error : ConduitContract → ℕ → ContractErrorContext → ConduitError
typed_error governor code context =
    if code == 2 then governor_invalid_param else plain governor code
typed_error factory code context =
    if code == 8
    then rate_exceeds_max
    else if code == 9
    then duration_too_short
    else if code == 6
    then backdated_stream
    else plain factory code
typed_error stream code context =
    if code == 11
    then clawback_not_enabled
    else if code == 1
    then or_unauthorized (plain stream code) context.operation context.caller
    else if code == 2
    then or_not_found (plain stream code) context.stream_id
    else if has_state code
    then or_invalid_state (plain stream code) context.operation code
    else plain stream code

unfoldable pub contracts_defining_code : ℕ → List ConduitContract
contracts_defining_code code =
    filter (λ contract. has_code code (messages_by_contract contract))
      (stream ∷ factory ∷ governor ∷ [])

unfoldable pub parse_scoped : ConduitContract → ℕ → ContractErrorContext → Parsed
parse_scoped scope code context =
    if has_code code (messages_by_contract scope)
    then typed (typed_error scope code context)
    else contract_error (some scope) code

abbrev pub parse_sole : List ConduitContract → ℕ → ContractErrorContext → Parsed
parse_sole [] code context = contract_error none code
parse_sole (scope ∷ []) code context = parse_scoped scope code context
parse_sole (scope ∷ second ∷ others) code context = contract_error none code

abbrev pub parse_code : Option ConduitContract → ℕ → ContractErrorContext → Parsed
parse_code (some scope) code context = parse_scoped scope code context
parse_code none code context = parse_sole (contracts_defining_code code) code context

abbrev pub parse_found : Option ℕ → Thrown → Option ConduitContract → ContractErrorContext → Parsed
parse_found none (error code message) contract context = unchanged
parse_found none _ contract context = wrapped
parse_found (some code) value contract context = parse_code contract code context

-- An error that is a `ConduitError` already is returned as it is.
unfoldable pub parse_contract_error :
    Bool → (ℕ → Thrown) → Option ConduitContract → ContractErrorContext → Parsed
unfolding extract_contract_error_code parse_scoped contracts_defining_code
parse_contract_error is_conduit chain contract context =
    if is_conduit
    then unchanged
    else parse_found (extract_contract_error_code chain) (chain 0) contract context
