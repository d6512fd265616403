-- ===== src/Errors/Translate.antt =====
-- src/errors.ts: `translateStreamError`, which gives an error of the stream contract the type of its cause.
use stream_fi_sdk.Base.{
  length, ◌<◌, [], ◌∷◌, arith, ℕ, ◌≡◌, ap, true, false, none, some, ◌==◌, if◌then◌else◌,
}
use stream_fi_sdk.Amount.Digits.{Text}
use stream_fi_sdk.Errors.{
  stream, factory, governor, stream_messages, has_code, Thrown, extract_contract_error_code,
}
use stream_fi_sdk.Errors.Parse.{
  ConduitError, contract_of, code_of, plain, clawback_not_enabled, unauthorized,
  invalid_stream_state, has_state, ContractErrorContext, typed, typed_error, parse_scoped,
  parse_contract_error,
}

-- What is thrown for a `ConduitError`; every other value is thrown as it is.
unfoldable pub translate_stream_error : ConduitError → Text → Text → ConduitError
translate_stream_error err operation caller = elim (contract_of err) [
  | stream ↦
      if code_of err == 1
      then unauthorized operation caller
      else if code_of err == 11
      then clawback_not_enabled
      else if has_state (code_of err)
      then invalid_stream_state operation (code_of err)
      else err
  | factory ↦ err
  | governor ↦ err
]

abbrev pub context_of : Text → Text → ContractErrorContext
context_of operation caller = record {
  stream_id = none;
  operation = some operation;
  caller = some caller;
}

typed_error-translate :
    (code : ℕ) (operation caller : Text)
    → 0 < length operation
    → 0 < length caller
    → typed_error stream code (context_of operation caller)
      ≡ translate_stream_error (plain stream code) operation caller
unfolding translate_stream_error
typed_error-translate code [] caller l m = absurd (omega arith)
typed_error-translate code (o ∷ os) [] l m = absurd (omega arith)
typed_error-translate code (o ∷ os) (c ∷ cs) l m = ground arith

-- Where a code of the stream contract is found in what was thrown, and an operation and a caller that
-- are not empty are given but no stream id, parseContractError gives the error that
-- translateStreamError throws for a plain error of the stream contract with this code.
pub parse_contract_error-translate :
    (chain : ℕ → Thrown) (code : ℕ) (operation caller : Text)
    → extract_contract_error_code chain ≡ some code
    → has_code code stream_messages ≡ true
    → 0 < length operation
    → 0 < length caller
    → parse_contract_error false chain (some stream) (context_of operation caller)
      ≡ typed (translate_stream_error (plain stream code) operation caller)
unfolding parse_contract_error parse_scoped
parse_contract_error-translate chain code operation caller e h l m =
    rw (e, h) (ap typed (typed_error-translate code operation caller l m))
