-- ===== src/Tests/Faults.antt =====
-- Runs of the model of src/errors.ts.
use stream_fi_sdk.Base.{arith, ℕ, zero, suc, ◌≡◌, refl, false, none, some, ◌++◌, true}
use stream_fi_sdk.Texts.{codes, includes}
use stream_fi_sdk.Errors.{
  factory, Code, Thrown, nullish, error, text, code_of_value, extract_contract_error_code, stream,
}
use stream_fi_sdk.Errors.Found.{Passed, host_error, code_of_value-host_error}
use stream_fi_sdk.Amount.{pos}
use stream_fi_sdk.Errors.Parse.{
  contract_error, ContractErrorContext, parse_contract_error, typed, rate_exceeds_max, plain,
}
use stream_fi_sdk.Errors.Kept.{
  named_contract, named_code, contract_or_sole, parse_contract_error-keeps,
}
use stream_fi_sdk.Errors.Translate.{
  context_of, translate_stream_error, parse_contract_error-translate,
}
use stream_fi_sdk.Errors.Recoverable.{Fault, Field, Cause, is_recoverable_error}

-- An error without a code, whose cause has the host's message.
abbrev host_chain : ℕ → Thrown
host_chain zero = error Code.absent (codes "failed")
host_chain (suc zero) = text (codes "HostError: Error(Contract,  #8)")
host_chain (suc (suc n)) = nullish

abbrev no_context : ContractErrorContext
no_context = record { stream_id = none; operation = none; caller = none }

found_in_cause : extract_contract_error_code host_chain ≡ some 8
unfolding extract_contract_error_code
found_in_cause = refl

rate_error :
    parse_contract_error false host_chain (some factory) no_context ≡ typed rate_exceeds_max
unfolding parse_contract_error
rate_error = refl

parse_contract_error-keeps_example :
    (named_contract (parse_contract_error false host_chain none no_context)
      ≡ contract_or_sole none 8)
    × (named_code (parse_contract_error false host_chain none no_context) ≡ some 8)
parse_contract_error-keeps_example =
    parse_contract_error-keeps host_chain none 8 no_context found_in_cause

host_error-Passed : Passed (codes "HostError: ")
host_error-Passed =
    (refl, (refl, (refl, (refl, (refl, (refl, (refl, (refl, (refl, (refl, (refl, tt)))))))))))

code_of_value-host_error_example :
    (code_of_value (text (codes "HostError: " ++ host_error (codes " ") 12 (codes ", Error")))
      ≡ some 12)
    × (code_of_value
          (error Code.absent (codes "HostError: " ++ host_error (codes " ") 12 (codes ", Error")))
        ≡ some 12)
code_of_value-host_error_example =
    code_of_value-host_error (codes "HostError: ") (codes " ") (codes ", Error") 12 (omega arith)
      host_error-Passed (refl, tt)

abbrev paused_chain : ℕ → Thrown
paused_chain n = text (codes "Error(Contract, #9)")

found_paused : extract_contract_error_code paused_chain ≡ some 9
unfolding extract_contract_error_code
found_paused = refl

parse_contract_error-translate_example :
    parse_contract_error false paused_chain (some stream) (context_of (codes "pause") (codes "G"))
    ≡ typed (translate_stream_error (plain stream 9) (codes "pause") (codes "G"))
parse_contract_error-translate_example =
    parse_contract_error-translate paused_chain 9 (codes "pause") (codes "G") found_paused refl
      (omega arith) (omega arith)

abbrev fetch_failed : Fault
fetch_failed = record {
  name = Field.text (codes "TypeError");
  code = Field.other;
  status = Field.other;
  response_status = Field.other;
  is_error = true;
  is_type_error = true;
  message = codes "Failed to fetch";
}

network_recovers : is_recoverable_error (λ n. Cause.object fetch_failed) ≡ true
unfolding is_recoverable_error includes
network_recovers = refl

-- A cancelled call is not tried again.
abort_stays :
    is_recoverable_error
      (λ n. Cause.object (record fetch_failed { name = Field.text (codes "AbortError") }))
    ≡ false
unfolding is_recoverable_error
abort_stays = refl

-- A code of more than 53 binary digits is rounded.
long_code :
    code_of_value (text (codes "Error(Contract, #9007199254740993)")) ≡ some 9007199254740992
unfolding code_of_value
long_code = refl

-- The platform's `AbortError`, with its code, is taken for an unknown contract error.
abort_misread :
    parse_contract_error false
      (λ n. error (Code.integer (pos 20)) (codes "aborted"))
      none
      no_context
    ≡ contract_error none 20
unfolding parse_contract_error
abort_misread = refl
