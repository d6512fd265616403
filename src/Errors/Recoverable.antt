-- ===== src/Errors/Recoverable.antt =====
-- src/errors.ts: `isConduitError` and `isRecoverableError`.
use stream_fi_sdk.Base.{
  ℕ, zero, suc, ◌≡◌, ◌+◌, ◌<◌, refl, Bool, true, false, ◌&&◌, ◌||◌, Option, none, some, List, [],
  ◌∷◌, map, ◌==◌, ltb, if◌then◌else◌, arith,
}
use stream_fi_sdk.Amount.Digits.{Text}
use stream_fi_sdk.Texts.{codes, includes, same_text}

abbrev pub conduit_error_names : List Text
conduit_error_names =
    codes "SorobanRpcError"
    ∷ codes "ConduitError"
    ∷ codes "UnsupportedChainError"
    ∷ codes "StreamFiNetworkError"
    ∷ codes "InsufficientBalanceError"
    ∷ codes "RateLimitError"
    ∷ codes "RpcServiceUnavailableError"
    ∷ codes "IndexerTimeoutError"
    ∷ codes "OperationAbortedError"
    ∷ codes "StreamNotFoundError"
    ∷ codes "AmountExceedsWithdrawableError"
    ∷ codes "UnauthorizedStreamActionError"
    ∷ codes "InvalidStreamStateError"
    ∷ codes "ClawbackNotEnabledError"
    ∷ codes "RateExceedsMaxError"
    ∷ codes "DurationTooShortError"
    ∷ codes "BackdatedStreamError"
    ∷ codes "ConfirmationTimeoutError"
    ∷ codes "SignatureTimeoutError"
    ∷ codes "CircuitOpenError"
    ∷ codes "ValidationError"
    ∷ codes "IndexerMaxPagesExceededError"
    ∷ codes "UserCancelledError"
    ∷ codes "AlbedoCancelError"
    ∷ codes "NetworkMismatchError"
    ∷ codes "BadAuthError"
    ∷ codes "HorizonTransactionError"
    ∷ []

abbrev pub recoverable_http_statuses : List ℕ
recoverable_http_statuses = 408 ∷ 425 ∷ 429 ∷ 500 ∷ 502 ∷ 503 ∷ 504 ∷ []

abbrev pub recoverable_node_codes : List Text
recoverable_node_codes =
    codes "ECONNRESET"
    ∷ codes "ECONNREFUSED"
    ∷ codes "ECONNABORTED"
    ∷ codes "ETIMEDOUT"
    ∷ codes "ENOTFOUND"
    ∷ codes "EAI_AGAIN"
    ∷ codes "EPIPE"
    ∷ codes "ENETUNREACH"
    ∷ codes "EHOSTUNREACH"
    ∷ codes "UND_ERR_CONNECT_TIMEOUT"
    ∷ []

abbrev pub recoverable_error_names : List Text
recoverable_error_names =
    codes "RateLimitError"
    ∷ codes "RpcServiceUnavailableError"
    ∷ codes "StreamFiNetworkError"
    ∷ codes "IndexerTimeoutError"
    ∷ codes "ConfirmationTimeoutError"
    ∷ codes "CircuitOpenError"
    ∷ codes "TimeoutError"
    ∷ []

-- A field of unknown type; `fraction` is any number that is no natural number.
pub data Field : Type 0 where
  other fraction : Field
  number : ℕ → Field
  text : Text → Field

-- An object, and whether it is an `Error` and a `TypeError`; `status` and `response_status` are `status` and `response?.status`.
pub record Fault : Type 0 where
  pub name : Field
  pub code : Field
  pub status : Field
  pub response_status : Field
  pub is_error : Bool
  pub is_type_error : Bool
  pub message : Text

pub data Cause : Type 0 where
  nullish primitive : Cause
  object : Fault → Cause

abbrev pub has_text : Text → List Text → Bool
has_text t [] = false
has_text t (x ∷ xs) = same_text t x || has_text t xs

abbrev pub has_number : ℕ → List ℕ → Bool
has_number n [] = false
has_number n (x ∷ xs) = n == x || has_number n xs

abbrev pub is_text_in : List Text → Field → Bool
is_text_in names (text t) = has_text t names
is_text_in names other = false
is_text_in names fraction = false
is_text_in names (number n) = false

unfoldable pub is_conduit_error : Fault → Bool
is_conduit_error e = e.is_error && is_text_in conduit_error_names e.name

-- `RECOVERABLE_HTTP_STATUSES.has` where the field is a number.
abbrev pub verdict_of_status : Field → Option Bool
verdict_of_status (number n) = some (has_number n recoverable_http_statuses)
verdict_of_status fraction = some false
verdict_of_status other = none
verdict_of_status (text t) = none

-- `typeof e.status === 'number' ? e.status : e.response?.status`
abbrev pub status_of : Field → Field → Field
status_of (number n) response = number n
status_of fraction response = fraction
status_of other response = response
status_of (text t) response = response

-- The `i` flag: the letters of ASCII have no other upper case of their own.
abbrev pub to_lower : ℕ → ℕ
to_lower c = if ltb 64 c && ltb c 91 then c + 32 else c

abbrev pub is_network_message : Text → Bool
is_network_message message =
    let lower = map to_lower message in
    includes lower (codes "failed to fetch")
    || (includes lower (codes "network") || includes lower (codes "load failed"))

abbrev pub network_verdict : Fault → Option Bool
network_verdict e = if e.is_type_error && is_network_message e.message then some true else none

abbrev pub verdict_of_code : Fault → Field → Option Bool
verdict_of_code e (number n) = if has_number n recoverable_http_statuses then some true else none
verdict_of_code e fraction = none
verdict_of_code e (text t) =
    if has_text t recoverable_node_codes then some true else network_verdict e
verdict_of_code e other = network_verdict e

abbrev pub or_verdict_of_code : Option Bool → Fault → Option Bool
or_verdict_of_code (some b) e = some b
or_verdict_of_code none e = verdict_of_code e e.code

unfoldable pub verdict_of_object : Fault → Option Bool
unfolding is_conduit_error
verdict_of_object e =
    if is_text_in recoverable_error_names e.name
    then some true
    else if is_text_in (codes "OperationAbortedError" ∷ codes "AbortError" ∷ []) e.name
    then some false
    else if is_conduit_error e
    then some false
    else or_verdict_of_code (verdict_of_status (status_of e.status e.response_status)) e

unfoldable pub is_recoverable_once : Cause → Option Bool
unfolding verdict_of_object
is_recoverable_once nullish = none
is_recoverable_once primitive = none
is_recoverable_once (object e) = verdict_of_object e

abbrev pub is_nullish : Cause → Bool
is_nullish nullish = true
is_nullish primitive = false
is_nullish (object e) = false

abbrev pub verdict_or : Option Bool → Bool → Bool
verdict_or (some b) later = b
verdict_or none later = later

unfoldable pub is_recoverable_from : ℕ → (ℕ → Cause) → ℕ → Bool
unfolding is_recoverable_once
is_recoverable_from zero chain depth = false
is_recoverable_from (suc rounds) chain depth =
    let later = is_recoverable_from rounds chain (depth + 1) in
    if is_nullish (chain depth) then false else verdict_or (is_recoverable_once (chain depth)) later

-- The cause at a depth is the one of the error that many steps above it.
unfoldable pub is_recoverable_error : (ℕ → Cause) → Bool
unfolding is_recoverable_from
is_recoverable_error chain = is_recoverable_from 5 chain 0

-- The causes above this many steps from a depth are neither null nor decided, and the one there is decided.
abbrev pub DecidedAfter : (ℕ → Cause) → ℕ → ℕ → Bool → Type 0
DecidedAfter chain depth zero b = is_recoverable_once (chain depth) ≡ some b
DecidedAfter chain depth (suc k) b =
    (is_nullish (chain depth) ≡ false)
    × (is_recoverable_once (chain depth) ≡ none)
    × DecidedAfter chain (depth + 1) k b

decided_here :
    (c : Cause) (b later : Bool)
    → is_recoverable_once c ≡ some b
    → (if is_nullish c then false else verdict_or (is_recoverable_once c) later) ≡ b
unfolding is_recoverable_once
decided_here nullish b later e = cc
decided_here primitive b later e = cc
decided_here (object f) b later e = rw e refl

is_recoverable_from-first :
    (rounds : ℕ) (chain : ℕ → Cause) (depth k : ℕ) (b : Bool)
    → k < rounds
    → DecidedAfter chain depth k b
    → is_recoverable_from rounds chain depth ≡ b
unfolding is_recoverable_from
is_recoverable_from-first zero chain depth k b l h = absurd (omega arith)
is_recoverable_from-first (suc rounds) chain depth zero b l h =
    decided_here (chain depth) b (is_recoverable_from rounds chain (depth + 1)) h
is_recoverable_from-first (suc rounds) chain depth (suc k) b l h =
    rw (h.0, h.1) (is_recoverable_from-first rounds chain (depth + 1) k b (omega arith) h.2)

-- The first of the five outermost errors of a chain that is decided on its own decides for the chain,
-- unless null comes before it.
is_recoverable_error-first :
    (chain : ℕ → Cause) (k : ℕ) (b : Bool)
    → k < 5
    → DecidedAfter chain 0 k b
    → is_recoverable_error chain ≡ b
unfolding is_recoverable_error
is_recoverable_error-first chain k b l h = is_recoverable_from-first 5 chain 0 k b l h
