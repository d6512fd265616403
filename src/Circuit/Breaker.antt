-- ===== src/Circuit/Breaker.antt =====
-- src/rpc-circuit-state.ts: `class RpcCircuitBreaker`. A call of `execute` is two steps, since
-- other calls run while it waits: its start, which may refuse, and the moment it settles.
use stream_fi_sdk.Base.{ℕ, String, Bool, not, Option, some, if◌then◌else◌}
use stream_fi_sdk.Circuit.Entry.{opened, CircuitStatus, same_state}
use stream_fi_sdk.Circuit.{Circuits, get_circuit_state}
use stream_fi_sdk.Circuit.Record.{get_or, record_success, record_failure}

abbrev pub default_timeout_threshold : ℕ
default_timeout_threshold = 3

abbrev pub default_timeout_cooldown_ms : ℕ
default_timeout_cooldown_ms = 30000

pub record BreakerOptions : Type 0 where
  pub failure_threshold : Option ℕ
  pub cooldown_ms : Option ℕ

pub record RpcCircuitBreaker : Type 0 where
  pub scope : String
  pub threshold : ℕ
  pub cooldown_ms : ℕ

abbrev pub new : String → BreakerOptions → RpcCircuitBreaker
new scope options = record {
  scope = scope;
  threshold = get_or options.failure_threshold default_timeout_threshold;
  cooldown_ms = get_or options.cooldown_ms default_timeout_cooldown_ms;
}

-- An error is an `RpcTimeoutError`, from the timer or from `fn`, or any other.
pub data Failure (E : Type 0) : Type 0 where
  rpc_timeout : Failure E
  other : E → Failure E

-- How the race of `fn()` and the timer ends.
pub data Settled (T E : Type 0) : Type 0 where
  resolved : T → Settled T E
  rejected : Failure E → Settled T E

pub data Outcome (T E : Type 0) : Type 0 where
  circuit_open : Outcome T E
  returned : T → Outcome T E
  threw : Failure E → Outcome T E

pub state : RpcCircuitBreaker → Circuits → ℕ → Circuits × CircuitStatus
state b c now = get_circuit_state c b.scope now

-- The test before `fn` is called; `true` lets the call through.
unfoldable pub start : RpcCircuitBreaker → Circuits → ℕ → Circuits × Bool
start b c now =
    let (c', status) = get_circuit_state c b.scope now in (c', not (same_state status.state opened))

unfoldable pub settle :
    {T E : Type 0} → RpcCircuitBreaker → Circuits → Settled T E → ℕ → Circuits × Outcome T E
settle b c (resolved result) now = (record_success c b.scope now, returned result)
settle b c (rejected rpc_timeout) now = (
  record_failure c b.scope
      (record { threshold = some b.threshold; cooldown_ms = some b.cooldown_ms }) now,
  threw rpc_timeout,
)
settle b c (rejected (other error)) now = (record_success c b.scope now, threw (other error))

-- A call with no other call between its start and its end.
unfoldable pub execute :
    {T E : Type 0} → RpcCircuitBreaker → Circuits → Settled T E → ℕ → ℕ → Circuits × Outcome T E
unfolding start settle
execute b c settled started ended =
    let (c', admitted) = start b c started in
    if admitted then settle b c' settled ended else (c', circuit_open)
