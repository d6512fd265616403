-- ===== src/Circuit/Record.antt =====
-- src/rpc-circuit-state.ts: `recordSuccess`, `recordFailure`, `resetCircuit`, `getAllCircuitStates`.
use stream_fi_sdk.Base.{
  ℕ, ◌+◌, String, Option, none, some, List, map, leb, if◌then◌else◌, string_eq,
}
use stream_fi_sdk.Base.JsMap
use stream_fi_sdk.Circuit.Entry.{CircuitState, closed, opened, half_open, CircuitStatus, same_state}
use stream_fi_sdk.Circuit.{
  CircuitEntry, Circuits, notify_listeners, emit_transition, unknown_status, store,
  get_circuit_state,
}

abbrev pub default_threshold : ℕ
default_threshold = 5

abbrev pub default_cooldown_ms : ℕ
default_cooldown_ms = 30000

-- The optional second argument of `recordFailure`.
pub record Options : Type 0 where
  pub threshold : Option ℕ
  pub cooldown_ms : Option ℕ

abbrev pub get_or {ℓ} : {A : Type ℓ} → Option A → A → A
get_or none d = d
get_or (some a) d = a

-- The notification and the transition at the end of an operation, with the status read once more.
unfoldable pub announce : Circuits → String → CircuitState → CircuitState → ℕ → Circuits
announce c scope from to now =
    let (c', state) = get_circuit_state c scope now in
    emit_transition (notify_listeners c' scope state) scope from to

-- The same, where the state that is emitted is the entry's after that read: with no cooldown it has
-- become half-open.
abbrev pub announce_current : Circuits → String → CircuitState → ℕ → Circuits
announce_current c scope from now =
    announce c scope from (get_circuit_state c scope now).1.state now

unfoldable pub succeed : ℕ → CircuitStatus → CircuitStatus
succeed now s = record s {
  failure_count = 0;
  last_success_at = some now;
  state = closed;
  cooldown_until = none;
}

-- The rest of `recordSuccess` after its first read, which found `previous`.
unfoldable pub conclude_success : Circuits → String → CircuitEntry → CircuitStatus → ℕ → Circuits
unfolding succeed
conclude_success c scope entry previous now =
    let c' = store c scope (record entry { status = succeed now previous }) in
    if same_state previous.state closed then c' else announce c' scope previous.state closed now

unfoldable pub record_success_at : Circuits → String → CircuitEntry → ℕ → Circuits
record_success_at c scope entry now =
    let (c', previous) = get_circuit_state c scope now in
    conclude_success c' scope entry previous now

unfoldable pub record_success : Circuits → String → ℕ → Circuits
record_success c scope now = elim (JsMap.get scope c.circuits) [
  | none ↦ c
  | some entry ↦ record_success_at c scope entry now
]

-- The writes of `recordFailure` to a status that is not half-open.
unfoldable pub count_failure : ℕ → ℕ → ℕ → CircuitStatus → CircuitStatus
count_failure threshold cooldown_ms now s =
    let counted = record s { failure_count = s.failure_count + 1; last_failure_at = some now } in
    if leb threshold (s.failure_count + 1)
    then record counted { state = opened; cooldown_until = some (now + cooldown_ms) }
    else counted

-- Its writes to a half-open one.
unfoldable pub reopen : ℕ → ℕ → CircuitStatus → CircuitStatus
reopen cooldown_ms now s = record s {
  state = opened;
  failure_count = s.failure_count + 1;
  last_failure_at = some now;
  cooldown_until = some (now + cooldown_ms);
}

-- The rest of `recordFailure` after its first read, which found `previous`.
unfoldable pub conclude_failure :
    Circuits → String → CircuitEntry → CircuitStatus → ℕ → ℕ → ℕ → Circuits
conclude_failure c scope entry previous threshold cooldown_ms now =
    let reopened = store c scope (record entry { status = reopen cooldown_ms now previous }) in
    let next = count_failure threshold cooldown_ms now previous in
    let counted = store c scope (record entry { status = next }) in
    if same_state previous.state half_open
    then announce reopened scope previous.state opened now
    else if same_state next.state previous.state
    then counted
    else announce_current counted scope previous.state now

unfoldable pub record_failure_at : Circuits → String → CircuitEntry → Options → ℕ → Circuits
record_failure_at c scope entry options now =
    let (c', previous) = get_circuit_state c scope now in
    conclude_failure c' scope entry previous (get_or options.threshold default_threshold)
      (get_or options.cooldown_ms default_cooldown_ms) now

unfoldable pub record_failure : Circuits → String → Options → ℕ → Circuits
record_failure c scope options now =
    let fresh : CircuitEntry = record { scope = scope; status = unknown_status } in
    elim (JsMap.get scope c.circuits) [
      | none ↦ record_failure_at (store c scope fresh) scope fresh options now
      | some entry ↦ record_failure_at c scope entry options now
    ]

-- `announce` here reads a scope that is no longer in the table.
unfoldable pub reset_circuit : Circuits → String → ℕ → Circuits
reset_circuit c scope now =
    let (c', previous) = get_circuit_state c scope now in
    let removed = record c' { circuits = JsMap.delete scope c'.circuits } in
    if JsMap.has scope c.circuits then announce removed scope previous.state closed now else removed

pub get_all_circuit_states : Circuits → List CircuitStatus
get_all_circuit_states c = map (λ p. p.1.status) c.circuits

-- One call of the module's interface.
pub data Call : Type 0 where
  read : String → Call
  success : String → Call
  failure : String → Options → Call
  reset : String → Call

unfoldable pub step : Circuits → Call → ℕ → Circuits
step c (read scope) now = (get_circuit_state c scope now).0
step c (success scope) now = record_success c scope now
step c (failure scope options) now = record_failure c scope options now
step c (reset scope) now = reset_circuit c scope now
