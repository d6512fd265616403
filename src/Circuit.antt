-- ===== src/Circuit.antt =====
-- src/rpc-circuit-state.ts: the state of each endpoint's circuit, and the operations on it.
-- The module's three tables (`circuits`, `listeners`, `transitionListeners`) are one record. A
-- listener is a number; a call of all listeners is an event that names those registered at that
-- time. Each operation takes the time at which it runs (its readings of `Date.now()` are one).
pub mod Entry
pub mod Record
pub mod Breaker
pub mod Laws
pub mod Valid
pub mod Opening
pub mod Chains
pub mod Events
use stream_fi_sdk.Base.{
  ℕ, String, Bool, true, false, not, Option, none, some, List, [], ◌∷◌, ◌++◌, ◌===◌, ◌==◌,
  if◌then◌else◌, filter, string_eq,
}
use stream_fi_sdk.Base.JsMap
use Entry.{CircuitState, closed, opened, half_open, CircuitStatus, same_state, is_due}

-- `interface CircuitEntry extends CircuitStatus`.
pub record CircuitEntry : Type 0 where
  pub scope : String
  pub status : CircuitStatus

-- A registered `CircuitListener`: `onCircuitChange` registers the caller's function itself,
-- `onCircuitStateChange` a fresh function that passes on the events of one scope.
pub data Listener : Type 0 where
  every : ℕ → Listener
  scoped : String → ℕ → Listener

pub data Event : Type 0 where
  changed : List Listener → String → CircuitStatus → Event
  transition : List ℕ → CircuitState → CircuitState → String → Event

pub record Circuits : Type 0 where
  pub circuits : List (String × CircuitEntry)
  pub listeners : List Listener
  pub transition_listeners : List ℕ
  pub events : List Event

unfoldable pub notify_listeners : Circuits → String → CircuitStatus → Circuits
notify_listeners c scope state = record c {
  events = c.events ++ changed c.listeners scope state ∷ [];
}

unfoldable pub emit_transition : Circuits → String → CircuitState → CircuitState → Circuits
emit_transition c scope from to =
    if same_state from to
    then c
    else record c { events = c.events ++ transition c.transition_listeners from to scope ∷ [] }

abbrev pub contains : ℕ → List ℕ → Bool
contains l [] = false
contains l (k ∷ ks) = if k == l then true else contains l ks

abbrev pub without : ℕ → List ℕ → List ℕ
without l = filter (λ k. not (k == l))

pub subscribe_circuit_transitions : Circuits → ℕ → Circuits
subscribe_circuit_transitions c l =
    if contains l c.transition_listeners
    then c
    else record c { transition_listeners = c.transition_listeners ++ l ∷ [] }

pub unsubscribe_circuit_transitions : Circuits → ℕ → Circuits
unsubscribe_circuit_transitions c l = record c {
  transition_listeners = without l c.transition_listeners;
}

same_listener : Listener → Listener → Bool
same_listener (every a) (every b) = a == b
same_listener (scoped s a) (scoped t b) = a == b
same_listener _ _ = false

has_listener : Listener → List Listener → Bool
has_listener l [] = false
has_listener l (k ∷ ks) = if same_listener k l then true else has_listener l ks

pub on_circuit_change : Circuits → ℕ → Circuits
unfolding has_listener
on_circuit_change c l =
    if has_listener (every l) c.listeners
    then c
    else record c { listeners = c.listeners ++ every l ∷ [] }

-- The registered function is a new one at each call; `l` is its identity.
pub on_circuit_state_change : Circuits → String → ℕ → Circuits
on_circuit_state_change c scope l = record c { listeners = c.listeners ++ scoped scope l ∷ [] }

pub remove_listener : Circuits → Listener → Circuits
unfolding same_listener
remove_listener c l = record c { listeners = filter (λ k. not (same_listener k l)) c.listeners }

reach_one : String → Listener → List ℕ → List ℕ
reach_one scope (every a) rest = a ∷ rest
reach_one scope (scoped s a) rest = if scope === s then a ∷ rest else rest

reach_all : String → List Listener → List ℕ
unfolding reach_one
reach_all scope [] = []
reach_all scope (l ∷ ls) = reach_one scope l (reach_all scope ls)

-- The callbacks that an event reaches, in order.
pub reached : Event → List ℕ
unfolding reach_all
reached (changed ls scope state) = reach_all scope ls
reached (transition ls from to scope) = ls

abbrev pub unknown_status : CircuitStatus
unknown_status = record {
  state = closed;
  failure_count = 0;
  last_failure_at = none;
  last_success_at = none;
  cooldown_until = none;
}

-- Writing a field of an entry writes the entry that the table holds.
abbrev pub store : Circuits → String → CircuitEntry → Circuits
store c scope entry = record c { circuits = JsMap.set scope entry c.circuits }

-- `getCircuitState` at an entry that the table holds.
unfoldable pub read_entry : Circuits → String → CircuitEntry → ℕ → Circuits × CircuitStatus
read_entry c scope entry now =
    let status = record (entry.status) { state = half_open } in
    if is_due now entry.status
    then (
      emit_transition
          (notify_listeners (store c scope (record entry { status = status })) scope status) scope
          opened half_open,
      status,
    )
    else (c, entry.status)

unfoldable pub get_circuit_state : Circuits → String → ℕ → Circuits × CircuitStatus
unfolding JsMap.get
get_circuit_state c scope now = elim (JsMap.get scope c.circuits) [
  | none ↦ (c, unknown_status)
  | some entry ↦ read_entry c scope entry now
]
