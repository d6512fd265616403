-- ===== src/Tests/Circuits.antt =====
-- src/rpc-circuit-state.ts at small inputs.
use stream_fi_sdk.Base.{◌<◌, ◌≡◌, refl, ◌↔◌, none, some, [], ◌∷◌, arith, string_eq}
use stream_fi_sdk.Base.JsMap
use stream_fi_sdk.Circuit.Entry.{CircuitStatus, closed, opened, half_open}
use stream_fi_sdk.Circuit.{
  Circuits, every, notify_listeners, emit_transition, read_entry, get_circuit_state,
}
use stream_fi_sdk.Circuit.Record.{
  Options, success, step, record_failure, record_failure_at, conclude_failure, count_failure,
  announce,
}
use stream_fi_sdk.Circuit.Breaker.{RpcCircuitBreaker, new}
use stream_fi_sdk.Circuit.Laws.{status_at}
use stream_fi_sdk.Circuit.Valid.{IsValid, step-IsValid}
use stream_fi_sdk.Circuit.Opening.{record_failures, record_failures_lem}
use stream_fi_sdk.Circuit.Chains.{Emits}
use stream_fi_sdk.Circuit.Events.{step-Emits}

abbrev no_circuits : Circuits
no_circuits = record {
  circuits = [];
  listeners = every 1 ∷ [];
  transition_listeners = 2 ∷ [];
  events = [];
}

abbrev two_failures : Options
two_failures = record { threshold = some 2; cooldown_ms = some 100 }

abbrev open_status : CircuitStatus
open_status = record {
  state = opened;
  failure_count = 2;
  last_failure_at = some 20;
  last_success_at = none;
  cooldown_until = some 120;
}

abbrev one_open : Circuits
one_open = record no_circuits {
  circuits = ("rpc", record { scope = "rpc"; status = open_status }) ∷ [];
}

abbrev probing : Circuits
probing = record no_circuits {
  circuits =
      ("rpc", record { scope = "rpc"; status = record open_status { state = half_open } }) ∷ [];
}

abbrev breaker : RpcCircuitBreaker
breaker = new "rpc" (record { failure_threshold = some 2; cooldown_ms = some 100 })

one_open-IsValid : IsValid one_open
one_open-IsValid = record {
  distinct = (tt, tt);
  entries = (
    record {
      keyed = refl;
      consistent = record { armed = ground arith; counted = ground arith; dated = ground arith };
    },
    tt,
  );
}

-- Two failures of an unknown scope open its circuit until the second one's cooldown is over.
opens :
    status_at (record_failures no_circuits "rpc" two_failures (10 ∷ 20 ∷ [])) "rpc" ≡ open_status
unfolding record_failure record_failure_at conclude_failure count_failure announce get_circuit_state
    read_entry notify_listeners emit_transition JsMap.get JsMap.set
opens = refl

step-IsValid_example : IsValid (step one_open (success "rpc") 130)
step-IsValid_example = step-IsValid one_open (success "rpc") 130 one_open-IsValid

record_failures_lem_example :
    let s =
      (get_circuit_state
        (record_failures no_circuits "rpc" two_failures (10 ∷ 20 ∷ []))
        "rpc"
        30).1 in
    (s.failure_count ≡ 2) × ((s.state ≡ closed) ↔ (2 < 2))
unfolding JsMap.get
record_failures_lem_example =
    record_failures_lem no_circuits "rpc" two_failures (10 ∷ 20 ∷ []) 30 refl (omega arith)

step-Emits_example :
    Emits "rpc" opened
      (get_circuit_state (step one_open (success "rpc") 130) "rpc" 130).1.state
      one_open
      (step one_open (success "rpc") 130)
unfolding JsMap.get
step-Emits_example = step-Emits one_open (success "rpc") 130 one_open-IsValid tt
