-- ===== src/Circuit/Events.antt =====
-- src/rpc-circuit-state.ts: the transitions that listeners are told of, against the states that
-- the circuit goes through.
use stream_fi_sdk.Base.{
  ℕ, ◌<◌, String, false, ◌≡◌, refl, ap, ◌∙◌, ◌⊎◌, inl, inr, none, some, arith, Bool-cases,
  Option-cases, string_eq,
}
use stream_fi_sdk.Base.JsMap
use stream_fi_sdk.Circuit.Entry.{closed, CircuitStatus, is_due}
use stream_fi_sdk.Circuit.{CircuitEntry, Circuits, unknown_status, store, get_circuit_state}
use stream_fi_sdk.Circuit.Record.{
  Options, get_or, default_threshold, default_cooldown_ms, count_failure, reopen, record_success_at,
  record_success, record_failure_at, record_failure, reset_circuit, Call, read, success, failure,
  reset, step,
}
use stream_fi_sdk.Circuit.Laws.{
  observe, status_at, status_of, fail, get_circuit_state-read, read_entry-status, get-store_self,
  get_circuit_state_lem, record_success_clears, status_at-read, observe_twice, status_at-failure,
  announce-circuits,
}
use stream_fi_sdk.Circuit.Valid.{IsValid, get_circuit_state-IsValid}
use stream_fi_sdk.Circuit.Chains.{
  conclude_success-Emits, conclude_failure-Emits, Emits, observe-quiet, Emits-none, Emits-trans,
  read_entry-Emits, get_circuit_state-Emits, announce-Emits,
}

module _ (scope : String) (now : ℕ) where
  record_success-Emits :
      (c : Circuits) → Emits scope (status_at c scope).state closed c (record_success c scope now)
  unfolding record_success record_success_at
  record_success-Emits c = elim (Option-cases (JsMap.get scope c.circuits)) [
    | inl h ↦ rw (h, record_success) (Emits-none scope refl refl)
    | inr (e, h) ↦
        rw
          (
            h,
            record_success,
            get_circuit_state-read c scope now e h,
            read_entry-status c scope now e,
          )
          (Emits-trans scope (read_entry-Emits scope c e now)
            (conclude_success-Emits scope _ e (observe now e.status) now))
  ]

  record_failure_at-Emits :
      (c : Circuits) (e : CircuitEntry) (o : Options)
      → JsMap.get scope c.circuits ≡ some e
      → 0 < get_or o.cooldown_ms default_cooldown_ms
      → Emits scope e.status.state
          (fail
            (get_or o.threshold default_threshold)
            (get_or o.cooldown_ms default_cooldown_ms)
            now
            (observe now e.status)).state
          c
          (record_failure_at c scope e o now)
  unfolding record_failure_at
  record_failure_at-Emits c e o h pos =
      rw (get_circuit_state-read c scope now e h, read_entry-status c scope now e)
        (Emits-trans scope (read_entry-Emits scope c e now) (
          conclude_failure-Emits scope _ e (observe now e.status) now _ _
            (observe-quiet now e.status) pos))

  record_failure-Emits :
      (c : Circuits) (o : Options)
      → 0 < get_or o.cooldown_ms default_cooldown_ms
      → Emits scope
          (status_at c scope).state
          (fail
            (get_or o.threshold default_threshold)
            (get_or o.cooldown_ms default_cooldown_ms)
            now
            (observe now (status_at c scope))).state
          c
          (record_failure c scope o now)
  unfolding record_failure
  record_failure-Emits c o pos = elim (Option-cases (JsMap.get scope c.circuits)) [
    | inl h ↦
        rw (h, record_failure)
          (Emits-trans scope (Emits-none scope {c' = store c scope fresh} refl refl) (
            record_failure_at-Emits (store c scope fresh) fresh o (get-store_self c scope fresh)
              pos))
    | inr (e, h) ↦ rw (h, record_failure) (record_failure_at-Emits c e o h pos)
  ]
    where
      fresh : CircuitEntry
      fresh = record { scope = scope; status = unknown_status }

  -- The scope is gone when it is read for the notification.
  removed-quiet :
      (c : Circuits)
      → JsMap.Distinct c.circuits
      → status_at (record c { circuits = JsMap.delete scope c.circuits }) scope ≡ unknown_status
  removed-quiet c d = ap status_of (JsMap.get-delete_self scope c.circuits d)

  reset_circuit-Emits :
      (c : Circuits)
      → IsValid c
      → Emits scope (status_at c scope).state closed c (reset_circuit c scope now)
  unfolding reset_circuit
  reset_circuit-Emits c v = elim (Bool-cases (JsMap.has scope c.circuits)) [
    | inl h ↦
        rw (h, get_circuit_state_lem)
          (Emits-trans scope (get_circuit_state-Emits scope c now) (
            Emits-trans scope (Emits-none scope {c' = removed} refl refl) (
              announce-Emits scope removed _ closed now (
                ap (is_due now) (
                  removed-quiet (get_circuit_state c scope now).0
                    (get_circuit_state-IsValid c scope now v).distinct)))))
    | inr h ↦ rw h (
        Emits-trans scope (get_circuit_state-Emits scope c now)
          (Emits-none scope refl (ap (λ o. (observe now (status_of o)).state) (absent h))))
  ]
    where
      absent : JsMap.has scope c.circuits ≡ false → JsMap.get scope c.circuits ≡ none
      absent h = JsMap.get_of_IsFresh scope c.circuits (JsMap.has-eq-false scope c.circuits h)

      removed : Circuits
      removed = record (get_circuit_state c scope now).0 {
        circuits = JsMap.delete scope (get_circuit_state c scope now).0.circuits;
      }

status_at-reset :
    (c : Circuits) (scope : String) (now : ℕ)
    → IsValid c
    → status_at (reset_circuit c scope now) scope ≡ unknown_status
unfolding reset_circuit
status_at-reset c scope now v = elim (Bool-cases (JsMap.has scope c.circuits)) [
  | inl h ↦ rw (h, announce-circuits) (status_at-read removed scope now ∙ ap (observe now) quiet)
  | inr h ↦ rw h quiet
]
  where
    removed : Circuits
    removed = record (get_circuit_state c scope now).0 {
      circuits = JsMap.delete scope (get_circuit_state c scope now).0.circuits;
    }

    quiet : status_at removed scope ≡ unknown_status
    quiet =
        removed-quiet scope now (get_circuit_state c scope now).0
          (get_circuit_state-IsValid c scope now v).distinct

abbrev pub target : Call → String
target (read scope) = scope
target (success scope) = scope
target (failure scope o) = scope
target (reset scope) = scope

-- A failure's cooldown is positive, as the default is.
abbrev pub HasCooldown : Call → Type 0
HasCooldown (failure scope o) = 0 < get_or o.cooldown_ms default_cooldown_ms
HasCooldown _ = Unit

fail_shown :
    (t d now : ℕ) (s x : CircuitStatus)
    → 0 < d
    → (x ≡ fail t d now (observe now s)) ⊎ (x ≡ observe now (fail t d now (observe now s)))
    → (fail t d now (observe now s)).state ≡ (observe now x).state
unfolding count_failure reopen
fail_shown t d now s x pos e = ground arith

-- On a well-formed table, a call announces for its scope a chain of transitions from the state that
-- the table held to the state that a read right after the call shows, each step a change that starts
-- where the last one ended; and none for another scope. (A failure's cooldown is positive.)
pub step-Emits :
    (c : Circuits) (call : Call) (now : ℕ)
    → IsValid c
    → HasCooldown call
    → Emits
        (target call)
        (status_at c (target call)).state
        (get_circuit_state (step c call now) (target call) now).1.state
        c
        (step c call now)
unfolding step
step-Emits c (read scope) now v h =
    rw
      (
        get_circuit_state_lem,
        status_at-read,
        observe_twice now now (status_at c scope) (omega arith),
      )
      (get_circuit_state-Emits scope c now)
step-Emits c (success scope) now v h =
    rw ((record_success_clears c scope now now).0) (record_success-Emits scope now c)
step-Emits c (failure scope o) now v h =
    rw
      (
        get_circuit_state_lem,
        ← fail_shown _ _ now (status_at c scope) _ h (status_at-failure c scope now o),
      )
      (record_failure-Emits scope now c o h)
step-Emits c (reset scope) now v h =
    rw (get_circuit_state_lem, status_at-reset c scope now v) (reset_circuit-Emits scope now c v)
