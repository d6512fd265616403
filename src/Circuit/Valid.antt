-- ===== src/Circuit/Valid.antt =====
-- The invariant of the table of circuits of src/rpc-circuit-state.ts.
use stream_fi_sdk.Base.{
  ℕ, ◌<◌, String, ◌≡◌, refl, ◌≢◌, ◌↔◌, inl, inr, none, some, All, arith, Bool-cases, Option-cases,
  string_eq,
}
use stream_fi_sdk.Base.JsMap
use stream_fi_sdk.Circuit.Entry.{
  CircuitState, closed, opened, half_open, CircuitStatus, same_state, is_due,
}
use stream_fi_sdk.Circuit.{
  CircuitEntry, Circuits, notify_listeners, emit_transition, unknown_status, store, read_entry,
  get_circuit_state,
}
use stream_fi_sdk.Circuit.Record.{
  Options, announce, succeed, count_failure, reopen, conclude_success, conclude_failure,
  record_success_at, record_success, record_failure_at, record_failure, reset_circuit, Call, read,
  success, failure, reset, step,
}
use stream_fi_sdk.Circuit.Laws.{
  observe, fail, emit_transition-circuits, announce-circuits, get-store_self,
  get_circuit_state-read, read_entry-status,
}

pub record IsConsistent (s : CircuitStatus) : Type 0 where
  -- A cooldown is set exactly while the circuit is not closed.
  pub armed : (s.state ≡ closed) ↔ (s.cooldown_until ≡ none)
  pub counted : s.state ≢ closed → 0 < s.failure_count
  pub dated : 0 < s.failure_count → s.last_failure_at ≢ none

pub record EntryValid (p : String × CircuitEntry) : Type 0 where
  pub keyed : p.1.scope ≡ p.0
  pub consistent : IsConsistent p.1.status

pub record IsValid (c : Circuits) : Type 0 where
  pub distinct : JsMap.Distinct c.circuits
  pub entries : All EntryValid c.circuits

observe-IsConsistent : (now : ℕ) (s : CircuitStatus) → IsConsistent s → IsConsistent (observe now s)
observe-IsConsistent now s v = ground (arith, v.armed, v.counted, v.dated)

succeed-IsConsistent : (now : ℕ) (s : CircuitStatus) → IsConsistent (succeed now s)
unfolding succeed
succeed-IsConsistent now s = ground arith

fail-IsConsistent :
    (t d now : ℕ) (s : CircuitStatus) → IsConsistent s → IsConsistent (fail t d now s)
unfolding reopen count_failure
fail-IsConsistent t d now s v = ground (arith, v.armed, v.counted, v.dated)

unknown-IsConsistent : IsConsistent unknown_status
unknown-IsConsistent = ground arith

module _ (c : Circuits) (scope : String) where
  store-IsValid :
      (e : CircuitEntry)
      → e.scope ≡ scope
      → IsConsistent e.status
      → IsValid c
      → IsValid (store c scope e)
  store-IsValid e k s v = record {
    distinct = JsMap.set-Distinct scope e c.circuits v.distinct;
    entries =
        JsMap.set-All EntryValid scope e c.circuits (record { keyed = k; consistent = s })
          v.entries;
  }

  stored-EntryValid :
      (e : CircuitEntry) → JsMap.get scope c.circuits ≡ some e → IsValid c → EntryValid (scope, e)
  stored-EntryValid e h v = JsMap.get-All EntryValid scope e c.circuits h v.entries

  emit_transition-IsValid :
      (from to : CircuitState) → IsValid c → IsValid (emit_transition c scope from to)
  emit_transition-IsValid from to v = record {
    distinct = rw emit_transition-circuits v.distinct;
    entries = rw emit_transition-circuits v.entries;
  }

  notify_listeners-IsValid : (s : CircuitStatus) → IsValid c → IsValid (notify_listeners c scope s)
  unfolding notify_listeners
  notify_listeners-IsValid s v = record { distinct = v.distinct; entries = v.entries }

module _ (c : Circuits) (scope : String) (now : ℕ) where
  read_entry-IsValid :
      (e : CircuitEntry) → EntryValid (scope, e) → IsValid c → IsValid (read_entry c scope e now).0
  unfolding read_entry
  read_entry-IsValid e w v = elim (Bool-cases (is_due now e.status)) [
    | inl due ↦ rw due (
        emit_transition-IsValid _ scope opened half_open (
          notify_listeners-IsValid _ scope _ (
            store-IsValid c scope _ w.keyed
              (ground (arith, observe-IsConsistent now e.status w.consistent)) v)))
    | inr early ↦ rw early v
  ]

  pub get_circuit_state-IsValid : IsValid c → IsValid (get_circuit_state c scope now).0
  unfolding get_circuit_state
  get_circuit_state-IsValid v = elim (Option-cases (JsMap.get scope c.circuits)) [
    | inl h ↦ rw (h, get_circuit_state) v
    | inr (e, h) ↦
        rw (h, get_circuit_state) (read_entry-IsValid e (stored-EntryValid c scope e h v) v)
  ]

announce-IsValid :
    (c : Circuits) (scope : String) (from to : CircuitState) (now : ℕ)
    → IsValid c
    → IsValid (announce c scope from to now)
announce-IsValid c scope from to now v =
    let w = get_circuit_state-IsValid c scope now v in
    record { distinct = rw announce-circuits w.distinct; entries = rw announce-circuits w.entries }

module _ (c : Circuits) (scope : String) (now : ℕ) (e : CircuitEntry)
    (keyed : e.scope ≡ scope) where
  conclude_success-IsValid :
      (p : CircuitStatus) → IsValid c → IsValid (conclude_success c scope e p now)
  unfolding conclude_success
  conclude_success-IsValid p v =
      let w =
        store-IsValid c scope (record e { status = succeed now p }) keyed
          (succeed-IsConsistent now p) v in
      elim (Bool-cases (same_state p.state closed)) [
        | inl h ↦ rw h w
        | inr h ↦ rw h (announce-IsValid _ scope p.state closed now w)
      ]

  conclude_failure-IsValid :
      (p : CircuitStatus) (t d : ℕ)
      → IsConsistent p
      → IsValid c
      → IsValid (conclude_failure c scope e p t d now)
  unfolding conclude_failure
  conclude_failure-IsValid p t d w v = elim (Bool-cases (same_state p.state half_open)) [
    | inl h ↦ rw h (
        announce-IsValid _ scope p.state opened now
          (store-IsValid c scope _ keyed (rw h at (fail-IsConsistent t d now p w)) v))
    | inr h ↦
        let u =
          store-IsValid c scope (record e { status = count_failure t d now p }) keyed
            (rw h at (fail-IsConsistent t d now p w)) v in
        elim (Bool-cases (same_state (count_failure t d now p).state p.state)) [
          | inl k ↦ rw (h, k) u
          | inr k ↦ rw (h, k) (announce-IsValid _ scope p.state _ now u)
        ]
  ]

module _ (c : Circuits) (scope : String) (now : ℕ) where
  record_failure_at-IsValid :
      (e : CircuitEntry) (o : Options)
      → JsMap.get scope c.circuits ≡ some e
      → IsValid c
      → IsValid (record_failure_at c scope e o now)
  unfolding record_failure_at
  record_failure_at-IsValid e o h v =
      let w = stored-EntryValid c scope e h v in
      conclude_failure-IsValid _ scope now e w.keyed _ _ _
        (rw (get_circuit_state-read c scope now e h, read_entry-status c scope now e)
          (observe-IsConsistent now e.status w.consistent))
        (get_circuit_state-IsValid c scope now v)

  record_success-IsValid : IsValid c → IsValid (record_success c scope now)
  unfolding record_success record_success_at
  record_success-IsValid v = elim (Option-cases (JsMap.get scope c.circuits)) [
    | inl h ↦ rw (h, record_success) v
    | inr (e, h) ↦
        rw (h, record_success)
          (conclude_success-IsValid _ scope now e (stored-EntryValid c scope e h v).keyed _
            (get_circuit_state-IsValid c scope now v))
  ]

record_failure-IsValid :
    (c : Circuits) (scope : String) (o : Options) (now : ℕ)
    → IsValid c
    → IsValid (record_failure c scope o now)
unfolding record_failure
record_failure-IsValid c scope o now v = elim (Option-cases (JsMap.get scope c.circuits)) [
  | inl h ↦
      rw (h, record_failure)
        (record_failure_at-IsValid _ scope now fresh o (get-store_self c scope fresh)
          (store-IsValid c scope fresh refl unknown-IsConsistent v))
  | inr (e, h) ↦ rw (h, record_failure) (record_failure_at-IsValid c scope now e o h v)
]
  where
    fresh : CircuitEntry
    fresh = record { scope = scope; status = unknown_status }

reset_circuit-IsValid :
    (c : Circuits) (scope : String) (now : ℕ) → IsValid c → IsValid (reset_circuit c scope now)
unfolding reset_circuit
reset_circuit-IsValid c scope now v = elim (Bool-cases (JsMap.has scope c.circuits)) [
  | inl h ↦ rw h (announce-IsValid _ scope _ closed now removed)
  | inr h ↦ rw h removed
]
  where
    read_first : IsValid (get_circuit_state c scope now).0
    read_first = get_circuit_state-IsValid c scope now v

    removed : IsValid (record (get_circuit_state c scope now).0 {
      circuits = JsMap.delete scope (get_circuit_state c scope now).0.circuits;
    })
    removed = record {
      distinct = JsMap.delete-Distinct scope _ read_first.distinct;
      entries = JsMap.delete-All EntryValid scope _ read_first.entries;
    }

-- Every call of the module keeps the table well formed: each scope once and under its own name, a
-- cooldown set exactly while the circuit is not closed, and a failure counted and dated then.
pub step-IsValid : (c : Circuits) (call : Call) (now : ℕ) → IsValid c → IsValid (step c call now)
unfolding step
step-IsValid c (read scope) now v = get_circuit_state-IsValid c scope now v
step-IsValid c (success scope) now v = record_success-IsValid c scope now v
step-IsValid c (failure scope o) now v = record_failure-IsValid c scope o now v
step-IsValid c (reset scope) now v = reset_circuit-IsValid c scope now v
