-- ===== src/Circuit/Laws.antt =====
-- What the operations of src/rpc-circuit-state.ts leave in the table of circuits.
use stream_fi_sdk.Base.{
  ℕ, ◌≤◌, String, false, ◌≡◌, refl, ap, ◌≢◌, ◌⊎◌, inl, inr, Option, none, some, if◌then◌else◌,
  arith, Bool-cases, Option-cases, string_eq, ===_iff, ===_refl,
}
use stream_fi_sdk.Base.JsMap
use stream_fi_sdk.Circuit.Entry.{
  CircuitState, closed, opened, half_open, CircuitStatus, same_state, is_due,
}
use stream_fi_sdk.Circuit.{
  CircuitEntry, Circuits, notify_listeners, emit_transition, unknown_status, store, read_entry,
  get_circuit_state,
}
use stream_fi_sdk.Circuit.Record.{
  Options, get_or, default_threshold, default_cooldown_ms, announce, succeed, count_failure, reopen,
  conclude_success, conclude_failure, record_success_at, record_success, record_failure_at,
  record_failure,
}

-- A status as a read at `now` shows it.
abbrev pub observe : ℕ → CircuitStatus → CircuitStatus
observe now s = if is_due now s then record s { state = half_open } else s

abbrev pub observe_entry : ℕ → CircuitEntry → CircuitEntry
observe_entry now e = record e { status = observe now e.status }

-- What one failure makes of an observed status.
abbrev pub fail : ℕ → ℕ → ℕ → CircuitStatus → CircuitStatus
fail threshold cooldown_ms now s =
    if same_state s.state half_open
    then reopen cooldown_ms now s
    else count_failure threshold cooldown_ms now s

pub observe_twice :
    (now later : ℕ) (s : CircuitStatus)
    → now ≤ later
    → observe later (observe now s) ≡ observe later s
observe_twice now later s h = ground arith

pub emit_transition-circuits :
    (c : Circuits) (scope : String) (from to : CircuitState)
    → (emit_transition c scope from to).circuits ≡ c.circuits
unfolding emit_transition
emit_transition-circuits c scope from to = ground arith

pub announce-circuits :
    (c : Circuits) (scope : String) (from to : CircuitState) (now : ℕ)
    → (announce c scope from to now).circuits ≡ (get_circuit_state c scope now).0.circuits
unfolding announce notify_listeners
announce-circuits c scope from to now = rw emit_transition-circuits

pub get-store :
    (c : Circuits) (scope other : String) (e : CircuitEntry)
    → scope ≢ other
    → JsMap.get other (store c scope e).circuits ≡ JsMap.get other c.circuits
get-store c scope other e h =
    ground (arith, JsMap.get-set scope other e c.circuits, ===_iff scope other)

pub get-store_self :
    (c : Circuits) (scope : String) (e : CircuitEntry)
    → JsMap.get scope (store c scope e).circuits ≡ some e
get-store_self c scope e = ground (arith, JsMap.get-set scope scope e c.circuits, ===_refl scope)

module _ (c : Circuits) (scope : String) (now : ℕ) where
  -- Reading a scope that is in the table.
  pub get_circuit_state-read :
      (e : CircuitEntry)
      → JsMap.get scope c.circuits ≡ some e
      → get_circuit_state c scope now ≡ read_entry c scope e now
  unfolding get_circuit_state
  get_circuit_state-read e h = rw (h, get_circuit_state)

  pub read_entry-status : (e : CircuitEntry) → (read_entry c scope e now).1 ≡ observe now e.status
  unfolding read_entry
  read_entry-status e = ground arith

  read_entry-get :
      (e : CircuitEntry)
      → JsMap.get scope c.circuits ≡ some e
      → JsMap.get scope (read_entry c scope e now).0.circuits ≡ some (observe_entry now e)
  unfolding read_entry notify_listeners
  read_entry-get e h = elim (Bool-cases (is_due now e.status)) [
    | inl due ↦
        rw (due, emit_transition-circuits)
          (get-store_self c scope (record e { status = record (e.status) { state = half_open } }))
    | inr early ↦ rw early h
  ]

  pub get-get_circuit_state :
      (e : CircuitEntry)
      → JsMap.get scope c.circuits ≡ some e
      → JsMap.get scope (get_circuit_state c scope now).0.circuits ≡ some (observe_entry now e)
  get-get_circuit_state e h = rw (get_circuit_state-read e h) (read_entry-get e h)

  pub get_circuit_state-status :
      (e : CircuitEntry)
      → JsMap.get scope c.circuits ≡ some e
      → (get_circuit_state c scope now).1 ≡ observe now e.status
  get_circuit_state-status e h = rw (get_circuit_state-read e h) (read_entry-status e)

  announce-get :
      (from to : CircuitState) (e : CircuitEntry)
      → JsMap.get scope c.circuits ≡ some e
      → JsMap.get scope (announce c scope from to now).circuits ≡ some (observe_entry now e)
  announce-get from to e h = rw announce-circuits (get-get_circuit_state e h)

module _ (c : Circuits) (scope : String) (now : ℕ) (e : CircuitEntry) where
  conclude_success-get :
      (p : CircuitStatus)
      → JsMap.get scope (conclude_success c scope e p now).circuits
        ≡ some (record e { status = succeed now p })
  unfolding conclude_success
  conclude_success-get p = elim (Bool-cases (same_state p.state closed)) [
    | inl h ↦ rw h (get-store_self c scope _)
    | inr h ↦ rw h (announce-get _ scope now p.state closed _ (get-store_self c scope _))
  ]

  -- A failure leaves `fail` of the status, read once more where the state changed.
  conclude_failure-get :
      (p : CircuitStatus) (t d : ℕ)
      → (JsMap.get scope (conclude_failure c scope e p t d now).circuits
          ≡ some (record e { status = fail t d now p }))
        ⊎ (JsMap.get scope (conclude_failure c scope e p t d now).circuits
            ≡ some (record e { status = observe now (fail t d now p) }))
  unfolding conclude_failure
  conclude_failure-get p t d = elim (Bool-cases (same_state p.state half_open)) [
    | inl h ↦ inr (rw h (announce-get _ scope now p.state opened _ (get-store_self c scope _)))
    | inr h ↦ elim (Bool-cases (same_state (count_failure t d now p).state p.state)) [
      | inl k ↦ inl (rw (h, k) (get-store_self c scope _))
      | inr k ↦ inr (rw (h, k) (announce-get _ scope now p.state _ _ (get-store_self c scope _)))
    ]
  ]

-- The status that the table holds for a scope; an unknown scope has the initial one.
abbrev pub status_of : Option CircuitEntry → CircuitStatus
status_of none = unknown_status
status_of (some e) = e.status

abbrev pub status_at : Circuits → String → CircuitStatus
status_at c scope = status_of (JsMap.get scope c.circuits)

module _ (c : Circuits) (scope : String) (now : ℕ) where
  pub get_circuit_state_lem : (get_circuit_state c scope now).1 ≡ observe now (status_at c scope)
  unfolding get_circuit_state
  get_circuit_state_lem = elim (Option-cases (JsMap.get scope c.circuits)) [
    | inl h ↦ rw (h, get_circuit_state)
    | inr (e, h) ↦ rw (h, get_circuit_state) (read_entry-status c scope now e)
  ]

  pub status_at-read :
      status_at (get_circuit_state c scope now).0 scope ≡ observe now (status_at c scope)
  unfolding get_circuit_state
  status_at-read = elim (Option-cases (JsMap.get scope c.circuits)) [
    | inl h ↦ rw (h, get_circuit_state) (ap status_of h)
    | inr (e, h) ↦ rw (h, get_circuit_state) (ap status_of (read_entry-get c scope now e h))
  ]

  pub status_at-success :
      (e : CircuitEntry)
      → JsMap.get scope c.circuits ≡ some e
      → status_at (record_success c scope now) scope ≡ succeed now (observe now (status_at c scope))
  unfolding record_success record_success_at
  status_at-success e h =
      rw
        (h, record_success, get_circuit_state-read c scope now e h, read_entry-status c scope now e)
        (ap status_of (conclude_success-get _ scope now e _))

  record_failure_at-status :
      (e : CircuitEntry) (o : Options)
      → JsMap.get scope c.circuits ≡ some e
      → let s =
          fail
            (get_or o.threshold default_threshold)
            (get_or o.cooldown_ms default_cooldown_ms)
            now
            (observe now e.status) in
        (status_at (record_failure_at c scope e o now) scope ≡ s)
        ⊎ (status_at (record_failure_at c scope e o now) scope ≡ observe now s)
  unfolding record_failure_at
  record_failure_at-status e o h =
      rw (get_circuit_state-read c scope now e h, read_entry-status c scope now e)
        (elim (conclude_failure-get (read_entry c scope e now).0 scope now e (observe now e.status)
          (get_or o.threshold default_threshold) (get_or o.cooldown_ms default_cooldown_ms)) [
            | inl k ↦ inl (ap status_of k)
            | inr k ↦ inr (ap status_of k)
          ])

-- A failure counts against the observed status; the notification may read the result once more.
pub status_at-failure :
    (c : Circuits) (scope : String) (now : ℕ) (o : Options)
    → let s =
        fail
          (get_or o.threshold default_threshold)
          (get_or o.cooldown_ms default_cooldown_ms)
          now
          (observe now (status_at c scope)) in
      (status_at (record_failure c scope o now) scope ≡ s)
      ⊎ (status_at (record_failure c scope o now) scope ≡ observe now s)
unfolding record_failure
status_at-failure c scope now o = elim (Option-cases (JsMap.get scope c.circuits)) [
  | inl h ↦
      rw (h, record_failure)
        (record_failure_at-status (store c scope fresh) scope now fresh o
          (get-store_self c scope fresh))
  | inr (e, h) ↦ rw (h, record_failure) (record_failure_at-status c scope now e o h)
]
  where
    fresh : CircuitEntry
    fresh = record { scope = scope; status = unknown_status }

-- A read before the deadline writes nothing.
pub get_circuit_state_early :
    (c : Circuits) (scope : String) (now : ℕ)
    → is_due now (status_at c scope) ≡ false
    → get_circuit_state c scope now ≡ (c, status_at c scope)
unfolding get_circuit_state read_entry
get_circuit_state_early c scope now h = elim (Option-cases (JsMap.get scope c.circuits)) [
  | inl k ↦ rw (k, get_circuit_state)
  | inr (e, k) ↦ rw (k, get_circuit_state) (let early = rw k at h in rw early refl)
]

-- After a success the circuit reads closed with no failure counted.
pub record_success_clears :
    (c : Circuits) (scope : String) (now later : ℕ)
    → let s = (get_circuit_state (record_success c scope now) scope later).1 in
      (s.state ≡ closed) × (s.failure_count ≡ 0)
unfolding succeed
record_success_clears c scope now later = elim (Option-cases (JsMap.get scope c.circuits)) [
  | inl k ↦
      let same : record_success c scope now ≡ c =
        unfold record_success in rw (k, record_success) refl in
      rw (same, get_circuit_state_lem, k) (refl, refl)
  | inr (e, k) ↦ rw (get_circuit_state_lem, status_at-success c scope now e k) (refl, refl)
]
