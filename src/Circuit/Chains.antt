-- ===== src/Circuit/Chains.antt =====
-- src/rpc-circuit-state.ts: chains of announced transitions, and what each operation's parts announce.
use stream_fi_sdk.Base.{
  ℕ, ◌<◌, String, false, ◌≡◌, refl, sym, ap, subst, ◌∙◌, ◌≢◌, inl, inr, List, [], ◌∷◌, ◌++◌,
  append_assoc, append-nil, ◌===◌, if◌then◌else◌, arith, Bool-cases, Option-cases, string_eq,
  ===_iff, ===_refl,
}
use stream_fi_sdk.Base.JsMap
use stream_fi_sdk.Circuit.Entry.{
  CircuitState, closed, opened, half_open, CircuitStatus, same_state, is_due,
}
use stream_fi_sdk.Circuit.{
  CircuitEntry, Circuits, Event, changed, transition, notify_listeners, emit_transition, store,
  read_entry, get_circuit_state,
}
use stream_fi_sdk.Circuit.Record.{
  announce, announce_current, succeed, count_failure, reopen, conclude_success, conclude_failure,
}
use stream_fi_sdk.Circuit.Laws.{
  observe, status_at, fail, get-store_self, get_circuit_state_early, get_circuit_state-status,
}

-- The transitions of one scope among the events.
abbrev pub hops : String → List Event → List (CircuitState × CircuitState)
hops scope [] = []
hops scope (changed ls s status ∷ es) = hops scope es
hops scope (transition ls from to s ∷ es) =
    if s === scope then (from, to) ∷ hops scope es else hops scope es

-- The transitions lead from one state to another, each starting where the last one ended.
abbrev pub Chain : CircuitState → List (CircuitState × CircuitState) → CircuitState → Type 0
Chain a [] b = a ≡ b
Chain a ((from, to) ∷ hs) b = (a ≡ from) × (from ≢ to) × Chain to hs b

pub hops-append : (s : String) (xs ys : List Event) → hops s (xs ++ ys) ≡ hops s xs ++ hops s ys
hops-append s [] ys = refl
hops-append s (changed ls t st ∷ xs) ys = hops-append s xs ys
hops-append s (transition ls f t sc ∷ xs) ys = ground (arith, hops-append s xs ys)

pub Chain-append :
    (a b d : CircuitState) (xs ys : List (CircuitState × CircuitState))
    → Chain a xs b
    → Chain b ys d
    → Chain a (xs ++ ys) d
Chain-append a b d [] ys p q = rw p q
Chain-append a b d ((f, t) ∷ xs) ys p q = (p.0, p.1, Chain-append t b d xs ys p.2 q)

-- `c'` has the events of `c` and more, which lead `scope` from `a` to `b` and leave others alone.
pub record Emits (scope : String) (a b : CircuitState) (c c' : Circuits) : Type 0 where
  pub new : List Event
  pub appended : c'.events ≡ c.events ++ new
  pub chained : Chain a (hops scope new) b
  pub alone : (other : String) → scope ≢ other → hops other new ≡ []

pub reopen-quiet : (d now : ℕ) (p : CircuitStatus) → 0 < d → is_due now (reopen d now p) ≡ false
unfolding reopen
reopen-quiet d now p pos = ground arith

pub count_failure-quiet :
    (t d now : ℕ) (p : CircuitStatus)
    → is_due now p ≡ false
    → 0 < d
    → is_due now (count_failure t d now p) ≡ false
unfolding count_failure
count_failure-quiet t d now p early pos = ground arith

observe_early : (now : ℕ) (s : CircuitStatus) → is_due now s ≡ false → observe now s ≡ s
observe_early now s h = ground arith

pub observe-quiet : (now : ℕ) (s : CircuitStatus) → is_due now (observe now s) ≡ false
observe-quiet now s = ground arith

module _ (scope : String) where
  pub Emits-none :
      {a b : CircuitState} {c c' : Circuits} → c'.events ≡ c.events → a ≡ b → Emits scope a b c c'
  Emits-none {c} e h = record {
    new = [];
    appended = e ∙ sym (append-nil c.events);
    chained = h;
    alone = λ other n. refl;
  }

  pub Emits-trans :
      {a b d : CircuitState} {c c' c'' : Circuits}
      → Emits scope a b c c'
      → Emits scope b d c' c''
      → Emits scope a d c c''
  Emits-trans {a} {b} {d} {c} {c'} {c''} p q = record {
    new = p.new ++ q.new;
    appended = rw (q.appended, p.appended) (append_assoc c.events p.new q.new);
    chained = rw (hops-append scope p.new q.new) (Chain-append a b d _ _ p.chained q.chained);
    alone = λ other n. rw (hops-append other p.new q.new, p.alone other n) (q.alone other n);
  }

  pub notify_listeners-Emits :
      (a : CircuitState) (c : Circuits) (s : CircuitStatus)
      → Emits scope a a c (notify_listeners c scope s)
  unfolding notify_listeners
  notify_listeners-Emits a c s = record {
    new = changed c.listeners scope s ∷ [];
    appended = refl;
    chained = refl;
    alone = λ other n. refl;
  }

  -- Nothing is announced where the state stays.
  pub emit_transition-Emits :
      (from to : CircuitState) (c : Circuits)
      → Emits scope from to c (emit_transition c scope from to)
  unfolding emit_transition
  emit_transition-Emits from to c = elim (Bool-cases (same_state from to)) [
    | inl same ↦ rw same (Emits-none refl (ground arith))
    | inr differ ↦ rw differ (record {
      new = transition c.transition_listeners from to scope ∷ [];
      appended = refl;
      chained = ground (arith, ===_refl scope);
      alone = λ other n. ground (arith, ===_iff scope other);
    })
  ]

  pub read_entry-Emits :
      (c : Circuits) (e : CircuitEntry) (now : ℕ)
      → Emits scope e.status.state (observe now e.status).state c (read_entry c scope e now).0
  unfolding read_entry
  read_entry-Emits c e now = elim (Bool-cases (is_due now e.status)) [
    | inl due ↦
        let from : e.status.state ≡ opened = ground arith in
        rw (due, from)
          (Emits-trans (Emits-none {c' = store c scope (record e { status = observed })} refl refl)
            (Emits-trans (notify_listeners-Emits opened _ observed)
              (emit_transition-Emits opened half_open _)))
    | inr early ↦ rw early (Emits-none refl refl)
  ]
    where
      observed : CircuitStatus
      observed = record (e.status) { state = half_open }

  pub get_circuit_state-Emits :
      (c : Circuits) (now : ℕ)
      → Emits scope
          (status_at c scope).state
          (observe now (status_at c scope)).state
          c
          (get_circuit_state c scope now).0
  unfolding get_circuit_state
  get_circuit_state-Emits c now = elim (Option-cases (JsMap.get scope c.circuits)) [
    | inl h ↦ rw (h, get_circuit_state) (Emits-none refl refl)
    | inr (e, h) ↦ rw (h, get_circuit_state) (read_entry-Emits c e now)
  ]

  -- The status read for the notification is not due, so it emits nothing of its own.
  pub announce-Emits :
      (c : Circuits) (from to : CircuitState) (now : ℕ)
      → is_due now (status_at c scope) ≡ false
      → Emits scope from to c (announce c scope from to now)
  unfolding announce
  announce-Emits c from to now early =
      rw (get_circuit_state_early c scope now early)
        (Emits-trans (notify_listeners-Emits from c _) (emit_transition-Emits from to _))

  module _ (c : Circuits) (e : CircuitEntry) (p : CircuitStatus) (now : ℕ) where
    -- A status is written and the change announced.
    written-Emits :
        (s : CircuitStatus) (to : CircuitState)
        → is_due now s ≡ false
        → Emits scope p.state to c
            (announce (store c scope (record e { status = s })) scope p.state to now)
    written-Emits s to quiet =
        Emits-trans (Emits-none {c' = store c scope (record e { status = s })} refl refl) (
          announce-Emits (store c scope (record e { status = s })) p.state to now
            (rw get-store_self quiet))

    pub conclude_success-Emits : Emits scope p.state closed c (conclude_success c scope e p now)
    unfolding conclude_success succeed
    conclude_success-Emits = elim (Bool-cases (same_state p.state closed)) [
      | inl h ↦ rw h (Emits-none refl (ground arith))
      | inr h ↦ rw h (written-Emits (succeed now p) closed refl)
    ]

    pub conclude_failure-Emits :
        (t d : ℕ)
        → is_due now p ≡ false
        → 0 < d
        → Emits scope p.state (fail t d now p).state c (conclude_failure c scope e p t d now)
    unfolding conclude_failure reopen
    conclude_failure-Emits t d early pos = elim (Bool-cases (same_state p.state half_open)) [
      | inl h ↦ rw h (written-Emits (reopen d now p) opened (reopen-quiet d now p pos))
      | inr h ↦ elim (Bool-cases (same_state (count_failure t d now p).state p.state)) [
        | inl k ↦ rw (h, k) (Emits-none refl (ground arith))
        | inr k ↦
            let quiet = count_failure-quiet t d now p early pos in
            let counted = store c scope (record e { status = count_failure t d now p }) in
            let shown : (get_circuit_state counted scope now).1.state
                ≡ (count_failure t d now p).state =
              ap (λ (q : CircuitStatus). q.state)
                (get_circuit_state-status counted scope now _ (get-store_self c scope _)
                  ∙ observe_early now (count_failure t d now p) quiet) in
            rw (h, k)
              (subst (λ to. Emits scope p.state to c (announce_current counted scope p.state now))
                shown (written-Emits (count_failure t d now p) _ quiet))
      ]
    ]
