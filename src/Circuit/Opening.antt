-- ===== src/Circuit/Opening.antt =====
-- src/rpc-circuit-state.ts: how failures open a circuit, and what an open one does.
use stream_fi_sdk.Base.{
  ℕ, ◌+◌, ◌≤◌, ◌<◌, String, true, false, not, ◌≡◌, refl, ◌↔◌, ◌⊎◌, inl, inr, none, some, List, [],
  ◌∷◌, length, suc, ltb, leb, ◌≢◌, arith, string_eq,
}
use stream_fi_sdk.Base.JsMap
use stream_fi_sdk.Circuit.Entry.{closed, opened, half_open, CircuitStatus, same_state, is_due}
use stream_fi_sdk.Circuit.{Circuits, get_circuit_state}
use stream_fi_sdk.Circuit.Record.{
  Options, get_or, default_threshold, default_cooldown_ms, count_failure, reopen, record_failure,
}
use stream_fi_sdk.Circuit.Breaker.{
  RpcCircuitBreaker, start, settle, execute, Settled, resolved, rejected, rpc_timeout, other,
  circuit_open,
}
use stream_fi_sdk.Circuit.Laws.{
  observe, status_at, fail, status_at-failure, get_circuit_state_lem, status_at-read,
  get_circuit_state_early, record_success_clears,
}

-- Failures at the given times, with no success in between.
abbrev pub record_failures : Circuits → String → Options → List ℕ → Circuits
record_failures c scope o [] = c
record_failures c scope o (now ∷ times) =
    record_failures (record_failure c scope o now) scope o times

-- A status that has seen `n` failures and no success.
abbrev HasFailed : ℕ → ℕ → CircuitStatus → Type 0
HasFailed t n s = (s.failure_count ≡ n) × (same_state s.state closed ≡ ltb n t)

fail-HasFailed :
    (t d now n : ℕ) (s : CircuitStatus)
    → HasFailed t n s
    → HasFailed t (n + 1) (fail t d now (observe now s))
unfolding count_failure reopen
fail-HasFailed t d now n s h = ground arith

observe-HasFailed :
    (t now n : ℕ) (s : CircuitStatus) → HasFailed t n s → HasFailed t n (observe now s)
observe-HasFailed t now n s h = ground arith

record_failures-HasFailed :
    (c : Circuits) (scope : String) (o : Options) (times : List ℕ) (n : ℕ)
    → HasFailed (get_or o.threshold default_threshold) n (status_at c scope)
    → HasFailed
        (get_or o.threshold default_threshold)
        (n + length times)
        (status_at (record_failures c scope o times) scope)
record_failures-HasFailed c scope o [] n h = let e : n + 0 ≡ n = omega arith in rw e h
record_failures-HasFailed c scope o (now ∷ times) n h =
    let t = get_or o.threshold default_threshold in
    let d = get_or o.cooldown_ms default_cooldown_ms in
    let failed = fail-HasFailed t d now n (status_at c scope) h in
    let e : n + suc (length times) ≡ n + 1 + length times = omega arith in
    rw e (
      record_failures-HasFailed (record_failure c scope o now) scope o times (n + 1)
        (elim (status_at-failure c scope now o) [
          | inl k ↦ rw k failed
          | inr k ↦ rw k (
              observe-HasFailed t now (n + 1) (fail t d now (observe now (status_at c scope)))
                failed)
        ]))

-- From a scope with no record and a threshold of at least 1, a run of failures at any times counts
-- each of them, and a later read shows the circuit closed exactly while fewer failures than the
-- threshold have come.
pub record_failures_lem :
    (c : Circuits) (scope : String) (o : Options) (times : List ℕ) (now : ℕ)
    → JsMap.get scope c.circuits ≡ none
    → 0 < get_or o.threshold default_threshold
    → let s = (get_circuit_state (record_failures c scope o times) scope now).1 in
      (s.failure_count ≡ length times)
      × ((s.state ≡ closed) ↔ (length times < get_or o.threshold default_threshold))
record_failures_lem c scope o times now h p =
    let t = get_or o.threshold default_threshold in
    let start : HasFailed t 0 (status_at c scope) = rw h (refl, ground arith) in
    let failed = record_failures-HasFailed c scope o times 0 start in
    let s = status_at (record_failures c scope o times) scope in
    let shown = observe-HasFailed t now (0 + length times) s failed in
    rw get_circuit_state_lem (ground (arith, shown))

reopened_later :
    (t d now later : ℕ) (s : CircuitStatus)
    → s.state ≡ half_open
    → 0 < d
    → now ≤ later
    → (x : CircuitStatus)
    → (x ≡ fail t d now (observe now s)) ⊎ (x ≡ observe now (fail t d now (observe now s)))
    → not (same_state (observe later x).state opened) ≡ leb (now + d) later
unfolding reopen
reopened_later t d now later s h p q x e = ground arith

module _ (b : RpcCircuitBreaker) (c : Circuits) where
  -- While an open circuit is before its deadline, `execute` refuses at once: `fn` is not called,
  -- whatever it would do, and nothing is written or announced.
  pub execute_refused :
      {T E : Type 0} (settled : Settled T E) (until started ended : ℕ)
      → (status_at c b.scope).state ≡ opened
      → (status_at c b.scope).cooldown_until ≡ some until
      → started < until
      → execute b c settled started ended ≡ (c, circuit_open)
  unfolding execute start
  execute_refused settled until started ended o u h =
      let early : is_due started (status_at c b.scope) ≡ false = rw u (ground arith) in
      rw (get_circuit_state_early c b.scope started early, o)

  -- A probe of a half-open circuit that times out opens it again for the whole cooldown: later
  -- calls are let through exactly from the deadline on.
  pub start-settle_timeout :
      (T E : Type 0) (now later : ℕ)
      → (status_at c b.scope).state ≡ half_open
      → 0 < b.cooldown_ms
      → now ≤ later
      → (start b (settle {T = T} {E = E} b c (rejected rpc_timeout) now).0 later).1
        ≡ leb (now + b.cooldown_ms) later
  unfolding start settle
  start-settle_timeout T E now later s p q = rw get_circuit_state_lem (
      reopened_later b.threshold b.cooldown_ms now later (status_at c b.scope) s p q _
        (status_at-failure c b.scope now _))

  -- Any end but a timeout closes the circuit and clears the count, whatever the state was.
  pub settle_closes :
      {T E : Type 0} (settled : Settled T E) (now later : ℕ)
      → settled ≢ rejected rpc_timeout
      → let s = (get_circuit_state (settle b c settled now).0 b.scope later).1 in
        (s.state ≡ closed) × (s.failure_count ≡ 0)
  unfolding settle
  settle_closes (resolved result) now later n = record_success_clears c b.scope now later
  settle_closes (rejected rpc_timeout) now later n = absurd (n refl)
  settle_closes (rejected (other e)) now later n = record_success_clears c b.scope now later

  -- A half-open circuit does not limit its probes: from the deadline on, every call that starts
  -- before the first of them settles is let through.
  pub start_unlimited :
      (until : ℕ) (first second : ℕ)
      → (status_at c b.scope).state ≡ opened
      → (status_at c b.scope).cooldown_until ≡ some until
      → 0 < until
      → until ≤ first
      → ((start b c first).1 ≡ true) × ((start b (start b c first).0 second).1 ≡ true)
  unfolding start
  start_unlimited until first second o u z h =
      let due : observe first (status_at c b.scope)
          ≡ record (status_at c b.scope) { state = half_open } =
        rw (o, u) (ground arith) in
      rw (get_circuit_state_lem, get_circuit_state_lem, status_at-read, due) (refl, refl)
