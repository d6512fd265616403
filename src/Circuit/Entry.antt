-- ===== src/Circuit/Entry.antt =====
-- src/rpc-circuit-state.ts: one circuit's status, apart from the table that holds it.
use stream_fi_sdk.Base.{ℕ, Bool, true, false, ◌&&◌, Option, none, some, ltb, leb}

pub data CircuitState : Type 0 where
  closed opened half_open : CircuitState

pub record CircuitStatus : Type 0 where
  pub state : CircuitState
  pub failure_count : ℕ
  pub last_failure_at : Option ℕ
  pub last_success_at : Option ℕ
  pub cooldown_until : Option ℕ

abbrev pub same_state : CircuitState → CircuitState → Bool
same_state closed closed = true
same_state opened opened = true
same_state half_open half_open = true
same_state _ _ = false

-- `entry.cooldownUntil && Date.now() >= entry.cooldownUntil`: a deadline 0 counts as none.
abbrev pub past : ℕ → Option ℕ → Bool
past now none = false
past now (some t) = ltb 0 t && leb t now

-- The condition on which an open circuit turns half-open when it is read.
abbrev pub is_due : ℕ → CircuitStatus → Bool
is_due now s = same_state s.state opened && past now s.cooldown_until
