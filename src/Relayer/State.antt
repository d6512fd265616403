-- ===== src/Relayer/State.antt =====
-- src/relayer/WebSocketRelayer.ts: the state, the lock and the state changes that are announced.
use stream_fi_sdk.Base.{
  ℕ, Bool, true, false, not, ◌&&◌, Option, none, some, List, [], ◌∷◌, ◌++◌, String, ltb, leb,
  if◌then◌else◌, nat_eq,
}
use stream_fi_sdk.Base.JsMap

pub data Transition : Type 0 where
  connecting connected disconnected reconnecting destroyed : Transition

pub record QueuedMessage (M : Type 0) : Type 0 where
  pub message : M
  pub enqueued_at : ℕ

-- Who waits for a socket to settle: a `connect`, by its promise, or a reconnection.
pub data Waiter : Type 0 where
  by_connect : ℕ → Waiter
  by_reconnect : Waiter

-- A socket that was opened: `readyState === 1`, the variable `settled` of its promise, and which of
-- its callbacks are still set.
pub record Socket : Type 0 where
  pub is_open : Bool
  pub settled : Bool
  pub has_on_open : Bool
  pub has_others : Bool
  pub waiter : Waiter

-- What waits for the lock, or for its turn once it has it.
pub data Task (M : Type 0) : Type 0 where
  connect_task : ℕ → Task M
  reconnect_task : Task M
  send_task : M → Task M

-- How the constructor of the browser's `WebSocket` behaves.
pub data WebSocketCtor : Type 0 where
  missing throws works : WebSocketCtor

pub data Effect (M : Type 0) : Type 0 where
  announced : List ℕ → Transition → Effect M
  sent : ℕ → M → Effect M
  pinged : ℕ → Effect M
  delivered : List ℕ → String → Effect M

pub record Relayer (M : Type 0) : Type 0 where
  pub ws : Option ℕ
  pub sockets : List (ℕ × Socket)
  pub next_socket : ℕ
  pub ctor : WebSocketCtor
  pub handlers : List (String × List ℕ)
  pub state_change_handlers : List ℕ
  pub is_destroyed : Bool
  pub is_locked : Bool
  pub lock_queue : List (Task M)
  pub turns : List (Task M)
  pub sleeping : ℕ
  pub connect_promise : Option ℕ
  pub next_promise : ℕ
  pub reconnect_attempts : ℕ
  pub reconnect_enabled : Bool
  pub reconnect_exhausted : Bool
  pub max_reconnect_attempts : ℕ
  pub offline_queue : List (QueuedMessage M)
  pub max_pending_messages : ℕ
  pub offline_buffer_ttl_ms : ℕ
  pub state_transition : Transition
  pub heartbeat_interval_ms : ℕ
  pub has_heartbeat : Bool
  pub has_heartbeat_timeout : Bool
  pub awaiting_pong : Bool
  pub effects : List (Effect M)

abbrev pub same_transition : Transition → Transition → Bool
same_transition connecting connecting = true
same_transition connected connected = true
same_transition disconnected disconnected = true
same_transition reconnecting reconnecting = true
same_transition destroyed destroyed = true
same_transition _ _ = false

abbrev pub is_open_socket : Option Socket → Bool
is_open_socket none = false
is_open_socket (some s) = s.is_open

abbrev pub has_socket : Option ℕ → Bool
has_socket none = false
has_socket (some i) = true

unfoldable pub socket_open : Option ℕ → List (ℕ × Socket) → Bool
socket_open none sockets = false
socket_open (some i) sockets = is_open_socket (JsMap.get i sockets)

module _ {M : Type 0} where
  -- `this.ws && this.ws.readyState === 1`.
  abbrev pub is_connected : Relayer M → Bool
  is_connected r = socket_open r.ws r.sockets

  -- `state.reconnecting`.
  abbrev pub is_reconnecting : Relayer M → Bool
  is_reconnecting r =
      not r.is_destroyed
      && not r.reconnect_exhausted
      && r.reconnect_enabled
      && ltb 0 r.reconnect_attempts
      && not (is_connected r)

  unfoldable pub acquire_lock : Relayer M → Task M → Relayer M
  acquire_lock r t =
      if r.is_locked
      then record r { lock_queue = r.lock_queue ++ t ∷ [] }
      else record r { is_locked = true; turns = r.turns ++ t ∷ [] }

  abbrev pub pass_lock : Relayer M → List (Task M) → Relayer M
  pass_lock r [] = record r { is_locked = false }
  pass_lock r (t ∷ ts) = record r { lock_queue = ts; turns = r.turns ++ t ∷ [] }

  unfoldable pub release_lock : Relayer M → Relayer M
  release_lock r = pass_lock r r.lock_queue

  unfoldable pub emit_state_change : Relayer M → Transition → Relayer M
  emit_state_change r t = if same_transition r.state_transition t then r else record r {
    state_transition = t;
    effects = r.effects ++ announced r.state_change_handlers t ∷ [];
  }

  unfoldable pub should_attempt_reconnect : Relayer M → Bool
  should_attempt_reconnect r =
      not r.is_destroyed
      && r.reconnect_enabled
      && ltb r.reconnect_attempts r.max_reconnect_attempts
      && not (is_connected r)

  unfoldable pub is_permanently_down : Relayer M → Bool
  is_permanently_down r =
      not r.is_destroyed
      && r.reconnect_enabled
      && leb r.max_reconnect_attempts r.reconnect_attempts
      && not (is_connected r)

  abbrev pub clear_heartbeat_timeout : Relayer M → Relayer M
  clear_heartbeat_timeout r = record r { has_heartbeat_timeout = false }

  unfoldable pub stop_heartbeat : Relayer M → Relayer M
  stop_heartbeat r = record r {
    has_heartbeat_timeout = false;
    has_heartbeat = false;
    awaiting_pong = false;
  }

  unfoldable pub start_heartbeat : Relayer M → Relayer M
  start_heartbeat r = record (stop_heartbeat r) { has_heartbeat = ltb 0 r.heartbeat_interval_ms }
