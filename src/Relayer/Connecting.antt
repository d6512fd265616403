-- ===== src/Relayer/Connecting.antt =====
-- src/relayer/WebSocketRelayer.ts: the connection and the reconnections.
use stream_fi_sdk.Base.{
  ℕ, ◌+◌, ◌-◌, Bool, true, false, not, ◌&&◌, Option, none, some, [], ◌==◌, if◌then◌else◌, nat_eq,
}
use stream_fi_sdk.Base.JsMap
use stream_fi_sdk.Relayer.State.{
  connecting, connected, disconnected, reconnecting, destroyed, Waiter, by_connect, by_reconnect,
  Socket, connect_task, reconnect_task, WebSocketCtor, missing, throws, works, Relayer,
  is_connected, acquire_lock, release_lock, emit_state_change, should_attempt_reconnect,
  is_permanently_down, stop_heartbeat, start_heartbeat,
}
use stream_fi_sdk.Relayer.Sending.{flush_pending_messages}

abbrev pub same_promise : Option ℕ → ℕ → Bool
same_promise none p = false
same_promise (some q) p = q == p

abbrev pub new_socket : Waiter → Socket
new_socket waiter = record {
  is_open = false;
  settled = false;
  has_on_open = true;
  has_others = true;
  waiter = waiter;
}

module _ {M : Type 0} where
  -- The `finally` blocks once the wait for a socket is over.
  unfoldable pub finish : Relayer M → Waiter → Relayer M
  finish r by_reconnect = release_lock r
  finish r (by_connect p) =
      let released = release_lock r in
      if same_promise released.connect_promise p
      then record released { connect_promise = none }
      else released

  abbrev pub open_socket : WebSocketCtor → Relayer M → Waiter → Relayer M
  open_socket missing r waiter = finish (emit_state_change r disconnected) waiter
  open_socket throws r waiter = finish r waiter
  open_socket works r waiter = record r {
    ws = some r.next_socket;
    sockets = JsMap.set r.next_socket (new_socket waiter) r.sockets;
    next_socket = r.next_socket + 1;
  }

  unfoldable pub establish_connection : Relayer M → Waiter → Relayer M
  establish_connection r waiter = open_socket r.ctor r waiter

  -- The rest of `doConnect` once it has the lock.
  unfoldable pub locked_connect : Relayer M → ℕ → Relayer M
  locked_connect r p =
      if is_connected r
      then finish r (by_connect p)
      else establish_connection (emit_state_change r connecting) (by_connect p)

  unfoldable pub connect : Relayer M → Relayer M
  connect r =
      let reset = record r {
        reconnect_enabled = true;
        reconnect_exhausted = false;
        reconnect_attempts = 0;
      } in
      let fresh = record reset {
        connect_promise = some r.next_promise;
        next_promise = r.next_promise + 1;
      } in
      if r.is_destroyed then r else elim r.connect_promise [
        | none ↦ acquire_lock fresh (connect_task r.next_promise)
        | some p ↦ reset
      ]

  -- No reconnection: for good if the attempts are used up.
  unfoldable pub give_up : Relayer M → Relayer M
  give_up r =
      emit_state_change
        (if is_permanently_down r then record r { reconnect_exhausted = true } else r) disconnected

  unfoldable pub attempt_reconnect : Relayer M → Relayer M
  attempt_reconnect r =
      if should_attempt_reconnect r then acquire_lock r reconnect_task else give_up r

  -- Its rest once it has the lock, up to the wait.
  unfoldable pub locked_reconnect : Relayer M → Relayer M
  locked_reconnect r =
      let counted = record r { reconnect_attempts = r.reconnect_attempts + 1 } in
      let waiting = emit_state_change counted reconnecting in
      if should_attempt_reconnect r
      then record waiting { sleeping = waiting.sleeping + 1 }
      else release_lock (give_up r)

  -- Its end, after the wait.
  unfoldable pub wake : Relayer M → Relayer M
  wake r =
      let awake = record r { sleeping = r.sleeping - 1 } in
      if r.sleeping == 0
      then r
      else if r.is_destroyed
      then release_lock awake
      else if not r.reconnect_enabled
      then release_lock awake
      else establish_connection awake by_reconnect

  abbrev pub store_socket : Relayer M → ℕ → Socket → Relayer M
  store_socket r i s = record r { sockets = JsMap.set i s r.sockets }

  unfoldable pub on_open : Relayer M → ℕ → Socket → ℕ → Relayer M
  on_open r i s now =
      let settled = record (store_socket r i (record s { settled = true })) {
        reconnect_attempts = 0;
        reconnect_exhausted = false;
      } in
      let flushed = flush_pending_messages (start_heartbeat settled) now in
      if s.settled then r else finish (emit_state_change flushed connected) s.waiter

  unfoldable pub after_close : Relayer M → Relayer M
  after_close r =
      if not r.is_destroyed && r.reconnect_enabled && should_attempt_reconnect r
      then attempt_reconnect r
      else give_up r

  unfoldable pub on_close : Relayer M → ℕ → Socket → Relayer M
  on_close r i s =
      let closed = record (stop_heartbeat r) { ws = none } in
      let settled = store_socket closed i (record s { settled = true }) in
      if s.settled then after_close closed else finish (after_close settled) s.waiter

  unfoldable pub on_error : Relayer M → ℕ → Socket → Relayer M
  on_error r i s =
      if s.settled then r else finish (store_socket r i (record s { settled = true })) s.waiter

  -- `close()` on the socket in use, with the callbacks that are taken off it first.
  abbrev pub close_socket : Relayer M → Option Socket → ℕ → (Socket → Socket) → Relayer M
  close_socket r none i detach = r
  close_socket r (some s) i detach = store_socket r i (record (detach s) { is_open = false })

  unfoldable pub drop_socket : Relayer M → Option ℕ → (Socket → Socket) → Relayer M
  drop_socket r none detach = r
  drop_socket r (some i) detach = record (close_socket r (JsMap.get i r.sockets) i detach) {
    ws = none;
  }

  unfoldable pub handle_heartbeat_timeout : Relayer M → Relayer M
  handle_heartbeat_timeout r =
      let detached =
        drop_socket (stop_heartbeat r) r.ws
          (λ s. record s { has_on_open = false; has_others = false }) in
      if detached.is_destroyed
      then detached
      else if detached.reconnect_enabled && should_attempt_reconnect detached
      then attempt_reconnect detached
      else give_up detached

  unfoldable pub disconnect : Relayer M → Relayer M
  disconnect r =
      let off = record r {
        reconnect_enabled = false;
        connect_promise = none;
        reconnect_attempts = 0;
        reconnect_exhausted = false;
      } in
      emit_state_change (drop_socket (stop_heartbeat off) r.ws (λ s. s)) disconnected

  unfoldable pub destroy : Relayer M → Relayer M
  destroy r =
      let off = record r {
        is_destroyed = true;
        reconnect_enabled = false;
        reconnect_exhausted = true;
        connect_promise = none;
        offline_queue = [];
        reconnect_attempts = r.max_reconnect_attempts;
      } in
      let detached = drop_socket (stop_heartbeat off) r.ws (λ s. record s { has_others = false }) in
      record (emit_state_change detached destroyed) {
        handlers = [];
        state_change_handlers = [];
        lock_queue = [];
        is_locked = false;
      }
