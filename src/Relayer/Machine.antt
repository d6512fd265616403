-- ===== src/Relayer/Machine.antt =====
-- src/relayer/WebSocketRelayer.ts: the constructor, the message handlers, and the events that drive a
-- relayer.
use stream_fi_sdk.Base.{
  ℕ, true, false, not, ◌&&◌, Option, none, some, List, [], ◌∷◌, ◌++◌, String, ◌==◌, filter,
  if◌then◌else◌, nat_eq, string_eq,
}
use stream_fi_sdk.Base.JsMap
use stream_fi_sdk.Circuit.Record.{get_or}
use stream_fi_sdk.Relayer.State.{
  disconnected, Socket, Task, connect_task, reconnect_task, send_task, WebSocketCtor, delivered,
  pinged, Relayer, has_socket, is_connected, clear_heartbeat_timeout,
}
use stream_fi_sdk.Relayer.Sending.{send, locked_send}
use stream_fi_sdk.Relayer.Connecting.{
  locked_connect, locked_reconnect, connect, wake, store_socket, on_open, on_close, on_error,
  handle_heartbeat_timeout, disconnect, destroy,
}

pub record Options : Type 0 where
  pub max_pending_messages : Option ℕ
  pub max_reconnect_attempts : Option ℕ
  pub on_state_change : Option ℕ
  pub heartbeat_interval_ms : Option ℕ
  pub offline_buffer_ttl_ms : Option ℕ

abbrev pub one_handler : Option ℕ → List ℕ
one_handler none = []
one_handler (some h) = h ∷ []

unfoldable pub new : {M : Type 0} → WebSocketCtor → Options → Relayer M
new ctor options = record {
  ws = none;
  sockets = [];
  next_socket = 0;
  ctor = ctor;
  handlers = [];
  state_change_handlers = one_handler options.on_state_change;
  is_destroyed = false;
  is_locked = false;
  lock_queue = [];
  turns = [];
  sleeping = 0;
  connect_promise = none;
  next_promise = 0;
  reconnect_attempts = 0;
  reconnect_enabled = true;
  reconnect_exhausted = false;
  max_reconnect_attempts = get_or options.max_reconnect_attempts 5;
  offline_queue = [];
  max_pending_messages = get_or options.max_pending_messages 1000;
  offline_buffer_ttl_ms = get_or options.offline_buffer_ttl_ms 0;
  state_transition = disconnected;
  heartbeat_interval_ms = get_or options.heartbeat_interval_ms 30000;
  has_heartbeat = false;
  has_heartbeat_timeout = false;
  awaiting_pong = false;
  effects = [];
}

pub add_once : ℕ → List ℕ → List ℕ
add_once h [] = h ∷ []
add_once h (k ∷ ks) = let rest = add_once h ks in if k == h then k ∷ ks else k ∷ rest

abbrev pub without : ℕ → List ℕ → List ℕ
without h = filter (λ k. not (k == h))

-- A set of handlers that has become empty is dropped.
abbrev pub store_handlers : String → List ℕ → List (String × List ℕ) → List (String × List ℕ)
store_handlers type [] m = JsMap.delete type m
store_handlers type (h ∷ hs) m = JsMap.set type (h ∷ hs) m

abbrev pub remove_handler :
    String → ℕ → Option (List ℕ) → List (String × List ℕ) → List (String × List ℕ)
remove_handler type h none m = m
remove_handler type h (some hs) m = store_handlers type (without h hs) m

-- What happens to a relayer: the calls of its methods, the events of a socket, its timers, and the
-- turn of the next task that has the lock.
pub data Event (M : Type 0) : Type 0 where
  calls_connect calls_disconnect calls_destroy : Event M
  calls_send : M → Event M
  calls_on calls_off : String → ℕ → Event M
  calls_on_state_change drops_on_state_change : ℕ → Event M
  opened closed errored : ℕ → Event M
  message : ℕ → Option String → Event M
  pings pong_times_out wakes takes_turn : Event M

module _ {M : Type 0} where
  unfoldable pub on : Relayer M → String → ℕ → Relayer M
  on r type h = record r {
    handlers = JsMap.set type (add_once h (get_or (JsMap.get type r.handlers) [])) r.handlers;
  }

  unfoldable pub off : Relayer M → String → ℕ → Relayer M
  off r type h = record r {
    handlers = remove_handler type h (JsMap.get type r.handlers) r.handlers;
  }

  unfoldable pub deliver : Relayer M → String → Option (List ℕ) → Relayer M
  deliver r type none = r
  deliver r type (some hs) = record r { effects = r.effects ++ delivered hs type ∷ [] }

  -- A message is its `type`, or nothing if it cannot be read or has none. Any frame is taken for the
  -- pong, so that none is awaited any more when it is handled.
  unfoldable pub on_message : Relayer M → Option String → Relayer M
  on_message r frame =
      let alive =
        if r.awaiting_pong
        then clear_heartbeat_timeout (record r { awaiting_pong = false })
        else r in
      elim frame [ none ↦ alive | some type ↦ deliver alive type (JsMap.get type alive.handlers) ]

  abbrev pub ping_to : Option ℕ → Relayer M → Relayer M
  ping_to none r = r
  ping_to (some i) r = record r {
    effects = r.effects ++ pinged i ∷ [];
    awaiting_pong = true;
    has_heartbeat_timeout = true;
  }

  unfoldable pub on_ping : Relayer M → Relayer M
  on_ping r = if r.has_heartbeat && is_connected r && not r.awaiting_pong then ping_to r.ws r else r

  unfoldable pub on_pong_timeout : Relayer M → Relayer M
  on_pong_timeout r =
      let fired = clear_heartbeat_timeout r in
      if not r.has_heartbeat_timeout
      then r
      else if r.awaiting_pong && has_socket r.ws
      then handle_heartbeat_timeout fired
      else fired

  -- An event of a socket changes its state, then calls its callback if it is still set.
  unfoldable pub on_opened : Relayer M → ℕ → Option Socket → ℕ → Relayer M
  on_opened r i none now = r
  on_opened r i (some s) now =
      let s' = record s { is_open = true } in
      let r' = store_socket r i s' in if s.has_on_open then on_open r' i s' now else r'

  unfoldable pub on_closed : Relayer M → ℕ → Option Socket → Relayer M
  on_closed r i none = r
  on_closed r i (some s) =
      let s' = record s { is_open = false } in
      let r' = store_socket r i s' in if s.has_others then on_close r' i s' else r'

  unfoldable pub on_errored : Relayer M → ℕ → Option Socket → Relayer M
  on_errored r i none = r
  on_errored r i (some s) = if s.has_others then on_error r i s else r

  unfoldable pub on_frame : Relayer M → Option Socket → Option String → Relayer M
  on_frame r none frame = r
  on_frame r (some s) frame = if s.has_others then on_message r frame else r

  unfoldable pub run_task : Relayer M → Task M → ℕ → Relayer M
  run_task r (connect_task p) now = locked_connect r p
  run_task r reconnect_task now = locked_reconnect r
  run_task r (send_task m) now = locked_send r m now

  unfoldable pub take_turn : Relayer M → List (Task M) → ℕ → Relayer M
  take_turn r [] now = r
  take_turn r (t ∷ ts) now = run_task (record r { turns = ts }) t now

  unfoldable pub step : Relayer M → Event M → ℕ → Relayer M
  step r calls_connect now = connect r
  step r calls_disconnect now = disconnect r
  step r calls_destroy now = destroy r
  step r (calls_send m) now = (send r m now).0
  step r (calls_on type h) now = on r type h
  step r (calls_off type h) now = off r type h
  step r (calls_on_state_change h) now = record r {
    state_change_handlers = add_once h r.state_change_handlers;
  }
  step r (drops_on_state_change h) now = record r {
    state_change_handlers = without h r.state_change_handlers;
  }
  step r (opened i) now = on_opened r i (JsMap.get i r.sockets) now
  step r (closed i) now = on_closed r i (JsMap.get i r.sockets)
  step r (errored i) now = on_errored r i (JsMap.get i r.sockets)
  step r (message i frame) now = on_frame r (JsMap.get i r.sockets) frame
  step r pings now = on_ping r
  step r pong_times_out now = on_pong_timeout r
  step r wakes now = wake r
  step r takes_turn now = take_turn r r.turns now

  unfoldable pub steps : Relayer M → List (Event M × ℕ) → Relayer M
  steps r [] = r
  steps r ((x, now) ∷ events) = steps (step r x now) events
