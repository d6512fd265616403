-- ===== src/Tests/Relayers.antt =====
-- src/relayer/WebSocketRelayer.ts at small inputs.
use stream_fi_sdk.Base.{
  false, ℕ, ◌≡◌, true, refl, none, some, List, [], ◌∷◌, String, nat_eq, string_eq,
}
use stream_fi_sdk.Base.JsMap
use stream_fi_sdk.Relayer.State.{
  Socket, sent, announced, connected, Relayer, socket_open, acquire_lock, release_lock,
  emit_state_change, should_attempt_reconnect, is_permanently_down, stop_heartbeat, start_heartbeat,
  by_connect, works,
}
use stream_fi_sdk.Relayer.Sending.{send, locked_send, flush_pending_messages, flush_from}
use stream_fi_sdk.Relayer.Connecting.{
  finish, establish_connection, locked_connect, connect, give_up, attempt_reconnect, on_open,
  after_close, on_close, on_error, drop_socket, disconnect, destroy,
}
use stream_fi_sdk.Relayer.Machine.{
  Options, new, Event, on_opened, on_closed, on_errored, run_task, take_turn, step, steps,
  calls_connect, calls_disconnect, calls_destroy, calls_send, opened, closed, errored, takes_turn,
}
use stream_fi_sdk.Relayer.Bounds.{IsBounded}
use stream_fi_sdk.Relayer.Bounds.Events.{steps-IsBounded}
use stream_fi_sdk.Relayer.Turns.{take_turns}

abbrev defaults : Options
defaults = record {
  max_pending_messages = some 2;
  max_reconnect_attempts = none;
  on_state_change = some 9;
  heartbeat_interval_ms = none;
  offline_buffer_ttl_ms = some 100;
}

-- Destroyed in the turn of its `connect`, a relayer opens a socket all the same.
destroy_late :
    let r =
      steps {M = String}
        (new works defaults)
        ((calls_connect, 0) ∷ (calls_destroy, 0) ∷ (takes_turn, 0) ∷ []) in
    (r.is_destroyed ≡ true) × (r.ws ≡ some 0)
unfolding steps step new connect acquire_lock destroy drop_socket take_turn run_task locked_connect
    socket_open establish_connection emit_state_change stop_heartbeat
destroy_late = (refl, refl)

-- Disconnected while it opens a socket and connected again, a relayer forgets its second socket when
-- the first one reports its end.
close_late :
    let r = steps {M = String} (new works defaults) (
      (calls_connect, 0)
      ∷ (takes_turn, 0)
      ∷ (calls_disconnect, 1)
      ∷ (calls_connect, 1)
      ∷ (errored 0, 2)
      ∷ (takes_turn, 2)
      ∷ (closed 0, 2)
      ∷ (opened 1, 3)
      ∷ []) in
    (r.ws ≡ none) × (socket_open (some 1) r.sockets ≡ true)
unfolding steps step new connect acquire_lock disconnect drop_socket take_turn run_task
    locked_connect socket_open establish_connection emit_state_change stop_heartbeat start_heartbeat
    on_opened on_open on_closed on_close on_errored on_error finish release_lock after_close
    attempt_reconnect give_up should_attempt_reconnect is_permanently_down flush_pending_messages
    flush_from JsMap.get JsMap.set
close_late = (refl, refl)

abbrev events : List (Event String × ℕ)
events =
    (calls_send "a", 0)
    ∷ (calls_send "b", 1)
    ∷ (calls_send "c", 2)
    ∷ (calls_connect, 3)
    ∷ (takes_turn, 3)
    ∷ []

steps-IsBounded_example : IsBounded (steps (new works defaults) events)
steps-IsBounded_example = steps-IsBounded works defaults events

-- Two messages were sent offline, and the socket has opened.
abbrev open_socket : Socket
open_socket = record {
  is_open = true;
  settled = false;
  has_on_open = true;
  has_others = true;
  waiter = by_connect 0;
}

abbrev opening : Relayer String
opening = record (new works defaults) {
  ws = some 0;
  sockets = (0, open_socket) ∷ [];
  is_locked = true;
  offline_queue =
      record { message = "b"; enqueued_at = 1 } ∷ record { message = "c"; enqueued_at = 150 } ∷ [];
}

-- The first of them is too old.
second_sent :
    (take_turns 1 (on_open opening 0 open_socket 200) 200).effects
    ≡ announced (9 ∷ []) connected ∷ sent 0 "c" ∷ []
unfolding new on_open start_heartbeat stop_heartbeat flush_pending_messages flush_from send
    acquire_lock socket_open emit_state_change finish release_lock take_turns take_turn run_task
    locked_send JsMap.get JsMap.set
second_sent = refl
