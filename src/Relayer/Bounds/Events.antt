-- ===== src/Relayer/Bounds/Events.antt =====
-- src/relayer/WebSocketRelayer.ts: every event keeps the bounds.
use stream_fi_sdk.Base.{
  ℕ, true, false, not, ◌&&◌, Option, none, some, List, [], ◌∷◌, String, arith, refl, if_cases,
  if◌then◌else◌,
}
use stream_fi_sdk.Base.{nat_eq, string_eq}
use stream_fi_sdk.Base.JsMap
use stream_fi_sdk.Relayer.State.{
  Socket, Task, WebSocketCtor, Relayer, has_socket, is_connected, should_attempt_reconnect,
  clear_heartbeat_timeout, stop_heartbeat, start_heartbeat, connected, disconnected, destroyed,
  connect_task, reconnect_task, send_task,
}
use stream_fi_sdk.Relayer.Connecting.{
  store_socket, on_open, after_close, on_close, on_error, close_socket, drop_socket,
  handle_heartbeat_timeout, disconnect, destroy,
}
use stream_fi_sdk.Relayer.Machine.{
  Options, new, Event, on, off, deliver, on_message, ping_to, on_ping, on_pong_timeout, on_opened,
  on_closed, on_errored, on_frame, run_task, take_turn, step, steps, calls_connect,
  calls_disconnect, calls_destroy, calls_send, calls_on, calls_off, calls_on_state_change,
  drops_on_state_change, opened, closed, errored, message, pings, pong_times_out, wakes, takes_turn,
}
use stream_fi_sdk.Relayer.Bounds.{
  IsBounded, emit_state_change-IsBounded, send-IsBounded, locked_send-IsBounded,
  flush_pending_messages-IsBounded,
}
use stream_fi_sdk.Relayer.Bounds.Connections.{
  same, finish-IsBounded, locked_connect-IsBounded, connect-IsBounded, give_up-IsBounded,
  attempt_reconnect-IsBounded, locked_reconnect-IsBounded, wake-IsBounded,
}

module _ {M : Type 0} where
  on_open-IsBounded :
      (r : Relayer M) (i : ℕ) (s : Socket) (now : ℕ) → IsBounded r → IsBounded (on_open r i s now)
  unfolding on_open start_heartbeat stop_heartbeat
  on_open-IsBounded r i s now v =
      if_cases IsBounded s.settled (λ d. v)
        (λ d. finish-IsBounded _ s.waiter (
          emit_state_change-IsBounded _ connected (
            flush_pending_messages-IsBounded _ now (same r _ v refl refl (omega arith) refl refl))))

  after_close-IsBounded : (r : Relayer M) → IsBounded r → IsBounded (after_close r)
  unfolding after_close
  after_close-IsBounded r v =
      if_cases IsBounded (not r.is_destroyed && r.reconnect_enabled && should_attempt_reconnect r)
        (λ c. attempt_reconnect-IsBounded r v) (λ c. give_up-IsBounded r v)

  on_close-IsBounded :
      (r : Relayer M) (i : ℕ) (s : Socket) → IsBounded r → IsBounded (on_close r i s)
  unfolding on_close stop_heartbeat
  on_close-IsBounded r i s v =
      if_cases IsBounded s.settled
        (λ d. after_close-IsBounded _ (same r _ v refl refl v.attempts refl refl))
        (λ d.
          finish-IsBounded _ s.waiter
            (after_close-IsBounded _ (same r _ v refl refl v.attempts refl refl)))

  on_error-IsBounded :
      (r : Relayer M) (i : ℕ) (s : Socket) → IsBounded r → IsBounded (on_error r i s)
  unfolding on_error
  on_error-IsBounded r i s v =
      if_cases IsBounded s.settled (λ d. v)
        (λ d. finish-IsBounded _ s.waiter (same r _ v refl refl v.attempts refl refl))

  close_socket-IsBounded :
      (r : Relayer M) (o : Option Socket) (i : ℕ) (detach : Socket → Socket)
      → IsBounded r
      → IsBounded (close_socket r o i detach)
  close_socket-IsBounded r none i detach v = v
  close_socket-IsBounded r (some s) i detach v = same r _ v refl refl v.attempts refl refl

  drop_socket-IsBounded :
      (r : Relayer M) (o : Option ℕ) (detach : Socket → Socket)
      → IsBounded r
      → IsBounded (drop_socket r o detach)
  unfolding drop_socket
  drop_socket-IsBounded r none detach v = v
  drop_socket-IsBounded r (some i) detach v =
      let u = close_socket-IsBounded r (JsMap.get i r.sockets) i detach v in
      same _ _ u refl refl u.attempts refl refl

  handle_heartbeat_timeout-IsBounded :
      (r : Relayer M) → IsBounded r → IsBounded (handle_heartbeat_timeout r)
  unfolding handle_heartbeat_timeout stop_heartbeat
  handle_heartbeat_timeout-IsBounded r v =
      let d : Relayer M =
        drop_socket (stop_heartbeat r) r.ws
          (λ s. record s { has_on_open = false; has_others = false }) in
      let u : IsBounded d =
        drop_socket-IsBounded _ r.ws _ (same r _ v refl refl v.attempts refl refl) in
      if_cases IsBounded d.is_destroyed (λ x. u)
        (λ x.
          if_cases IsBounded (d.reconnect_enabled && should_attempt_reconnect d)
            (λ y. attempt_reconnect-IsBounded d u) (λ y. give_up-IsBounded d u))

  disconnect-IsBounded : (r : Relayer M) → IsBounded r → IsBounded (disconnect r)
  unfolding disconnect stop_heartbeat
  disconnect-IsBounded r v =
      emit_state_change-IsBounded _ disconnected
        (drop_socket-IsBounded _ r.ws _ (same r _ v refl refl (omega arith) refl refl))

  destroy-IsBounded : (r : Relayer M) → IsBounded r → IsBounded (destroy r)
  unfolding destroy stop_heartbeat
  destroy-IsBounded r v =
      let off : Relayer M = stop_heartbeat (record r {
        is_destroyed = true;
        reconnect_enabled = false;
        reconnect_exhausted = true;
        connect_promise = none;
        offline_queue = [];
        reconnect_attempts = r.max_reconnect_attempts;
      }) in
      let w : IsBounded off = record {
        queue = omega arith;
        attempts = omega arith;
        lock = v.lock;
      } in
      let u =
        emit_state_change-IsBounded _ destroyed
          (drop_socket-IsBounded off r.ws (λ s. record s { has_others = false }) w) in
      record { queue = u.queue; attempts = u.attempts; lock = λ q. refl }

  deliver-IsBounded :
      (r : Relayer M) (type : String) (o : Option (List ℕ))
      → IsBounded r
      → IsBounded (deliver r type o)
  unfolding deliver
  deliver-IsBounded r type none v = v
  deliver-IsBounded r type (some hs) v = same r _ v refl refl v.attempts refl refl

  heard-IsBounded :
      (r : Relayer M)
      → IsBounded r
      → IsBounded (
          if r.awaiting_pong
          then clear_heartbeat_timeout (record r { awaiting_pong = false })
          else r)
  heard-IsBounded r v =
      if_cases IsBounded r.awaiting_pong (λ a. same r _ v refl refl v.attempts refl refl) (λ a. v)

  on_message-IsBounded :
      (r : Relayer M) (frame : Option String) → IsBounded r → IsBounded (on_message r frame)
  unfolding on_message
  on_message-IsBounded r none v = heard-IsBounded r v
  on_message-IsBounded r (some type) v = deliver-IsBounded _ type _ (heard-IsBounded r v)

  ping_to-IsBounded : (o : Option ℕ) (r : Relayer M) → IsBounded r → IsBounded (ping_to o r)
  ping_to-IsBounded none r v = v
  ping_to-IsBounded (some i) r v = same r _ v refl refl v.attempts refl refl

  on_ping-IsBounded : (r : Relayer M) → IsBounded r → IsBounded (on_ping r)
  unfolding on_ping
  on_ping-IsBounded r v =
      if_cases IsBounded (r.has_heartbeat && is_connected r && not r.awaiting_pong)
        (λ p. ping_to-IsBounded r.ws r v) (λ p. v)

  on_pong_timeout-IsBounded : (r : Relayer M) → IsBounded r → IsBounded (on_pong_timeout r)
  unfolding on_pong_timeout
  on_pong_timeout-IsBounded r v =
      let fired : IsBounded (clear_heartbeat_timeout r) =
        same r _ v refl refl v.attempts refl refl in
      if_cases IsBounded (not r.has_heartbeat_timeout) (λ n. v)
        (λ n.
          if_cases IsBounded (r.awaiting_pong && has_socket r.ws)
            (λ a. handle_heartbeat_timeout-IsBounded _ fired) (λ a. fired))

  on_opened-IsBounded :
      (r : Relayer M) (i : ℕ) (o : Option Socket) (now : ℕ)
      → IsBounded r
      → IsBounded (on_opened r i o now)
  unfolding on_opened
  on_opened-IsBounded r i none now v = v
  on_opened-IsBounded r i (some s) now v =
      let u =
        same r (store_socket r i (record s { is_open = true })) v refl refl v.attempts refl refl in
      if_cases IsBounded s.has_on_open (λ h. on_open-IsBounded _ i _ now u) (λ h. u)

  on_closed-IsBounded :
      (r : Relayer M) (i : ℕ) (o : Option Socket) → IsBounded r → IsBounded (on_closed r i o)
  unfolding on_closed
  on_closed-IsBounded r i none v = v
  on_closed-IsBounded r i (some s) v =
      let u =
        same r (store_socket r i (record s { is_open = false })) v refl refl v.attempts refl refl in
      if_cases IsBounded s.has_others (λ h. on_close-IsBounded _ i _ u) (λ h. u)

  on_errored-IsBounded :
      (r : Relayer M) (i : ℕ) (o : Option Socket) → IsBounded r → IsBounded (on_errored r i o)
  unfolding on_errored
  on_errored-IsBounded r i none v = v
  on_errored-IsBounded r i (some s) v =
      if_cases IsBounded s.has_others (λ h. on_error-IsBounded r i s v) (λ h. v)

  on_frame-IsBounded :
      (r : Relayer M) (o : Option Socket) (frame : Option String)
      → IsBounded r
      → IsBounded (on_frame r o frame)
  unfolding on_frame
  on_frame-IsBounded r none frame v = v
  on_frame-IsBounded r (some s) frame v =
      if_cases IsBounded s.has_others (λ h. on_message-IsBounded r frame v) (λ h. v)

  take_turn-IsBounded :
      (r : Relayer M) (ts : List (Task M)) (now : ℕ) → IsBounded r → IsBounded (take_turn r ts now)
  unfolding take_turn run_task
  take_turn-IsBounded r [] now v = v
  take_turn-IsBounded r (connect_task p ∷ ts) now v =
      locked_connect-IsBounded _ p (same r _ v refl refl v.attempts refl refl)
  take_turn-IsBounded r (reconnect_task ∷ ts) now v =
      locked_reconnect-IsBounded _ (same r _ v refl refl v.attempts refl refl)
  take_turn-IsBounded r (send_task m ∷ ts) now v =
      locked_send-IsBounded _ m now (same r _ v refl refl v.attempts refl refl)

  step-IsBounded : (r : Relayer M) (x : Event M) (now : ℕ) → IsBounded r → IsBounded (step r x now)
  unfolding step on off
  step-IsBounded r calls_connect now v = connect-IsBounded r v
  step-IsBounded r calls_disconnect now v = disconnect-IsBounded r v
  step-IsBounded r calls_destroy now v = destroy-IsBounded r v
  step-IsBounded r (calls_send m) now v = send-IsBounded r m now v
  step-IsBounded r (calls_on type h) now v = same r _ v refl refl v.attempts refl refl
  step-IsBounded r (calls_off type h) now v = same r _ v refl refl v.attempts refl refl
  step-IsBounded r (calls_on_state_change h) now v = same r _ v refl refl v.attempts refl refl
  step-IsBounded r (drops_on_state_change h) now v = same r _ v refl refl v.attempts refl refl
  step-IsBounded r (opened i) now v = on_opened-IsBounded r i _ now v
  step-IsBounded r (closed i) now v = on_closed-IsBounded r i _ v
  step-IsBounded r (errored i) now v = on_errored-IsBounded r i _ v
  step-IsBounded r (message i frame) now v = on_frame-IsBounded r _ frame v
  step-IsBounded r pings now v = on_ping-IsBounded r v
  step-IsBounded r pong_times_out now v = on_pong_timeout-IsBounded r v
  step-IsBounded r wakes now v = wake-IsBounded r v
  step-IsBounded r takes_turn now v = take_turn-IsBounded r r.turns now v

  runs-IsBounded :
      (r : Relayer M) (events : List (Event M × ℕ)) → IsBounded r → IsBounded (steps r events)
  unfolding steps
  runs-IsBounded r [] v = v
  runs-IsBounded r ((x, now) ∷ events) v =
      runs-IsBounded (step r x now) events (step-IsBounded r x now v)

  -- Whatever happens to a new relayer, in any order: its offline queue never has more messages than
  -- allowed (or one, if none is allowed), it never counts more reconnection attempts than allowed,
  -- and no task waits for the lock while it is free.
  pub steps-IsBounded :
      (c : WebSocketCtor) (o : Options) (events : List (Event M × ℕ))
      → IsBounded (steps (new c o) events)
  unfolding new
  steps-IsBounded c o events =
      runs-IsBounded (new c o) events
        (record { queue = omega arith; attempts = omega arith; lock = λ q. refl })
