-- ===== src/Relayer/Bounds/Connections.antt =====
-- src/relayer/WebSocketRelayer.ts: connecting and reconnecting keep the bounds.
use stream_fi_sdk.Base.{
  ℕ, ◌+◌, ◌-◌, ◌≤◌, ◌<◌, ◌≡◌, true, false, not, Option, none, some, arith, refl, sym, ◌∙◌, if_cases,
  ◌==◌,
}
use stream_fi_sdk.Base.{nat_eq, string_eq}
use stream_fi_sdk.Relayer.State.{
  Waiter, WebSocketCtor, Relayer, is_connected, acquire_lock, release_lock,
  should_attempt_reconnect, is_permanently_down, connecting, disconnected, reconnecting, by_connect,
  by_reconnect, connect_task, reconnect_task, missing, throws, works,
}
use stream_fi_sdk.Relayer.Connecting.{
  same_promise, finish, open_socket, establish_connection, locked_connect, connect, give_up,
  attempt_reconnect, locked_reconnect, wake,
}
use stream_fi_sdk.Relayer.Bounds.{
  IsBounded, acquire_lock-IsBounded, release_lock-IsBounded, emit_state_change-IsBounded,
}

module _ {M : Type 0} where
  -- The fields of `r'` that the bounds read are those of `r`.
  pub same :
      (r r' : Relayer M)
      → IsBounded r
      → r'.offline_queue ≡ r.offline_queue
      → r'.max_pending_messages ≡ r.max_pending_messages
      → r'.reconnect_attempts ≤ r'.max_reconnect_attempts
      → r'.is_locked ≡ r.is_locked
      → r'.lock_queue ≡ r.lock_queue
      → IsBounded r'
  same r r' v q m a l w = record {
    queue = rw (q, m) v.queue;
    attempts = a;
    lock = λ f. w ∙ v.lock (sym l ∙ f);
  }

  pub finish-IsBounded : (r : Relayer M) (w : Waiter) → IsBounded r → IsBounded (finish r w)
  unfolding finish
  finish-IsBounded r by_reconnect v = release_lock-IsBounded r v
  finish-IsBounded r (by_connect p) v =
      let u = release_lock-IsBounded r v in
      if_cases IsBounded (same_promise (release_lock r).connect_promise p)
        (λ s. same (release_lock r) _ u refl refl u.attempts refl refl) (λ s. u)

  open_socket-IsBounded :
      (c : WebSocketCtor) (r : Relayer M) (w : Waiter) → IsBounded r → IsBounded (open_socket c r w)
  open_socket-IsBounded missing r w v =
      finish-IsBounded _ w (emit_state_change-IsBounded r disconnected v)
  open_socket-IsBounded throws r w v = finish-IsBounded r w v
  open_socket-IsBounded works r w v = same r _ v refl refl v.attempts refl refl

  pub establish_connection-IsBounded :
      (r : Relayer M) (w : Waiter) → IsBounded r → IsBounded (establish_connection r w)
  unfolding establish_connection
  establish_connection-IsBounded r w v = open_socket-IsBounded r.ctor r w v

  pub locked_connect-IsBounded :
      (r : Relayer M) (p : ℕ) → IsBounded r → IsBounded (locked_connect r p)
  unfolding locked_connect
  locked_connect-IsBounded r p v =
      if_cases IsBounded (is_connected r) (λ c. finish-IsBounded r (by_connect p) v)
        (λ c.
          establish_connection-IsBounded _ (by_connect p)
            (emit_state_change-IsBounded r connecting v))

  pub connect-IsBounded : (r : Relayer M) → IsBounded r → IsBounded (connect r)
  unfolding connect
  connect-IsBounded r v = if_cases IsBounded r.is_destroyed (λ d. v) (λ d. joins r.connect_promise)
    where
      joins :
          (o : Option ℕ)
          → IsBounded (elim o [
            | none ↦
                acquire_lock
                  (record r {
                    reconnect_enabled = true;
                    reconnect_exhausted = false;
                    reconnect_attempts = 0;
                    connect_promise = some r.next_promise;
                    next_promise = r.next_promise + 1;
                  })
                  (connect_task r.next_promise)
            | some p ↦ record r {
              reconnect_enabled = true;
              reconnect_exhausted = false;
              reconnect_attempts = 0;
            }
          ])
      joins none = acquire_lock-IsBounded _ _ (same r _ v refl refl (omega arith) refl refl)
      joins (some p) = same r _ v refl refl (omega arith) refl refl

  pub give_up-IsBounded : (r : Relayer M) → IsBounded r → IsBounded (give_up r)
  unfolding give_up
  give_up-IsBounded r v = emit_state_change-IsBounded _ disconnected (
      if_cases IsBounded (is_permanently_down r) (λ d. same r _ v refl refl v.attempts refl refl)
        (λ d. v))

  pub attempt_reconnect-IsBounded : (r : Relayer M) → IsBounded r → IsBounded (attempt_reconnect r)
  unfolding attempt_reconnect
  attempt_reconnect-IsBounded r v =
      if_cases IsBounded (should_attempt_reconnect r)
        (λ s. acquire_lock-IsBounded r reconnect_task v) (λ s. give_up-IsBounded r v)

  attempts_left :
      (r : Relayer M)
      → should_attempt_reconnect r ≡ true
      → r.reconnect_attempts < r.max_reconnect_attempts
  unfolding should_attempt_reconnect
  attempts_left r h = ground arith

  pub locked_reconnect-IsBounded : (r : Relayer M) → IsBounded r → IsBounded (locked_reconnect r)
  unfolding locked_reconnect
  locked_reconnect-IsBounded r v =
      if_cases IsBounded (should_attempt_reconnect r)
        (λ s.
          let counted =
            same r (record r { reconnect_attempts = r.reconnect_attempts + 1 }) v refl refl
              (omega (arith, attempts_left r s)) refl refl in
          let u = emit_state_change-IsBounded _ reconnecting counted in
          same _ _ u refl refl u.attempts refl refl)
        (λ s. release_lock-IsBounded _ (give_up-IsBounded r v))

  pub wake-IsBounded : (r : Relayer M) → IsBounded r → IsBounded (wake r)
  unfolding wake
  wake-IsBounded r v =
      let awake =
        same r (record r { sleeping = r.sleeping - 1 }) v refl refl v.attempts refl refl in
      if_cases IsBounded (r.sleeping == 0) (λ z. v)
        (λ z.
          if_cases IsBounded r.is_destroyed (λ d. release_lock-IsBounded _ awake)
            (λ d.
              if_cases IsBounded (not r.reconnect_enabled) (λ o. release_lock-IsBounded _ awake)
                (λ o. establish_connection-IsBounded _ by_reconnect awake)))
