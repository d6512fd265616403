-- ===== src/Relayer/Bounds.antt =====
-- src/relayer/WebSocketRelayer.ts: the bounds that every event keeps.
pub mod Connections
pub mod Events
use stream_fi_sdk.Base.{
  ℕ, ◌+◌, ◌≤◌, ◌≡◌, max, Bool, true, false, not, Option, none, some, List, [], ◌∷◌, ◌++◌, length,
  length-append, length-drop, drop, arith, Bool-cases, inl, inr, refl, leb, if◌then◌else◌, if_cases,
}
use stream_fi_sdk.Relayer.State.{
  Relayer, QueuedMessage, send_task, is_connected, Task, Transition, Waiter, by_connect,
  by_reconnect, acquire_lock, release_lock, pass_lock, emit_state_change, should_attempt_reconnect,
  stop_heartbeat, start_heartbeat,
}
use stream_fi_sdk.Relayer.Sending.{
  SendReply, write_to, is_stale, queue_message, send, locked_send, flush_from,
  flush_pending_messages,
}

module _ {M : Type 0} where
  -- The offline queue has at most as many messages as allowed (or one, if none is allowed), no more
  -- attempts are counted than allowed, and nobody waits for a lock that is free.
  pub record IsBounded (r : Relayer M) : Type 0 where
    pub queue : length r.offline_queue ≤ max 1 r.max_pending_messages
    pub attempts : r.reconnect_attempts ≤ r.max_reconnect_attempts
    pub lock : r.is_locked ≡ false → r.lock_queue ≡ []

  pub acquire_lock-IsBounded :
      (r : Relayer M) (t : Task M) → IsBounded r → IsBounded (acquire_lock r t)
  unfolding acquire_lock
  acquire_lock-IsBounded r t v = elim (Bool-cases r.is_locked) [
    | inl h ↦ rw h (record { queue = v.queue; attempts = v.attempts; lock = λ q. cc q })
    | inr h ↦ rw h (record { queue = v.queue; attempts = v.attempts; lock = λ q. v.lock h })
  ]

  pass_lock-IsBounded :
      (r : Relayer M) (ts : List (Task M))
      → r.lock_queue ≡ ts
      → IsBounded r
      → IsBounded (pass_lock r ts)
  pass_lock-IsBounded r [] h v = record { queue = v.queue; attempts = v.attempts; lock = λ q. h }
  pass_lock-IsBounded r (t ∷ ts) h v = record {
    queue = v.queue;
    attempts = v.attempts;
    lock = λ q. cc (h, v.lock q);
  }

  pub release_lock-IsBounded : (r : Relayer M) → IsBounded r → IsBounded (release_lock r)
  unfolding release_lock
  release_lock-IsBounded r v = pass_lock-IsBounded r r.lock_queue refl v

  pub emit_state_change-IsBounded :
      (r : Relayer M) (t : Transition) → IsBounded r → IsBounded (emit_state_change r t)
  unfolding emit_state_change
  emit_state_change-IsBounded r t v = ground (arith, v.queue, v.attempts, v.lock)

  queue_message-IsBounded :
      (r : Relayer M) (m : M) (now : ℕ) → IsBounded r → IsBounded (queue_message r m now)
  unfolding queue_message
  queue_message-IsBounded r m now v =
      let room =
        if leb r.max_pending_messages (length r.offline_queue)
        then drop 1 r.offline_queue
        else r.offline_queue in
      record {
        queue = grown room (
            if_cases (λ (q : List (QueuedMessage M)). length q + 1 ≤ max 1 r.max_pending_messages)
              (leb r.max_pending_messages (length r.offline_queue))
              (λ full. ground (arith, v.queue, full, length-drop 1 r.offline_queue))
              (λ free. ground (arith, free)));
        attempts = v.attempts;
        lock = v.lock;
      }
    where
      grown :
          (q : List (QueuedMessage M))
          → length q + 1 ≤ max 1 r.max_pending_messages
          → length (q ++ record { message = m; enqueued_at = now } ∷ [])
            ≤ max 1 r.max_pending_messages
      grown q h = omega (arith, length-append q (record { message = m; enqueued_at = now } ∷ []))

  pub send-IsBounded : (r : Relayer M) (m : M) (now : ℕ) → IsBounded r → IsBounded (send r m now).0
  unfolding send
  send-IsBounded r m now v =
      if_cases (λ (x : Relayer M × SendReply). IsBounded x.0) r.is_destroyed (λ d. v)
        (λ d.
          if_cases (λ (x : Relayer M × SendReply). IsBounded x.0) r.reconnect_exhausted (λ e. v)
            (λ e.
              if_cases (λ (x : Relayer M × SendReply). IsBounded x.0) (not (is_connected r))
                (λ c. queue_message-IsBounded r m now v)
                (λ c. acquire_lock-IsBounded r (send_task m) v)))

  write_to-IsBounded :
      (o : Option ℕ) (r : Relayer M) (m : M) → IsBounded r → IsBounded (write_to o r m)
  write_to-IsBounded none r m v = v
  write_to-IsBounded (some i) r m v = record {
    queue = v.queue;
    attempts = v.attempts;
    lock = v.lock;
  }

  pub locked_send-IsBounded :
      (r : Relayer M) (m : M) (now : ℕ) → IsBounded r → IsBounded (locked_send r m now)
  unfolding locked_send
  locked_send-IsBounded r m now v = release_lock-IsBounded _ (
      if_cases IsBounded r.is_destroyed (λ d. v)
        (λ d.
          if_cases IsBounded r.reconnect_exhausted (λ e. v)
            (λ e.
              if_cases IsBounded (not (is_connected r)) (λ c. queue_message-IsBounded r m now v)
                (λ c. write_to-IsBounded r.ws r m v))))

  flush_from-IsBounded :
      (r : Relayer M) (pending : List (QueuedMessage M)) (now : ℕ)
      → IsBounded r
      → IsBounded (flush_from r pending now)
  unfolding flush_from
  flush_from-IsBounded r [] now v = v
  flush_from-IsBounded r (q ∷ pending) now v =
      if_cases IsBounded (is_stale r.offline_buffer_ttl_ms now q)
        (λ s. flush_from-IsBounded r pending now v)
        (λ s.
          flush_from-IsBounded (send r q.message now).0 pending now
            (send-IsBounded r q.message now v))

  pub flush_pending_messages-IsBounded :
      (r : Relayer M) (now : ℕ) → IsBounded r → IsBounded (flush_pending_messages r now)
  unfolding flush_pending_messages
  flush_pending_messages-IsBounded r now v =
      flush_from-IsBounded (record r { offline_queue = [] }) r.offline_queue now
        (record { queue = omega arith; attempts = v.attempts; lock = v.lock })
