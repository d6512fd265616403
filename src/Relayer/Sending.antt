-- ===== src/Relayer/Sending.antt =====
-- src/relayer/WebSocketRelayer.ts: `send`, the offline queue and its flush.
use stream_fi_sdk.Base.{
  ℕ, ◌-◌, Bool, not, ◌&&◌, Option, none, some, List, [], ◌∷◌, ◌++◌, length, ltb, leb, if◌then◌else◌,
  drop,
}
use stream_fi_sdk.Relayer.State.{
  QueuedMessage, send_task, sent, Relayer, is_connected, acquire_lock, release_lock,
}

-- What `send` has done when it first waits or ends.
pub data SendReply : Type 0 where
  threw_destroyed threw_exhausted queued waiting : SendReply

module _ {M : Type 0} where
  unfoldable pub queue_message : Relayer M → M → ℕ → Relayer M
  queue_message r message now =
      let room =
        if leb r.max_pending_messages (length r.offline_queue)
        then drop 1 r.offline_queue
        else r.offline_queue in
      record r { offline_queue = room ++ record { message = message; enqueued_at = now } ∷ [] }

  unfoldable pub send : Relayer M → M → ℕ → Relayer M × SendReply
  send r message now =
      if r.is_destroyed
      then (r, threw_destroyed)
      else if r.reconnect_exhausted
      then (r, threw_exhausted)
      else if not (is_connected r)
      then (queue_message r message now, queued)
      else (acquire_lock r (send_task message), waiting)

  abbrev pub write_to : Option ℕ → Relayer M → M → Relayer M
  write_to none r message = r
  write_to (some i) r message = record r { effects = r.effects ++ sent i message ∷ [] }

  -- The rest of `send` once it has the lock; an error rejects the caller's promise.
  unfoldable pub locked_send : Relayer M → M → ℕ → Relayer M
  locked_send r message now = release_lock (
      if r.is_destroyed
      then r
      else if r.reconnect_exhausted
      then r
      else if not (is_connected r)
      then queue_message r message now
      else write_to r.ws r message)

  -- `offlineBufferTtlMs > 0 && now - enqueuedAt > offlineBufferTtlMs`.
  abbrev pub is_stale : ℕ → ℕ → QueuedMessage M → Bool
  is_stale ttl_ms now q = ltb 0 ttl_ms && ltb ttl_ms (now - q.enqueued_at)

  unfoldable pub flush_from : Relayer M → List (QueuedMessage M) → ℕ → Relayer M
  flush_from r [] now = r
  flush_from r (q ∷ pending) now =
      if is_stale r.offline_buffer_ttl_ms now q
      then flush_from r pending now
      else flush_from (send r q.message now).0 pending now

  unfoldable pub flush_pending_messages : Relayer M → ℕ → Relayer M
  flush_pending_messages r now = flush_from (record r { offline_queue = [] }) r.offline_queue now
