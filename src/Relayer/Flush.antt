-- ===== src/Relayer/Flush.antt =====
-- src/relayer/WebSocketRelayer.ts: what becomes of the offline queue when a connection opens.
use stream_fi_sdk.Base.{ℕ, ◌+◌, ◌≡◌, ◌≤◌, ◌<◌, ◌⊎◌, not, List, [], ◌∷◌, ◌++◌, map, filter, nat_eq}
use stream_fi_sdk.Base.JsMap
use stream_fi_sdk.Relayer.State.{QueuedMessage, send_task, Relayer}
use stream_fi_sdk.Relayer.Sending.{is_stale}

-- Which messages of a queue are sent: those that do not wait for longer than the limit, if there is one,
-- in the order of the queue.
pub data Flushed {M : Type 0} (ttl_ms now : ℕ) : List (QueuedMessage M) → List M → Type 0 where
  none_left : Flushed ttl_ms now [] []
  dropped :
      {q : QueuedMessage M} {pending : List (QueuedMessage M)} {messages : List M}
      → 0 < ttl_ms
      → q.enqueued_at + ttl_ms < now
      → Flushed ttl_ms now pending messages
      → Flushed ttl_ms now (q ∷ pending) messages
  kept :
      {q : QueuedMessage M} {pending : List (QueuedMessage M)} {messages : List M}
      → (ttl_ms ≡ 0) ⊎ (now ≤ q.enqueued_at + ttl_ms)
      → Flushed ttl_ms now pending messages
      → Flushed ttl_ms now (q ∷ pending) (q.message ∷ messages)

module _ {M : Type 0} where
  abbrev pub live : ℕ → ℕ → List (QueuedMessage M) → List M
  live ttl_ms now pending = map (λ q. q.message) (filter (λ q. not (is_stale ttl_ms now q)) pending)

  abbrev pub with_tasks : Relayer M → List M → Relayer M
  with_tasks r ms = record r { lock_queue = r.lock_queue ++ map send_task ms }
