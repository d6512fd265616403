-- ===== src/Relayer/Turns.antt =====
-- src/relayer/WebSocketRelayer.ts: the turns of messages that wait for the lock, once it is handed on.
use stream_fi_sdk.Base.{
  none, ℕ, zero, suc, ◌≡◌, true, false, some, List, [], ◌∷◌, ◌++◌, map, length, refl, sym, ap,
  subst, ◌∙◌, append_assoc, append-nil, nat_eq, if_cases,
}
use stream_fi_sdk.Relayer.State.{
  same_transition, Effect, sent, send_task, connected, Waiter, by_connect, by_reconnect, Relayer,
  is_connected, release_lock, emit_state_change,
}
use stream_fi_sdk.Relayer.Sending.{locked_send}
use stream_fi_sdk.Relayer.Connecting.{finish, same_promise}
use stream_fi_sdk.Relayer.Machine.{take_turn, run_task}

module _ {M : Type 0} where
  -- The relayer is usable.
  pub record IsUsable (r : Relayer M) : Type 0 where
    pub alive : r.is_destroyed ≡ false
    pub trying : r.reconnect_exhausted ≡ false
    pub usable : is_connected r ≡ true

  -- So many turns of the tasks that hold the lock.
  unfoldable pub take_turns : ℕ → Relayer M → ℕ → Relayer M
  take_turns zero r now = r
  take_turns (suc n) r now = take_turns n (take_turn r r.turns now) now

  -- The lock is handed to the first of the messages, and the others wait for it.
  abbrev pub handed : Relayer M → List M → List (Effect M) → Relayer M
  handed r [] es = record r { is_locked = false; lock_queue = []; turns = []; effects = es }
  handed r (m ∷ ms) es = record r {
    lock_queue = map send_task ms;
    turns = send_task m ∷ [];
    effects = es;
  }

  pub take_turns-sent :
      (ms : List M) (r : Relayer M) (es : List (Effect M)) (i now : ℕ)
      → IsUsable r
      → r.ws ≡ some i
      → (take_turns (length ms) (handed r ms es) now).effects ≡ es ++ map (sent i) ms
  unfolding take_turns
  take_turns-sent [] r es i now o w = sym (append-nil es)
  take_turns-sent (m ∷ []) r es i now o w = rw (one_turn) refl
    where
      one_turn :
          take_turn (handed r (m ∷ []) es) (send_task m ∷ []) now
          ≡ handed r [] (es ++ sent i m ∷ [])
      one_turn =
          unfold take_turn in
          unfold run_task in
          unfold locked_send in unfold release_lock in rw (o.alive, o.trying, o.usable, w) refl
  take_turns-sent (m ∷ n ∷ ms) r es i now o w =
      ap (λ x. (take_turns (length (n ∷ ms)) x now).effects) one_turn
      ∙ take_turns-sent (n ∷ ms) r (es ++ sent i m ∷ []) i now o w
      ∙ append_assoc es (sent i m ∷ []) (map (sent i) (n ∷ ms))
    where
      one_turn :
          take_turn (handed r (m ∷ n ∷ ms) es) (send_task m ∷ []) now
          ≡ handed r (n ∷ ms) (es ++ sent i m ∷ [])
      one_turn =
          unfold take_turn in
          unfold run_task in
          unfold locked_send in unfold release_lock in rw (o.alive, o.trying, o.usable, w) refl

  -- The lock is handed on.
  abbrev pub IsHanded : Relayer M → List M → Type 0
  IsHanded r [] = (r.lock_queue ≡ []) × (r.turns ≡ []) × (r.is_locked ≡ false)
  IsHanded r (m ∷ ms) = (r.lock_queue ≡ map send_task ms) × (r.turns ≡ send_task m ∷ [])

  pub as_handed : (r : Relayer M) (ms : List M) → IsHanded r ms → r ≡ handed r ms r.effects
  as_handed r [] h =
      subst (λ b. r ≡ record r { is_locked = b; lock_queue = []; turns = [] }) h.2
        (subst (λ t. r ≡ record r { lock_queue = []; turns = t }) h.1
          (subst (λ l. r ≡ record r { lock_queue = l }) h.0 refl))
  as_handed r (m ∷ ms) h =
      subst (λ t. r ≡ record r { lock_queue = map send_task ms; turns = t }) h.1
        (subst (λ l. r ≡ record r { lock_queue = l }) h.0 refl)

  -- A usable relayer on a socket, whose offline queue is empty.
  pub record IsEmptied (i : ℕ) (r : Relayer M) : Type 0 where
    pub alive : r.is_destroyed ≡ false
    pub trying : r.reconnect_exhausted ≡ false
    pub usable : is_connected r ≡ true
    pub on_socket : r.ws ≡ some i
    pub emptied : r.offline_queue ≡ []

  -- The messages wait for the lock.
  pub record IsWaiting (i : ℕ) (ms : List M) (r : Relayer M) : Type 0 where
    pub state : IsEmptied i r
    pub waits : r.lock_queue ≡ map send_task ms
    pub idle : r.turns ≡ []

  release_lock-IsEmptied :
      (i : ℕ) (ms : List M) (r : Relayer M)
      → IsWaiting i ms r
      → IsEmptied i (release_lock r) × IsHanded (release_lock r) ms
  unfolding release_lock
  release_lock-IsEmptied i [] r v =
      let o = v.state in
      rw (v.waits) (
        record {
          alive = o.alive;
          trying = o.trying;
          usable = o.usable;
          on_socket = o.on_socket;
          emptied = o.emptied;
        },
        (refl, v.idle, refl),
      )
  release_lock-IsEmptied i (m ∷ ms) r v =
      let o = v.state in
      rw (v.waits) (
        record {
          alive = o.alive;
          trying = o.trying;
          usable = o.usable;
          on_socket = o.on_socket;
          emptied = o.emptied;
        },
        (refl, ap (λ t. t ++ send_task m ∷ []) v.idle),
      )

  pub finish-IsEmptied :
      (i : ℕ) (ms : List M) (r : Relayer M) (waiter : Waiter)
      → IsWaiting i ms r
      → IsEmptied i (finish r waiter) × IsHanded (finish r waiter) ms
  unfolding finish
  finish-IsEmptied i ms r by_reconnect v = release_lock-IsEmptied i ms r v
  finish-IsEmptied i ms r (by_connect p) v =
      let (o, h) = release_lock-IsEmptied i ms r v in
      if_cases (λ (x : Relayer M). IsEmptied i x × IsHanded x ms)
        (same_promise (release_lock r).connect_promise p)
        (λ _. (
          record {
            alive = o.alive;
            trying = o.trying;
            usable = o.usable;
            on_socket = o.on_socket;
            emptied = o.emptied;
          },
          still ms h,
        ))
        (λ _. (o, h))
    where
      still :
          (ms : List M)
          → IsHanded (release_lock r) ms
          → IsHanded (record (release_lock r) { connect_promise = none }) ms
      still [] h = h
      still (m ∷ ms) h = h

  pub emit_state_change-IsWaiting :
      (i : ℕ) (ms : List M) (r : Relayer M)
      → IsWaiting i ms r
      → IsWaiting i ms (emit_state_change r connected)
  unfolding emit_state_change
  emit_state_change-IsWaiting i ms r v =
      if_cases (IsWaiting i ms) (same_transition r.state_transition connected) (λ _. v)
        (λ _.
          let o = v.state in
          record {
            state = record {
              alive = o.alive;
              trying = o.trying;
              usable = o.usable;
              on_socket = o.on_socket;
              emptied = o.emptied;
            };
            waits = v.waits;
            idle = v.idle;
          })
