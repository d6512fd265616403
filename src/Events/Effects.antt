-- ===== src/Events/Effects.antt =====
-- src/events.ts: what a subscription tells its handlers, whatever happens to it: a property of the
-- window, of whether there are handlers and of what they were told is kept by every step when it is
-- kept by an event that was not seen, by another call, and by the end of the handlers.
use stream_fi_sdk.Base.{
  ℕ, ◌+◌, ◌≡◌, refl, Bool, true, false, not, ◌&&◌, Option, none, some, String, List, [], ◌∷◌, ltb,
  ◌==◌, ◌===◌, string_eq, if◌then◌else◌, if_cases, filter,
}
use stream_fi_sdk.Indexer.{LedgerGap, gap_at, next_current}
use stream_fi_sdk.Events.{RpcEvent, Response}
use stream_fi_sdk.Events.Subscription.{
  Settings, Subscription, Effect, dispatched, gap, ledger_gap, errored, seen, dispatch_unseen,
  dispatch_each, on_ledger_gap, observe_ledger, check_gap, on_sequence, on_event, on_events,
  move_on, schedule, on_response, on_latest, on_poll, fill_gap, fill_ledgers, answer, is_none,
  is_missed, sort, Happening, timer_ends, unsubscribes, polled, replayed, backfilled, step, run,
}

-- The ids of the events dispatched that have one, the last first.
abbrev pub delivered_ids : List Effect → List String
delivered_ids [] = []
delivered_ids (dispatched e ∷ es) =
    let rest = delivered_ids es in if e.id === "" then rest else e.id ∷ rest
delivered_ids (gap expected actual ∷ es) = delivered_ids es
delivered_ids (ledger_gap g ∷ es) = delivered_ids es
delivered_ids (errored ∷ es) = delivered_ids es

module _ {Cursor : Type 0} (settings : Settings) (P : List String → Bool → List Effect → Type 0)
    (other : (recent : List String) (listening : Bool) (effect : Effect) (effects : List Effect)
      → delivered_ids (effect ∷ effects) ≡ delivered_ids effects
      → P recent listening effects
      → P recent listening (if listening then effect ∷ effects else effects))
    (unseen : (recent : List String) (listening : Bool) (e : RpcEvent) (effects : List Effect)
      → (seen settings.dedup_window_size e.id recent).1 ≡ false
      → P recent listening effects
      → P
          (seen settings.dedup_window_size e.id recent).0
          listening
          (if listening then dispatched e ∷ effects else effects))
    (hushed : (recent : List String) (listening : Bool) (effects : List Effect)
      → P recent listening effects
      → P recent false effects) where
  abbrev pub Good : Subscription Cursor → Type 0
  Good s = P s.recent_ids s.listening s.effects

  dispatch_unseen-Good :
      (e : RpcEvent) (s : Subscription Cursor) → Good s → Good (dispatch_unseen settings e s)
  dispatch_unseen-Good e s v =
      if_cases Good (seen settings.dedup_window_size e.id s.recent_ids).1 (λ h. v)
        (λ h. unseen s.recent_ids s.listening e s.effects h v)

  dispatch_each-Good :
      (es : List RpcEvent) (s : Subscription Cursor) → Good s → Good (dispatch_each settings es s)
  dispatch_each-Good [] s v = v
  dispatch_each-Good (e ∷ es) s v =
      dispatch_each-Good es (dispatch_unseen settings e s) (dispatch_unseen-Good e s v)

  on_ledger_gap-Good :
      (g : Option LedgerGap) (s : Subscription Cursor) → Good s → Good (on_ledger_gap settings g s)
  on_ledger_gap-Good none s v = v
  on_ledger_gap-Good (some g) s v = other s.recent_ids s.listening (ledger_gap g) s.effects refl v

  check_gap-Good :
      (last : Option ℕ) (q : ℕ) (s : Subscription Cursor)
      → Good s
      → Good (check_gap settings last q s)
  check_gap-Good none q s v = v
  check_gap-Good (some l) q s v =
      if_cases Good (q == l + 1) (λ h. v)
        (λ h. other s.recent_ids s.listening (gap (l + 1) q) s.effects refl v)

  on_sequence-Good :
      (q : Option ℕ) (s : Subscription Cursor) → Good s → Good (on_sequence settings q s)
  on_sequence-Good none s v = v
  on_sequence-Good (some q) s v = check_gap-Good s.last_sequence q s v

  on_event-Good : (e : RpcEvent) (s : Subscription Cursor) → Good s → Good (on_event settings e s)
  on_event-Good e s v =
      let s' : Subscription Cursor = observe_ledger settings e s in
      let v' : Good s' =
        on_ledger_gap-Good (gap_at s.ledger e.ledger)
          (record s { ledger = next_current s.ledger e.ledger }) v in
      if_cases Good (seen settings.dedup_window_size e.id s'.recent_ids).1 (λ h. v')
        (λ h. on_sequence-Good e.sequence _ (unseen s'.recent_ids s'.listening e s'.effects h v'))

  on_events-Good :
      (es : List RpcEvent) (s : Subscription Cursor) → Good s → Good (on_events settings es s)
  on_events-Good [] s v = v
  on_events-Good (e ∷ es) s v = on_events-Good es (on_event settings e s) (on_event-Good e s v)

  on_response-Good :
      (r : Option (Response Cursor)) (s : Subscription Cursor)
      → Good s
      → Good (on_response settings r s)
  on_response-Good none s v = other s.recent_ids s.listening errored s.effects refl v
  on_response-Good (some r) s v =
      moved r.cursor _ (on_events-Good r.events (record s { consecutive_failures = 0 }) v)
    where
      moved :
          (c : Option Cursor)
          → (t : Subscription Cursor) → Good t
          → Good (schedule settings (move_on settings c r.latest_ledger t))
      moved none t v = v
      moved (some c) t v = v

  on_poll-Good :
      (latest : Option ℕ) (r : Option (Response Cursor)) (s : Subscription Cursor)
      → Good s
      → Good (on_poll settings latest r s)
  unfolding on_poll
  on_poll-Good latest r s v =
      if_cases Good (not s.ledger_seeded && is_none s.cursor) (λ h. first latest)
        (λ h. on_response-Good r s v)
    where
      first : (latest : Option ℕ) → Good (on_latest settings latest r s)
      first none = on_response-Good none s v
      first (some n) =
          on_response-Good r
            (record s { start_ledger = n; last_start_ledger = n; ledger_seeded = true }) v

  fill_gap-Good :
      (es : List RpcEvent) (g : Option (ℕ × ℕ)) (s : Subscription Cursor)
      → Good s
      → Good (fill_gap settings es g s)
  fill_gap-Good es none s v = v
  fill_gap-Good es (some (expected, actual)) s v =
      dispatch_each-Good (sort (filter (is_missed expected actual) es)) s v

  fill_ledgers-Good :
      (es : List RpcEvent) (g : Option LedgerGap) (s : Subscription Cursor)
      → Good s
      → Good (fill_ledgers settings es g s)
  fill_ledgers-Good es none s v = v
  fill_ledgers-Good es (some g) s v =
      dispatch_each-Good (filter (λ (e : RpcEvent). ltb e.ledger g.actual) es) s v

  step-Good : (s : Subscription Cursor) (h : Happening Cursor) → Good s → Good (step settings s h)
  unfolding step
  step-Good s timer_ends v = if_cases Good (is_none s.timer) (λ h. v) (λ h. v)
  step-Good s (polled latest r) v =
      if_cases Good s.polling (λ h. on_poll-Good latest r s v) (λ h. v)
  step-Good s (replayed es) v = fill_gap-Good (answer es) s.replaying s v
  step-Good s (backfilled es) v = fill_ledgers-Good (answer es) s.backfilling s v
  step-Good s unsubscribes v = hushed s.recent_ids s.listening s.effects v

  pub run-Good :
      (s : Subscription Cursor) (hs : List (Happening Cursor)) → Good s → Good (run settings s hs)
  unfolding run
  run-Good s [] v = v
  run-Good s (h ∷ hs) v = run-Good (step settings s h) hs (step-Good s h v)
