-- ===== src/Events/Subscription.antt =====
-- src/events.ts: `subscribeToStream` as a machine. `step` is one event: the timer ends, the calls of a
-- poll or of a backfill are answered, or the caller unsubscribes. A call that fails is answered
-- by `none`; the handlers are called in the order of `effects`, the last first.
use stream_fi_sdk.Base.{
  ℕ, ◌+◌, ◌-◌, ◌*◌, ◌^◌, min, Bool, true, false, not, ◌&&◌, ◌||◌, Option, none, some, String, List,
  [], ◌∷◌, ltb, leb, ◌==◌, ◌===◌, string_eq, if◌then◌else◌, take, filter,
}
use stream_fi_sdk.Indexer.{LedgerGap, gap_at, next_current}
use stream_fi_sdk.Events.{RpcEvent, Response}
use stream_fi_sdk.Events.Replay.{contains}

-- `pollInterval`, `maxBackoffMs`, `maxConsecutiveFailures` and `dedupWindowSize`, with their defaults.
pub record Settings : Type 0 where
  pub poll_interval : ℕ
  pub max_backoff_ms : ℕ
  pub max_consecutive_failures : ℕ
  pub dedup_window_size : ℕ

-- A call of a handler: `onGap` is given the number expected and the one that came.
pub data Effect : Type 0 where
  dispatched : RpcEvent → Effect
  gap : ℕ → ℕ → Effect
  ledger_gap : LedgerGap → Effect
  errored : Effect

-- `recent_ids` has the newest first. `replaying` and `backfilling` are the gaps that are being filled.
pub record Subscription (Cursor : Type 0) : Type 0 where
  pub start_ledger : ℕ
  pub ledger_seeded : Bool
  pub cursor : Option Cursor
  pub consecutive_failures : ℕ
  pub stopped : Bool
  pub timer : Option ℕ
  pub polling : Bool
  pub last_start_ledger : ℕ
  pub last_sequence : Option ℕ
  pub recent_ids : List String
  pub ledger : Option ℕ
  pub replaying : Option (ℕ × ℕ)
  pub backfilling : Option LedgerGap
  pub listening : Bool
  pub effects : List Effect

-- `RecentIdWindow.seen`: the ids afterwards, and whether the id was among them.
unfoldable pub seen : ℕ → String → List String → List String × Bool
seen size id ids =
    if (size == 0) || (id === "")
    then (ids, false)
    else if contains id ids
    then (ids, true)
    else (take size (id ∷ ids), false)

abbrev pub is_none {ℓ} : {A : Type ℓ} → Option A → Bool
is_none none = true
is_none (some a) = false

-- The item's number lies between the two.
abbrev pub is_missed : ℕ → ℕ → RpcEvent → Bool
is_missed expected actual event = elim event.sequence [
  | none ↦ false
  | some s ↦ ltb expected s && ltb s actual
]

abbrev pub sequence_or_zero : RpcEvent → ℕ
sequence_or_zero event = elim event.sequence [ none ↦ 0 | some s ↦ s ]

-- The sort by sequence number, which keeps the order of equal ones.
abbrev pub insert : RpcEvent → List RpcEvent → List RpcEvent
insert event [] = event ∷ []
insert event (e ∷ es) =
    let rest = insert event es in
    if leb (sequence_or_zero event) (sequence_or_zero e) then event ∷ e ∷ es else e ∷ rest

abbrev pub sort : List RpcEvent → List RpcEvent
sort [] = []
sort (e ∷ es) = insert e (sort es)

unfoldable pub delay : Settings → ℕ → ℕ
delay settings failures =
    if ltb 0 failures
    then min (settings.poll_interval * 2 ^ (failures - 1)) settings.max_backoff_ms
    else settings.poll_interval

abbrev pub answer : Option (List RpcEvent) → List RpcEvent
answer none = []
answer (some events) = events

-- What happens to a subscription, with the answers of the server.
pub data Happening (Cursor : Type 0) : Type 0 where
  timer_ends unsubscribes : Happening Cursor
  polled : Option ℕ → Option (Response Cursor) → Happening Cursor
  replayed backfilled : Option (List RpcEvent) → Happening Cursor

module _ {Cursor : Type 0} (settings : Settings) where
  abbrev pub emit : Effect → Subscription Cursor → Subscription Cursor
  emit effect s = record s { effects = if s.listening then effect ∷ s.effects else s.effects }

  -- Without ids that were seen, and told the handlers.
  abbrev pub dispatch_unseen : RpcEvent → Subscription Cursor → Subscription Cursor
  dispatch_unseen event s =
      let (ids, known) = seen settings.dedup_window_size event.id s.recent_ids in
      if known then s else emit (dispatched event) (record s { recent_ids = ids })

  abbrev pub dispatch_each : List RpcEvent → Subscription Cursor → Subscription Cursor
  dispatch_each [] s = s
  dispatch_each (e ∷ es) s = dispatch_each es (dispatch_unseen e s)

  -- `backfillLedgerGap` and `replayGap` up to their calls, which one at a time may make.
  abbrev pub begin_backfill : LedgerGap → Subscription Cursor → Subscription Cursor
  begin_backfill g s = record s {
    backfilling = if is_none s.backfilling then some g else s.backfilling;
  }

  abbrev pub begin_replay : ℕ → ℕ → Subscription Cursor → Subscription Cursor
  begin_replay expected actual s = record s {
    replaying =
        if not (is_none s.replaying) || leb s.last_start_ledger 0
        then s.replaying
        else some (expected, actual);
  }

  abbrev pub on_ledger_gap : Option LedgerGap → Subscription Cursor → Subscription Cursor
  on_ledger_gap none s = s
  on_ledger_gap (some g) s = begin_backfill g (emit (ledger_gap g) s)

  abbrev pub observe_ledger : RpcEvent → Subscription Cursor → Subscription Cursor
  observe_ledger event s =
      on_ledger_gap (gap_at s.ledger event.ledger)
        (record s { ledger = next_current s.ledger event.ledger })

  abbrev pub check_gap : Option ℕ → ℕ → Subscription Cursor → Subscription Cursor
  check_gap none sequence s = s
  check_gap (some last) sequence s =
      if sequence == last + 1
      then s
      else begin_replay last sequence (emit (gap (last + 1) sequence) s)

  abbrev pub on_sequence : Option ℕ → Subscription Cursor → Subscription Cursor
  on_sequence none s = s
  on_sequence (some sequence) s = record (check_gap s.last_sequence sequence s) {
    last_sequence = some sequence;
  }

  -- One round of the loop over a poll's events.
  abbrev pub on_event : RpcEvent → Subscription Cursor → Subscription Cursor
  on_event event s =
      let s' = observe_ledger event s in
      let (ids, known) = seen settings.dedup_window_size event.id s'.recent_ids in
      if known
      then s'
      else on_sequence event.sequence (emit (dispatched event) (record s' { recent_ids = ids }))

  abbrev pub on_events : List RpcEvent → Subscription Cursor → Subscription Cursor
  on_events [] s = s
  on_events (e ∷ es) s = on_events es (on_event e s)

  abbrev pub move_on : Option Cursor → ℕ → Subscription Cursor → Subscription Cursor
  move_on (some c) latest s = record s { cursor = some c }
  move_on none latest s = record s {
    cursor = none;
    start_ledger = latest + 1;
    last_start_ledger = latest;
  }

  -- The end of `poll`.
  abbrev pub schedule : Subscription Cursor → Subscription Cursor
  schedule s = record s {
    polling = false;
    timer = if s.stopped then s.timer else some (delay settings s.consecutive_failures);
  }

  -- The `catch` of `poll`.
  abbrev pub on_error : Subscription Cursor → Subscription Cursor
  on_error s =
      let failures = s.consecutive_failures + 1 in
      let s' = emit errored (record s { consecutive_failures = failures }) in
      schedule (record s' { stopped = s.stopped || leb settings.max_consecutive_failures failures })

  abbrev pub on_response : Option (Response Cursor) → Subscription Cursor → Subscription Cursor
  on_response none s = on_error s
  on_response (some response) s = schedule (
      move_on response.cursor response.latest_ledger
        (on_events response.events (record s { consecutive_failures = 0 })))

  -- The first ledger is asked for until it is known.
  abbrev pub on_latest :
      Option ℕ → Option (Response Cursor) → Subscription Cursor → Subscription Cursor
  on_latest none response s = on_error s
  on_latest (some latest) response s =
      on_response response
        (record s { start_ledger = latest; last_start_ledger = latest; ledger_seeded = true })

  unfoldable pub on_poll :
      Option ℕ → Option (Response Cursor) → Subscription Cursor → Subscription Cursor
  on_poll latest response s =
      if not s.ledger_seeded && is_none s.cursor
      then on_latest latest response s
      else on_response response s

  abbrev pub fill_gap : List RpcEvent → Option (ℕ × ℕ) → Subscription Cursor → Subscription Cursor
  fill_gap events none s = s
  fill_gap events (some (expected, actual)) s =
      dispatch_each (sort (filter (is_missed expected actual) events)) s

  abbrev pub fill_ledgers :
      List RpcEvent → Option LedgerGap → Subscription Cursor → Subscription Cursor
  fill_ledgers events none s = s
  fill_ledgers events (some g) s =
      dispatch_each (filter (λ (e : RpcEvent). ltb e.ledger g.actual) events) s

  -- An answer comes only to a call that was made.
  unfoldable pub step : Subscription Cursor → Happening Cursor → Subscription Cursor
  step s timer_ends =
      if is_none s.timer then s else record s { timer = none; polling = not s.stopped }
  step s (polled latest response) = if s.polling then on_poll latest response s else s
  step s (replayed events) = record (fill_gap (answer events) s.replaying s) { replaying = none }
  step s (backfilled events) = record (fill_ledgers (answer events) s.backfilling s) {
    backfilling = none;
  }
  step s unsubscribes = record s { stopped = true; timer = none; listening = false }

  unfoldable pub run : Subscription Cursor → List (Happening Cursor) → Subscription Cursor
  run s [] = s
  run s (h ∷ hs) = run (step s h) hs

-- The first poll is called at once.
unfoldable pub subscribe : {Cursor : Type 0} → Subscription Cursor
subscribe = record {
  start_ledger = 0;
  ledger_seeded = false;
  cursor = none;
  consecutive_failures = 0;
  stopped = false;
  timer = none;
  polling = true;
  last_start_ledger = 0;
  last_sequence = none;
  recent_ids = [];
  ledger = none;
  replaying = none;
  backfilling = none;
  listening = true;
  effects = [];
}
