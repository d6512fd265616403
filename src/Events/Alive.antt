-- ===== src/Events/Alive.antt =====
-- src/events.ts: a subscription goes on polling until it is stopped.
use stream_fi_sdk.Base.{
  ℕ, ◌+◌, ◌<◌, ◌≡◌, ◌⊎◌, refl, sym, ◌∙◌, subst, Bool, true, false, not, ◌&&◌, ◌||◌, Option, none,
  some, List, [], ◌∷◌, ltb, leb, if◌then◌else◌, if_cases, ◌==◌, Bool-cases, inl, inr, arith, filter,
}
use stream_fi_sdk.Indexer.{LedgerGap, gap_at, next_current}
use stream_fi_sdk.Events.{RpcEvent, Response}
use stream_fi_sdk.Events.Subscription.{
  Settings, Subscription, seen, dispatch_unseen, dispatch_each, on_ledger_gap, observe_ledger,
  check_gap, on_sequence, on_event, on_events, move_on, delay, on_error, on_response, on_latest,
  on_poll, fill_gap, fill_ledgers, answer, is_none, is_missed, sort, Happening, timer_ends,
  unsubscribes, polled, replayed, backfilled, step, run, subscribe,
}

-- What says whether the subscription goes on.
pub record Control : Type 0 where
  pub failures : ℕ
  pub stopped : Bool
  pub timer : Option ℕ
  pub polling : Bool
  pub listening : Bool

unfoldable pub control : {Cursor : Type 0} → Subscription Cursor → Control
control s = record {
  failures = s.consecutive_failures;
  stopped = s.stopped;
  timer = s.timer;
  polling = s.polling;
  listening = s.listening;
}

-- Until it is stopped, a poll is in flight or the timer is set to the delay after the failures so far,
-- and these are fewer than the maximum. Once it is stopped the timer is off.
pub record IsAlive (settings : Settings) (c : Control) : Type 0 where
  pub busy :
      c.stopped ≡ false
      → ((c.polling ≡ true) × (c.timer ≡ none))
        ⊎ ((c.polling ≡ false) × (c.timer ≡ some (delay settings c.failures)))
  pub tolerated : c.stopped ≡ false → c.failures < settings.max_consecutive_failures
  pub off : c.stopped ≡ true → c.timer ≡ none
  pub heard : c.stopped ≡ false → c.listening ≡ true

-- The state of a subscription, by its control fields.
unfoldable pub GoesOn : {Cursor : Type 0} → Settings → Subscription Cursor → Type 0
unfolding control
GoesOn settings s = IsAlive settings (control s)

scheduled : Settings → Control → Control
scheduled settings c = record c {
  polling = false;
  timer = if c.stopped then c.timer else some (delay settings c.failures);
}

scheduled-IsAlive :
    (settings : Settings) (c : Control)
    → (c.stopped ≡ false → c.failures < settings.max_consecutive_failures)
    → c.timer ≡ none
    → (c.stopped ≡ false → c.listening ≡ true)
    → IsAlive settings (scheduled settings c)
unfolding scheduled
scheduled-IsAlive settings c f t l = record {
  busy = λ h. inr (refl, rw h refl);
  tolerated = f;
  off = λ h. rw h t;
  heard = l;
}

idle_timer :
    (settings : Settings) (c : Control) → IsAlive settings c → c.polling ≡ true → c.timer ≡ none
idle_timer settings c v p = elim (Bool-cases c.stopped) [
  | inl h ↦ v.off h
  | inr h ↦ elim (v.busy h) [ inl b ↦ b.1 | inr b ↦ absurd (cc (p, b.0)) ]
]

or_false : (a b : Bool) → (a || b) ≡ false → (a ≡ false) × (b ≡ false)
or_false a b h = ground arith

module _ {Cursor : Type 0} (settings : Settings) where
  control-dispatch_unseen :
      (e : RpcEvent) (s : Subscription Cursor) → control (dispatch_unseen settings e s) ≡ control s
  unfolding control
  control-dispatch_unseen e s =
      if_cases (λ (t : Subscription Cursor). control t ≡ control s)
        (seen settings.dedup_window_size e.id s.recent_ids).1 (λ h. refl) (λ h. refl)

  control-dispatch_each :
      (es : List RpcEvent) (s : Subscription Cursor)
      → control (dispatch_each settings es s) ≡ control s
  unfolding control
  control-dispatch_each [] s = refl
  control-dispatch_each (e ∷ es) s =
      control-dispatch_each es (dispatch_unseen settings e s) ∙ control-dispatch_unseen e s

  control-on_ledger_gap :
      (g : Option LedgerGap) (s : Subscription Cursor)
      → control (on_ledger_gap settings g s) ≡ control s
  unfolding control
  control-on_ledger_gap none s = refl
  control-on_ledger_gap (some g) s = refl

  control-on_sequence :
      (q : Option ℕ) (s : Subscription Cursor) → control (on_sequence settings q s) ≡ control s
  unfolding control
  control-on_sequence none s = refl
  control-on_sequence (some q) s = checked s.last_sequence
    where
      checked : (last : Option ℕ) → control (check_gap settings last q s) ≡ control s
      checked none = refl
      checked (some l) =
          if_cases (λ (t : Subscription Cursor). control t ≡ control s) (q == l + 1) (λ h. refl)
            (λ h. refl)

  control-on_event :
      (e : RpcEvent) (s : Subscription Cursor) → control (on_event settings e s) ≡ control s
  unfolding control
  control-on_event e s =
      let s' : Subscription Cursor = observe_ledger settings e s in
      let same : control s' ≡ control s =
        control-on_ledger_gap (gap_at s.ledger e.ledger)
          (record s { ledger = next_current s.ledger e.ledger }) in
      if_cases (λ (t : Subscription Cursor). control t ≡ control s)
        (seen settings.dedup_window_size e.id s'.recent_ids).1 (λ h. same)
        (λ h. control-on_sequence e.sequence _ ∙ same)

  control-on_events :
      (es : List RpcEvent) (s : Subscription Cursor) → control (on_events settings es s) ≡ control s
  control-on_events [] s = refl
  control-on_events (e ∷ es) s = control-on_events es (on_event settings e s) ∙ control-on_event e s

  control-move_on :
      (c : Option Cursor) (latest : ℕ) (s : Subscription Cursor)
      → control (move_on settings c latest s) ≡ control s
  unfolding control
  control-move_on none latest s = refl
  control-move_on (some c) latest s = refl

  on_error-GoesOn :
      (s : Subscription Cursor)
      → s.timer ≡ none
      → (s.stopped ≡ false → s.listening ≡ true)
      → GoesOn settings (on_error settings s)
  unfolding GoesOn control scheduled
  on_error-GoesOn s t l =
      scheduled-IsAlive settings
        (record (control s) {
          failures = s.consecutive_failures + 1;
          stopped = s.stopped || leb settings.max_consecutive_failures (s.consecutive_failures + 1);
        })
        (λ h. let (_, k) = or_false s.stopped _ h in ground arith) t
        (λ h. l (or_false s.stopped _ h).0)

  on_response-GoesOn :
      (response : Option (Response Cursor)) (s : Subscription Cursor)
      → 0 < settings.max_consecutive_failures
      → s.timer ≡ none
      → (s.stopped ≡ false → s.listening ≡ true)
      → GoesOn settings (on_response settings response s)
  unfolding GoesOn
  on_response-GoesOn none s m t l = unfold GoesOn in on_error-GoesOn s t l
  on_response-GoesOn (some r) s m t l =
      let s0 : Subscription Cursor = record s { consecutive_failures = 0 } in
      let same : control
            (move_on settings r.cursor r.latest_ledger (on_events settings r.events s0))
          ≡ control s0 =
        control-move_on r.cursor r.latest_ledger (on_events settings r.events s0)
        ∙ control-on_events r.events s0 in
      unfold control scheduled in
      subst (λ c. IsAlive settings (scheduled settings c)) (sym same)
        (scheduled-IsAlive settings (control s0) (λ h. m) t l)

  on_poll-GoesOn :
      (latest : Option ℕ) (response : Option (Response Cursor)) (s : Subscription Cursor)
      → 0 < settings.max_consecutive_failures
      → s.timer ≡ none
      → (s.stopped ≡ false → s.listening ≡ true)
      → GoesOn settings (on_poll settings latest response s)
  unfolding on_poll
  on_poll-GoesOn latest response s m t l =
      if_cases (GoesOn settings) (not s.ledger_seeded && is_none s.cursor) (λ h. first latest)
        (λ h. on_response-GoesOn response s m t l)
    where
      first : (latest : Option ℕ) → GoesOn settings (on_latest settings latest response s)
      first none = on_error-GoesOn s t l
      first (some n) =
          on_response-GoesOn response
            (record s { start_ledger = n; last_start_ledger = n; ledger_seeded = true }) m t l

  control-fill_gap :
      (es : List RpcEvent) (g : Option (ℕ × ℕ)) (s : Subscription Cursor)
      → control (fill_gap settings es g s) ≡ control s
  control-fill_gap es none s = refl
  control-fill_gap es (some (expected, actual)) s =
      control-dispatch_each (sort (filter (is_missed expected actual) es)) s

  control-fill_ledgers :
      (es : List RpcEvent) (g : Option LedgerGap) (s : Subscription Cursor)
      → control (fill_ledgers settings es g s) ≡ control s
  control-fill_ledgers es none s = refl
  control-fill_ledgers es (some g) s =
      control-dispatch_each (filter (λ (e : RpcEvent). ltb e.ledger g.actual) es) s

  timer_ends-GoesOn :
      (s : Subscription Cursor) → GoesOn settings s → GoesOn settings (step settings s timer_ends)
  unfolding GoesOn control step
  timer_ends-GoesOn s v =
      if_cases (λ (t : Subscription Cursor). IsAlive settings (control t)) (is_none s.timer)
        (λ h. v)
        (λ h. record {
          busy = λ e. inl (rw e refl, refl);
          tolerated = v.tolerated;
          off = λ e. refl;
          heard = v.heard;
        })

  step-GoesOn :
      (s : Subscription Cursor) (h : Happening Cursor)
      → 0 < settings.max_consecutive_failures
      → GoesOn settings s
      → GoesOn settings (step settings s h)
  unfolding step GoesOn control
  step-GoesOn s timer_ends m v = timer_ends-GoesOn s v
  step-GoesOn s (polled latest response) m v =
      if_cases (GoesOn settings) s.polling
        (λ p. on_poll-GoesOn latest response s m (idle_timer settings (control s) v p) v.heard)
        (λ p. v)
  step-GoesOn s (replayed events) m v =
      subst (IsAlive settings) (sym (control-fill_gap (answer events) s.replaying s)) v
  step-GoesOn s (backfilled events) m v =
      subst (IsAlive settings) (sym (control-fill_ledgers (answer events) s.backfilling s)) v
  step-GoesOn s unsubscribes m v = record {
    busy = λ h. absurd (cc h);
    tolerated = λ h. absurd (cc h);
    off = λ h. refl;
    heard = λ h. absurd (cc h);
  }

  run-GoesOn :
      (s : Subscription Cursor) (hs : List (Happening Cursor))
      → 0 < settings.max_consecutive_failures
      → GoesOn settings s
      → GoesOn settings (run settings s hs)
  unfolding run
  run-GoesOn s [] m v = v
  run-GoesOn s (h ∷ hs) m v = run-GoesOn (step settings s h) hs m (step-GoesOn s h m v)

  -- Whatever happens, a subscription that tolerates a failure at least and is not stopped has a poll in
  -- flight or its timer set to the delay that follows from the failures so far, which are fewer than
  -- the maximum; once it is stopped, no timer is set.
  pub subscribe-GoesOn :
      (hs : List (Happening Cursor))
      → 0 < settings.max_consecutive_failures
      → GoesOn settings (run settings subscribe hs)
  subscribe-GoesOn hs m = run-GoesOn subscribe hs m (
      unfold GoesOn control subscribe in
      record {
        busy = λ h. inl (refl, refl);
        tolerated = λ h. m;
        off = λ h. absurd (cc h);
        heard = λ h. refl;
      })
