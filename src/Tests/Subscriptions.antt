-- ===== src/Tests/Subscriptions.antt =====
-- Runs of the model of src/events.ts.
use stream_fi_sdk.Base.{
  ℕ, String, ◌===◌, ===_iff, string_eq, false, ◌≢◌, ◌+◌, Option, none, some, List, [], ◌∷◌, ◌≡◌,
  refl, inl, length, take, drop, filter, leb, arith,
}
use stream_fi_sdk.Events.{RpcEvent, Request, from_ledger, after, Response}
use stream_fi_sdk.Events.Replay.{Replayed, done, replay_events}
use stream_fi_sdk.Events.Sound.{IsSound, Dispatched, replay_events-IsSound}
use stream_fi_sdk.Events.Pages.{IsLogServer}
use stream_fi_sdk.Events.Complete.{replay_events-log}
use stream_fi_sdk.Events.Subscription.{
  Settings, Happening, timer_ends, polled, replayed, backfilled, run, subscribe,
}
use stream_fi_sdk.Events.Alive.{GoesOn, subscribe-GoesOn}
use stream_fi_sdk.Events.Spaced.{IsWindowed, subscribe-IsWindowed}

abbrev events : List RpcEvent
events =
    record { id = "a"; ledger = 5; sequence = some 1 }
    ∷ record { id = "b"; ledger = 6; sequence = some 2 }
    ∷ record { id = "c"; ledger = 9; sequence = some 3 }
    ∷ []

differ : (a b : String) → (a === b) ≡ false → a ≢ b
differ a b h e = absurd (cc (h, (===_iff a b).1 e))

abbrev page : ℕ → ℕ → Response ℕ
page k size = record {
  events = take size (drop k events);
  cursor = some (k + length (take size (drop k events)));
  latest_ledger = 9;
}

abbrev log_server : Request ℕ → ℕ → Option (Response ℕ)
log_server (from_ledger n) size = some (page 0 size)
log_server (after k) size = some (page k size)

abbrev pages_log : IsLogServer log_server events 5 2
pages_log = record {
  place = λ k. k;
  head = (page 0 2, 2, refl, refl, refl, refl);
  tail = λ k. (page k 2, k + length (take 2 (drop k events)), refl, refl, refl, refl);
}

replay_events-IsSound_example : Dispatched (IsSound 8) (
    replay_events log_server 5
      (record { to_ledger = some 8; page_size = some 2; max_pages = none })
      none)
replay_events-IsSound_example =
    replay_events-IsSound log_server 5
      (record { to_ledger = some 8; page_size = some 2; max_pages = none }) none 8 (inl refl)

replay_events-log_example :
    (r : Replayed) × (replay_events log_server 5
        (record { to_ledger = some 8; page_size = some 2; max_pages = some 2 })
        none
      ≡ done r)
    × (r.delivered ≡ filter (λ (e : RpcEvent). leb e.ledger 8) events)
replay_events-log_example =
    replay_events-log log_server events 5 8 2 2 none pages_log
      ((differ "b" "a" refl, (differ "c" "a" refl, tt)), ((differ "c" "b" refl, tt), (tt, tt)))
      ((omega arith, (omega arith, tt)), ((omega arith, tt), (tt, tt))) (omega arith) (omega arith)
      (omega arith) (omega arith) (omega arith)

abbrev settings : Settings
settings = record {
  poll_interval = 5000;
  max_backoff_ms = 60000;
  max_consecutive_failures = 2;
  dedup_window_size = 1000;
}

-- A poll that fails, one that brings events with a gap, and the answer to the replay of the gap.
abbrev happenings : List (Happening ℕ)
happenings =
    polled (some 4) none
    ∷ timer_ends
    ∷ polled none (
        some (record {
          events =
              record { id = "a"; ledger = 5; sequence = some 1 }
              ∷ record { id = "c"; ledger = 9; sequence = some 3 }
              ∷ [];
          cursor = none;
          latest_ledger = 9;
        }))
    ∷ replayed (some events)
    ∷ backfilled (some events)
    ∷ []

subscribe-GoesOn_example : GoesOn settings (run settings subscribe happenings)
subscribe-GoesOn_example = subscribe-GoesOn settings happenings (omega arith)

subscribe-IsWindowed_example : IsWindowed 1000 (run settings (subscribe {Cursor = ℕ}) happenings)
subscribe-IsWindowed_example = subscribe-IsWindowed settings happenings
