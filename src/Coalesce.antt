-- ===== src/Coalesce.antt =====
-- src/coalesce-async.ts: calls that share a promise. A promise is a number, in the order of the calls of
-- `fn`; `calls` holds the promises that have not settled, each with the key of its fetch.
pub mod InFlight
use stream_fi_sdk.Base.{
  ℕ, zero, suc, ◌+◌, Bool, true, false, Option, none, some, List, [], ◌∷◌, ltb, ◌==◌, if◌then◌else◌,
  nat_eq, Eq,
}
use stream_fi_sdk.Base.JsMap.{get, set, delete}

pub record Flights (K : Type 0) : Type 0 where
  pub cache : List (K × ℕ)
  pub calls : List (ℕ × K)
  pub timers : List (ℕ × K)
  pub next : ℕ

-- How a promise settles.
pub data Outcome : Type 0 where
  resolved rejected : Outcome

module _ {K : Type 0} ⦃e : Eq K⦄ where
  abbrev pub start_call : K → Flights K → Flights K × ℕ
  start_call key s = (
    record s { cache = set key s.next s.cache; calls = (s.next, key) ∷ s.calls; next = s.next + 1 },
    s.next,
  )

  abbrev pub cached_or : K → Flights K → Option ℕ → Flights K × ℕ
  cached_or key s none = start_call key s
  cached_or key s (some promise) = (s, promise)

  -- `coalesceAsync` and `coalesceInFlight` up to the promise that they return.
  unfoldable pub coalesce : K → Flights K → Flights K × ℕ
  coalesce key s = cached_or key s (get key s.cache)

  -- Only the entry that is still the promise is taken away.
  abbrev pub evict_if : K → ℕ → Option ℕ → Flights K → Flights K
  evict_if key promise none s = s
  evict_if key promise (some current) s =
      if current == promise then record s { cache = delete key s.cache } else s

  unfoldable pub evict : K → ℕ → Flights K → Flights K
  evict key promise s = evict_if key promise (get key s.cache) s

  -- With a window, which is left out or is a number of milliseconds.
  abbrev pub on_settled_async : Option ℕ → ℕ → K → Outcome → Flights K → Flights K
  on_settled_async window promise key rejected s = evict key promise s
  on_settled_async none promise key resolved s = s
  on_settled_async (some ms) promise key resolved s =
      if ltb 0 ms then record s { timers = (promise, key) ∷ s.timers } else s

  abbrev pub without_call : ℕ → Flights K → Flights K
  without_call promise s = record s { calls = delete promise s.calls }

  abbrev pub settle_in_flight_at : ℕ → Option K → Flights K → Flights K
  settle_in_flight_at promise none s = s
  settle_in_flight_at promise (some key) s = evict key promise (without_call promise s)

  -- A promise of `coalesceInFlight` settles, either way.
  unfoldable pub settle_in_flight : ℕ → Flights K → Flights K
  settle_in_flight promise s = settle_in_flight_at promise (get promise s.calls) s

  abbrev pub settle_async_at : Option ℕ → ℕ → Outcome → Option K → Flights K → Flights K
  settle_async_at window promise outcome none s = s
  settle_async_at window promise outcome (some key) s =
      on_settled_async window promise key outcome (without_call promise s)

  -- A promise of `coalesceAsync` settles.
  unfoldable pub settle_async : Option ℕ → ℕ → Outcome → Flights K → Flights K
  settle_async window promise outcome s =
      settle_async_at window promise outcome (get promise s.calls) s

  abbrev pub end_timer : ℕ → Option K → Flights K → Flights K
  end_timer promise none s = s
  end_timer promise (some key) s = evict key promise (record s { timers = delete promise s.timers })

  -- The timer of a window ends.
  unfoldable pub expire : ℕ → Flights K → Flights K
  expire promise s = end_timer promise (get promise s.timers) s

-- What happens to the map of `coalesceInFlight`.
pub data Happening (K : Type 0) : Type 0 where
  call : K → Happening K
  settle : ℕ → Happening K

module _ {K : Type 0} ⦃e : Eq K⦄ where
  unfoldable pub run_in_flight : Flights K → List (Happening K) → Flights K
  run_in_flight s [] = s
  run_in_flight s (call key ∷ hs) = run_in_flight (coalesce key s).0 hs
  run_in_flight s (settle promise ∷ hs) = run_in_flight (settle_in_flight promise s) hs

abbrev pub no_flights : {K : Type 0} → Flights K
no_flights = record { cache = []; calls = []; timers = []; next = 0 }
