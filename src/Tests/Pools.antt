-- ===== src/Tests/Pools.antt =====
-- Runs of the model of src/map-with-concurrency.ts and src/coalesce-async.ts.
use stream_fi_sdk.Base.{ℕ, ◌*◌, Option, some, List, [], ◌∷◌, ◌≡◌, refl, map, max}
use stream_fi_sdk.Base.{nat_eq}
use stream_fi_sdk.Coalesce.{Happening, call, settle, run_in_flight, no_flights}
use stream_fi_sdk.Coalesce.InFlight.{IsShared, run_in_flight-IsShared}
use stream_fi_sdk.Concurrency.{take_item, start_workers, finish, finish_all, map_with_concurrency}
use stream_fi_sdk.Concurrency.Order.{IsRunning, map_with_concurrency-IsRunning}
use stream_fi_sdk.Concurrency.Results.{map_with_concurrency-map}

abbrev twice : ℕ → Option ℕ
twice n = some (n * 2)

abbrev three : List ℕ
three = 5 ∷ 6 ∷ 7 ∷ []

map_with_concurrency-IsRunning_example :
    IsRunning twice three (max 1 2) (map_with_concurrency twice three 2 (1 ∷ 0 ∷ []))
map_with_concurrency-IsRunning_example = map_with_concurrency-IsRunning twice three 2 (1 ∷ 0 ∷ [])

-- The second item's call ends first.
map_with_concurrency-map_example :
    (map_with_concurrency twice three 2 (1 ∷ 2 ∷ 0 ∷ [])).results ≡ map twice three
unfolding map_with_concurrency start_workers take_item finish finish_all
map_with_concurrency-map_example = map_with_concurrency-map twice three 2 (1 ∷ 2 ∷ 0 ∷ []) refl refl

-- Two calls for a key and one for another, of which the first call of `fn` settles.
abbrev calls : List (Happening ℕ)
calls = call 5 ∷ call 5 ∷ call 6 ∷ settle 0 ∷ call 5 ∷ []

run_in_flight-IsShared_example : IsShared (run_in_flight no_flights calls)
run_in_flight-IsShared_example = run_in_flight-IsShared calls
